-- ===== src/Segmented/Serve.antt =====
-- ndn/segmented/serve.go: a producer of the segments of an object.
use containernet_ndn_dpdk.Shared.{
  ℕ, suc, ◌+◌, ◌-◌, ◌*◌, ◌/◌, ◌%◌, ◌^◌, Option, none, some, List, ◌==◌, if◌then◌else◌, length, take,
}
use containernet_ndn_dpdk.Shared.Int.{ℤ, pos, negsuc, pos_part, leb_ℤ, to_int}
use containernet_ndn_dpdk.Name.{get}
use containernet_ndn_dpdk.Name.Component.{NameComponent, invalid}
use containernet_ndn_dpdk.Interest.{Interest}
use containernet_ndn_dpdk.Data.{Data, no_data}
use containernet_ndn_dpdk.Endpoint.Producer.{Handled, made, other_error}
use containernet_ndn_dpdk.Segmented.{make_segment_name_component, extract_segment}

-- The errors of an io.ReaderAt, and a source: what ReadAt reads into so many bytes from an offset on, and the
-- size where the source is an io.Seeker.
pub data ReadError : Type 0 where
  no_error eof read_error : ReadError

pub record Source : Type 0 where
  pub read_at : ℕ → ℤ → List ℕ × ReadError
  pub size : Option ℕ

-- ServeOptions without those of the producer.
pub record ServeOptions : Type 0 where
  pub content_type : ℕ
  pub freshness : ℤ
  pub chunk_size : ℕ

-- applyDefaults, on the ChunkSize.
abbrev pub default_chunk_size : ℤ → ℕ
default_chunk_size size = if leb_ℤ size (pos 0) then 4096 else pos_part size

-- The number of the last segment, on uint64.
unfoldable pub last_segment : ℕ → ℕ → ℕ
last_segment size chunk =
    let last = (size / chunk + (2 ^ 64 - 1)) % 2 ^ 64 in
    if size % chunk == 0 then last else (last + 1) % 2 ^ 64

-- The finalBlock of Serve.
abbrev pub final_block_of : Option ℕ → ℕ → NameComponent
final_block_of none chunk = invalid
final_block_of (some size) chunk = make_segment_name_component (last_segment size chunk)

-- The segment 0 of an empty source.
abbrev pub serve_empty : Data → NameComponent → ReadError → Handled
serve_empty data_of own read_error = other_error
serve_empty data_of own eof = made (record data_of { final_block = own })
serve_empty data_of own no_error = made (record data_of { final_block = own })

-- The switch on the number of bytes; `own` is the last component of the name.
unfoldable pub serve_payload : ℕ → Data → ℕ → NameComponent → List ℕ × ReadError → Handled
serve_payload chunk data_of seg own (payload, e) =
    if length payload == 0
    then if seg == 0 then serve_empty data_of own e else other_error
    else if length payload == suc chunk
    then made (record data_of { content = take chunk payload })
    else made (record data_of { content = payload; final_block = own })

-- The offset: int64(seg) * int64(opts.ChunkSize).
abbrev pub offset_of : ℕ → ℕ → ℤ
offset_of seg chunk = to_int ((seg * chunk) % 2 ^ 64)

-- The handler of Serve, with the length of the prefix; the name has one component more, which is its last.
unfoldable pub serve_handler : ServeOptions → Source → ℕ → Interest → Handled
serve_handler opts source prefix_len interest = elim (extract_segment interest.name prefix_len) [
  | none ↦ other_error
  | some seg ↦
      serve_payload opts.chunk_size
        (record no_data {
          name = interest.name;
          content_type = opts.content_type;
          freshness = opts.freshness;
          final_block = final_block_of source.size opts.chunk_size;
        })
        seg (get interest.name (negsuc 0))
        (source.read_at (suc opts.chunk_size) (offset_of seg opts.chunk_size))
]
