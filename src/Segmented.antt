-- ===== src/Segmented.antt =====
-- ndn/segmented: the segment number in a name, and Ordered of fetch.go, which puts the segments that
-- arrive into order. A Data packet has its name and its content; a channel is the list of what is sent.
pub mod Segments
pub mod Order
pub mod Complete
pub mod Total
pub mod Serve
pub mod Slices
pub mod Contents
pub mod LastSegment
use containernet_ndn_dpdk.Shared.{
  ℕ, zero, suc, ◌+◌, ◌-◌, ◌%◌, ◌^◌, min, not, Option, none, some, List, [], ◌∷◌, ◌++◌, ltb, ◌==◌,
  if◌then◌else◌, length, ok, err, panic, ◌>>=◌,
}
use containernet_ndn_dpdk.Shared.Int.{ℤ, negsuc, to_int}
use containernet_ndn_dpdk.Shared.Assoc.{lookup, insert, delete, nat_eq, Eq}
use containernet_ndn_dpdk.Tlv.Nni
use containernet_ndn_dpdk.Tlv.Encode.{nni, max_u64}
use containernet_ndn_dpdk.Name.{Name, get, append}
use containernet_ndn_dpdk.Name.Component.{NameComponent, name_component_from}

-- an.TtSegmentNameComponent
abbrev pub tt_segment : ℕ
tt_segment = 0x32

-- makeSegmentNameComponent
pub make_segment_name_component : ℕ → NameComponent
make_segment_name_component seg = name_component_from tt_segment (nni seg)

-- extractSegment
unfoldable pub extract_segment : Name → ℕ → Option ℕ
extract_segment name prefix_len =
    let comp = get name (negsuc 0) in
    if not (length name == suc prefix_len)
    then none
    else if not (comp.typ == tt_segment)
    then none
    else elim (Nni.unmarshal_binary comp.value) [ ok v ↦ some v | err e ↦ none | panic ↦ none ]

-- The name in fetcher.makeInterest.
pub segment_name : Name → ℕ → Name
unfolding make_segment_name_component
segment_name prefix seg = append prefix (make_segment_name_component seg ∷ [])

pub record Data : Type 0 where
  pub name : Name
  pub content : List ℕ

-- `next` and `buffer` of Ordered.
pub record Reorder : Type 0 where
  pub next : ℕ
  pub buffer : List (ℕ × Data)

-- `next++` on a uint64.
abbrev pub incr : ℕ → ℕ
incr next = (next + 1) % 2 ^ 64

abbrev pub sent_first : Data → Reorder × List Data → Reorder × List Data
sent_first pkt (st, out) = (st, pkt ∷ out)

-- The inner loop of Ordered, with fuel: a round takes a segment out of the buffer, so the size of the
-- buffer is fuel enough.
unfoldable pub flush : ℕ → ℕ → List (ℕ × Data) → Reorder × List Data
flush zero next buffer = (record { next = next; buffer = buffer }, [])
flush (suc fuel) next buffer = elim (lookup next buffer) [
  | none ↦ (record { next = next; buffer = buffer }, [])
  | some pkt ↦ sent_first pkt (flush fuel (incr next) (delete next buffer))
]

-- The switch of Ordered on one packet.
unfoldable pub receive : ℕ → Reorder → Data → Reorder × List Data
receive prefix_len st pkt = elim (extract_segment pkt.name prefix_len) [
  | none ↦ (st, [])
  | some seg ↦
      if ltb seg st.next
      then (st, [])
      else if seg == st.next
      then sent_first pkt (flush (length st.buffer) (incr st.next) st.buffer)
      else (record st { buffer = insert seg pkt st.buffer }, [])
]

-- The loop of Ordered over the packets that arrive.
unfoldable pub receive_all : ℕ → Reorder → List Data → Reorder × List Data
receive_all prefix_len st [] = (st, [])
receive_all prefix_len st (pkt ∷ arrivals) =
    let (st', out) = receive prefix_len st pkt in
    let (st'', out') = receive_all prefix_len st' arrivals in (st'', out ++ out')

-- Ordered from SegmentBegin, after a fetch without error: what is sent on, and the number of segments
-- in the error, 0 for no error.
unfoldable pub ordered : ℕ → ℕ → List Data → List Data × ℕ
ordered prefix_len segment_begin arrivals =
    let (st, out) =
      receive_all prefix_len (record { next = segment_begin; buffer = [] }) arrivals in
    (out, length st.buffer)

-- FetchOptions.applyDefaults on SegmentEnd.
abbrev pub default_segment_end : ℕ → ℕ
default_segment_end segment_end = if segment_end == 0 then max_u64 else segment_end

-- `f.finalBlock`, which starts as math.MaxUint64, after a FinalBlock with this segment number.
abbrev pub final_block : Option ℕ → ℕ
final_block none = max_u64
final_block (some final_seg) = incr final_seg

-- EstimatedTotal
pub estimated_total : ℕ → ℕ → Option ℕ → ℤ
estimated_total segment_begin segment_end final_seg =
    let seg_last = min (default_segment_end segment_end) (final_block final_seg) in
    if seg_last == max_u64
    then negsuc 0
    else to_int ((seg_last + (2 ^ 64 - segment_begin) + 1) % 2 ^ 64)
