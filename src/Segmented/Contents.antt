-- ===== src/Segmented/Contents.antt =====
-- ndn/segmented/serve.go: the contents of the segments of an object.
use containernet_ndn_dpdk.Segmented.Slices.{
  take_all, take-suc, take_add, take_zero, zero_times, suc_times,
}
use containernet_ndn_dpdk.Shared.{
  ℕ, zero, suc, ◌+◌, ◌-◌, ◌*◌, ◌%◌, ◌^◌, ◌≤◌, ◌<◌, min, ◌≡◌, refl, sym, ap, ◌∙◌, inl, inr, true,
  false, List, [], ◌∷◌, ◌++◌, arith, ◌==◌, Bool-cases, length, take, drop, length-take, length-drop,
}
use containernet_ndn_dpdk.Shared.Int.{pos}
use containernet_ndn_dpdk.Name.{Name}
use containernet_ndn_dpdk.Name.Component.{NameComponent}
use containernet_ndn_dpdk.Interest.{Interest, no_interest}
use containernet_ndn_dpdk.Data.{Data, no_data}
use containernet_ndn_dpdk.Endpoint.Producer.{Handled, made, other_error, reply_nack}
use containernet_ndn_dpdk.Segmented.{make_segment_name_component, segment_name}
use containernet_ndn_dpdk.Segmented.Segments.{extract_segment-segment_name, get-segment_name}
use containernet_ndn_dpdk.Segmented.Serve.{
  ReadError, eof, Source, ServeOptions, final_block_of, serve_payload, offset_of, serve_handler,
}

-- What ReadAt of a source with these bytes is documented to do, at an offset that is not below 0.
pub record HoldsObject (obj : List ℕ) (source : Source) : Type 0 where
  pub reads : (n o : ℕ) → (source.read_at n (pos o)).0 ≡ take n (drop o obj)
  pub ends : (n o : ℕ) → length obj ≤ o → (source.read_at n (pos o)).1 ≡ eof

-- The content that the handler serves.
abbrev pub content_of : Handled → List ℕ
content_of (made d) = d.content
content_of (reply_nack reason) = []
content_of other_error = []

abbrev pub interest_for : Name → ℕ → Interest
interest_for prefix seg = record no_interest { name = segment_name prefix seg }

empty_of : (xs : List ℕ) → length xs == 0 ≡ true → xs ≡ []
empty_of [] h = refl
empty_of (x ∷ xs) h = absurd (ground (arith, h))

module _ (opts : ServeOptions) (source : Source) (prefix : Name) where
  abbrev pub serve : ℕ → Handled
  serve seg = serve_handler opts source (length prefix) (interest_for prefix seg)

  abbrev data_for : ℕ → Data
  data_for seg = record no_data {
    name = segment_name prefix seg;
    content_type = opts.content_type;
    freshness = opts.freshness;
    final_block = final_block_of source.size opts.chunk_size;
  }

  pub serve_lem :
      (seg : ℕ)
      → seg < 2 ^ 64
      → serve seg
        ≡ serve_payload opts.chunk_size
            (data_for seg)
            seg
            (make_segment_name_component seg)
            (source.read_at (suc opts.chunk_size) (offset_of seg opts.chunk_size))
  unfolding serve_handler
  serve_lem seg small =
      rw (extract_segment-segment_name prefix seg small, get-segment_name prefix seg, serve_handler)
        refl

  module _ (obj : List ℕ) (holds : HoldsObject obj source) (some_chunk : 0 < opts.chunk_size) where
    payload_content :
        (seg : ℕ) (own : NameComponent) (r : List ℕ × ReadError)
        → length r.0 ≤ suc opts.chunk_size
        → (length r.0 ≡ 0 → r.1 ≡ eof)
        → content_of (serve_payload opts.chunk_size (data_for seg) seg own r)
          ≡ take opts.chunk_size r.0
    unfolding serve_payload
    payload_content seg own r short ended = elim (Bool-cases (length r.0 == 0)) [
      | inl is_nil ↦
          let is_end : r.1 ≡ eof = ended (ground (arith, is_nil)) in
          let nothing : take opts.chunk_size r.0 ≡ [] =
            rw (empty_of r.0 is_nil) (take_all opts.chunk_size [] (omega arith)) in
          elim (Bool-cases (seg == 0)) [
            | inl first ↦ rw (is_nil, first, is_end, nothing) refl
            | inr later ↦ rw (is_nil, later, nothing) refl
          ]
      | inr some_bytes ↦ elim (Bool-cases (length r.0 == suc opts.chunk_size)) [
        | inl whole ↦ rw (some_bytes, whole) refl
        | inr less ↦
            rw (some_bytes, less) (sym (take_all opts.chunk_size r.0 (ground (arith, less, short))))
      ]
    ]

    abbrev payload_at : ℕ → List ℕ × ReadError
    payload_at o = source.read_at (suc opts.chunk_size) (pos o)

    length-payload_at :
        (o : ℕ) → length (payload_at o).0 ≡ min (suc opts.chunk_size) (length obj - o)
    length-payload_at o =
        ap length (holds.reads (suc opts.chunk_size) o)
        ∙ omega (arith, length-take (suc opts.chunk_size) (drop o obj), length-drop o obj)

    serve_content :
        (seg o : ℕ)
        → seg < 2 ^ 64
        → offset_of seg opts.chunk_size ≡ pos o
        → content_of (serve seg) ≡ take opts.chunk_size (drop o obj)
    serve_content seg o small at =
        rw (serve_lem seg small, at)
          (payload_content seg (make_segment_name_component seg) (payload_at o)
              (omega (arith, length-payload_at o))
              (λ none_read.
                holds.ends (suc opts.chunk_size) o (omega (arith, none_read, length-payload_at o)))
            ∙ ap (λ t. take opts.chunk_size t) (holds.reads (suc opts.chunk_size) o)
            ∙ take-suc opts.chunk_size (drop o obj))

    offset_below :
        (seg : ℕ)
        → seg * opts.chunk_size < 2 ^ 63
        → offset_of seg opts.chunk_size ≡ pos (seg * opts.chunk_size)
    offset_below seg below = ground (arith, below)

    -- The contents of the segments below n, one after the other.
    abbrev pub contents : ℕ → List ℕ
    contents zero = []
    contents (suc n) = contents n ++ content_of (serve n)

    contents_lem :
        (n : ℕ)
        → n ≤ 2 ^ 64
        → n * opts.chunk_size < 2 ^ 63
        → contents n ≡ take (n * opts.chunk_size) obj
    contents_lem zero small below = sym (rw (zero_times opts.chunk_size) (take_zero obj))
    contents_lem (suc n) small below =
        let step : suc n * opts.chunk_size ≡ n * opts.chunk_size + opts.chunk_size =
          suc_times n opts.chunk_size in
        rw
          (
            contents_lem n (omega (arith, small)) (omega (arith, below, step)),
            serve_content n (n * opts.chunk_size) (omega (arith, small))
                (offset_below n (omega (arith, below, step))),
            step,
          )
          (take_add (n * opts.chunk_size) opts.chunk_size (n * opts.chunk_size + opts.chunk_size)
            obj refl)

    -- The contents of the segments that the handler serves, in the order of their numbers up to one that
    -- reaches the end of the object, are the object.
    pub contents_whole :
        (n : ℕ)
        → n ≤ 2 ^ 64
        → n * opts.chunk_size < 2 ^ 63
        → length obj ≤ n * opts.chunk_size
        → contents n ≡ obj
    contents_whole n small below long =
        contents_lem n small below ∙ take_all (n * opts.chunk_size) obj long

    outside_lem :
        (seg : ℕ) (own : NameComponent) (r : List ℕ × ReadError)
        → length r.0 ≡ 0
        → 0 < seg
        → serve_payload opts.chunk_size (data_for seg) seg own r ≡ other_error
    unfolding serve_payload
    outside_lem seg own r nothing later =
        let is_nil : length r.0 == 0 ≡ true = ground (arith, nothing) in
        let not_first : seg == 0 ≡ false = ground (arith, later) in rw (is_nil, not_first) refl

    inside_lem :
        (seg : ℕ) (own : NameComponent) (r : List ℕ × ReadError)
        → seg * opts.chunk_size < length obj
        → length r.0 ≡ min (suc opts.chunk_size) (length obj - seg * opts.chunk_size)
        → (d : Data) × (serve_payload opts.chunk_size (data_for seg) seg own r ≡ made d)
          × (d.name ≡ segment_name prefix seg)
          × (length obj ≤ seg * opts.chunk_size + opts.chunk_size → d.final_block ≡ own)
          × (seg * opts.chunk_size + opts.chunk_size < length obj
              → d.final_block ≡ final_block_of source.size opts.chunk_size)
    unfolding serve_payload
    inside_lem seg own r inside n =
        let some_bytes : length r.0 == 0 ≡ false = ground (arith, inside, n) in
        elim (Bool-cases (length r.0 == suc opts.chunk_size)) [
          | inl whole ↦ (
            record (data_for seg) { content = take opts.chunk_size r.0 },
            rw (some_bytes, whole) refl,
            refl,
            λ last. absurd (ground (arith, whole, n, inside, last)),
            λ more. refl,
          )
          | inr less ↦ (
            record (data_for seg) { content = r.0; final_block = own },
            rw (some_bytes, less) refl,
            refl,
            λ last. refl,
            λ more. absurd (ground (arith, less, n, inside, more)),
          )
        ]

    -- A segment that begins in the object is served, with its name; its FinalBlock is its own number if it
    -- reaches the end, and otherwise the one that Serve has computed of the size of the source.
    pub serve_inside :
        (seg : ℕ)
        → seg < 2 ^ 64
        → seg * opts.chunk_size < 2 ^ 63
        → seg * opts.chunk_size < length obj
        → (d : Data) × (serve seg ≡ made d)
          × (d.name ≡ segment_name prefix seg)
          × (length obj ≤ seg * opts.chunk_size + opts.chunk_size
              → d.final_block ≡ make_segment_name_component seg)
          × (seg * opts.chunk_size + opts.chunk_size < length obj
              → d.final_block ≡ final_block_of source.size opts.chunk_size)
    serve_inside seg small below inside =
        let n = length-payload_at (seg * opts.chunk_size) in
        rw (serve_lem seg small, offset_below seg below)
          (inside_lem seg (make_segment_name_component seg) (payload_at (seg * opts.chunk_size))
            inside n)

    -- Behind the object there is no segment.
    pub serve_outside :
        (seg : ℕ)
        → 0 < seg
        → seg < 2 ^ 64
        → seg * opts.chunk_size < 2 ^ 63
        → length obj ≤ seg * opts.chunk_size
        → serve seg ≡ other_error
    serve_outside seg later small below outside =
        let n = length-payload_at (seg * opts.chunk_size) in
        rw (serve_lem seg small, offset_below seg below)
          (outside_lem seg (make_segment_name_component seg) (payload_at (seg * opts.chunk_size))
            (omega (arith, n, outside)) later)

    -- A segment number whose product with the chunk size is, modulo 2 ^ 64, the offset of another segment, below 2 ^ 63, is
    -- served with the content of that segment.
    pub serve_wraps :
        (seg other : ℕ)
        → seg < 2 ^ 64
        → other < 2 ^ 64
        → seg * opts.chunk_size < 2 ^ 63
        → (other * opts.chunk_size) % 2 ^ 64 ≡ seg * opts.chunk_size
        → content_of (serve other) ≡ content_of (serve seg)
    serve_wraps seg other small small' below wraps =
        serve_content other (seg * opts.chunk_size) small' (ground (arith, below, wraps))
        ∙ sym (serve_content seg (seg * opts.chunk_size) small (offset_below seg below))
