-- ===== src/Segmented/Complete.antt =====
-- ndn/segmented/fetch.go: no segment that arrives is lost by Ordered.
use containernet_ndn_dpdk.Shared.{
  ℕ, zero, suc, ◌+◌, ◌-◌, ◌^◌, ◌≤◌, ◌<◌, ◌≡◌, ◌⊎◌, inl, inr, some, List, [], ◌∷◌, arith, ltb, ◌==◌,
  Bool-cases, Option-cases, lt_or_le, length, All,
}
use containernet_ndn_dpdk.Shared.Assoc.{
  lookup, insert, delete, lookup-insert, lookup-delete, nat_eq,
}
use containernet_ndn_dpdk.Segmented.{
  Data, Reorder, incr, extract_segment, flush, receive, receive_all, ordered,
}
use containernet_ndn_dpdk.Segmented.Order.{after, receive_all-IsStep, empty-IsSettled}

after_le : (next : ℕ) (xs : List Data) → after next xs ≤ next + length xs
after_le next [] = omega arith
after_le next (x ∷ xs) = omega (arith, after_le (incr next) xs)

-- No number in the buffer is the last one of a uint64, behind which `next` starts again at 0.
abbrev pub IsSmall : List (ℕ × Data) → Type 0
IsSmall buffer = (k : ℕ) (d : Data) → lookup k buffer ≡ some d → k < 2 ^ 64 - 1

-- The segment was sent, or is in the buffer.
abbrev pub Has : Reorder → ℕ → Type 0
Has st k = (k < st.next) ⊎ (d : Data) × (lookup k st.buffer ≡ some d)

pub record IsGrown (st : Reorder) (r : Reorder × List Data) : Type 0 where
  pub up : st.next ≤ r.0.next
  pub kept : (k : ℕ) → Has st k → Has r.0 k
  pub small : IsSmall r.0.buffer
  pub bounded : r.0.next < 2 ^ 64

same-IsGrown : (st : Reorder) → IsSmall st.buffer → st.next < 2 ^ 64 → IsGrown st (st, [])
same-IsGrown st h b = record { up = omega arith; kept = λ k has. has; small = h; bounded = b }

delete-IsSmall : (k : ℕ) (buffer : List (ℕ × Data)) → IsSmall buffer → IsSmall (delete k buffer)
delete-IsSmall k buffer h j d e = ground (arith, h j d, lookup-delete k j buffer)

-- A segment taken out of the buffer counts as sent.
taken_out :
    (next : ℕ) (buffer : List (ℕ × Data)) (k : ℕ)
    → next < 2 ^ 64 - 1
    → Has (record { next = next; buffer = buffer }) k
    → Has (record { next = incr next; buffer = delete next buffer }) k
taken_out next buffer k b (inl old) = inl (omega arith)
taken_out next buffer k b (inr (d, e)) = elim (Bool-cases (next == k)) [
  | inl now ↦ inl (ground (arith, now))
  | inr later ↦ inr (d, rw (lookup-delete next k buffer, later) e)
]

flush-IsGrown :
    (fuel next : ℕ) (buffer : List (ℕ × Data))
    → IsSmall buffer
    → next < 2 ^ 64
    → IsGrown (record { next = next; buffer = buffer }) (flush fuel next buffer)
unfolding flush
flush-IsGrown zero next buffer h b = same-IsGrown (record { next = next; buffer = buffer }) h b
flush-IsGrown (suc fuel) next buffer h b = elim (Option-cases (lookup next buffer)) [
  | inl gone ↦ rw (flush, gone) (same-IsGrown (record { next = next; buffer = buffer }) h b)
  | inr (d, e) ↦
      let ih =
        flush-IsGrown fuel (incr next) (delete next buffer) (delete-IsSmall next buffer h)
          (omega arith) in
      rw (flush, e)
        (record {
          up = omega (arith, ih.up, h next d e);
          kept = λ k has. ih.kept k (taken_out next buffer k (h next d e) has);
          small = ih.small;
          bounded = ih.bounded;
        })
]

module _ (prefix_len : ℕ) where
  -- The packet carries no segment number, or not the last one of a uint64.
  abbrev pub IsSmallSegment : Data → Type 0
  IsSmallSegment d = (seg : ℕ) → extract_segment d.name prefix_len ≡ some seg → seg < 2 ^ 64 - 1

  -- A step on one packet, which then counts as sent or in the buffer.
  abbrev IsTaken : Reorder → Data → Reorder × List Data → Type 0
  IsTaken st d r =
      IsGrown st r × ((seg : ℕ) → extract_segment d.name prefix_len ≡ some seg → Has r.0 seg)

  receive-IsTaken :
      (st : Reorder) (d : Data)
      → IsSmall st.buffer
      → st.next < 2 ^ 64
      → IsSmallSegment d
      → IsTaken st d (receive prefix_len st d)
  unfolding receive
  receive-IsTaken st d h b s = elim (Option-cases (extract_segment d.name prefix_len)) [
    | inl no_segment ↦ rw (receive, no_segment) (same-IsGrown st h b, λ seg e. cc)
    | inr (seg, e) ↦ elim (Bool-cases (ltb seg st.next)) [
      | inl old ↦ rw (receive, e, old) (same-IsGrown st h b, λ k q. inl (ground (arith, old, q)))
      | inr new ↦ elim (Bool-cases (seg == st.next)) [
        | inl now ↦
            let small : st.next < 2 ^ 64 - 1 = ground (arith, s seg e, now) in
            let f = flush-IsGrown (length st.buffer) (incr st.next) st.buffer h (omega arith) in
            rw (receive, e, new, now)
              (
                record {
                  up = omega (arith, f.up);
                  kept = λ k has. f.kept k (next_up st k small has);
                  small = f.small;
                  bounded = f.bounded;
                },
                λ k q. inl (ground (arith, f.up, q, now)),
              )
        | inr later ↦
            rw (receive, e, new, later)
              (
                record {
                  up = omega arith;
                  kept = λ k has. inserted st k seg d has;
                  small = λ k c q. ground (arith, h k c, s seg e, lookup-insert seg k d st.buffer);
                  bounded = b;
                },
                λ k q. inr (d, ground (arith, q, lookup-insert seg k d st.buffer)),
              )
      ]
    ]
  ]
    where
      next_up :
          (st : Reorder) (k : ℕ)
          → st.next < 2 ^ 64 - 1
          → Has st k
          → Has (record st { next = incr st.next }) k
      next_up st k small (inl old) = inl (omega arith)
      next_up st k small (inr held) = inr held

      inserted :
          (st : Reorder) (k seg : ℕ) (d : Data)
          → Has st k
          → Has (record st { buffer = insert seg d st.buffer }) k
      inserted st k seg d (inl old) = inl old
      inserted st k seg d (inr (c, e)) = elim (Bool-cases (seg == k)) [
        | inl now ↦ inr (d, rw (lookup-insert seg k d st.buffer, now))
        | inr other ↦ inr (c, rw (lookup-insert seg k d st.buffer, other) e)
      ]

  -- A packet with this segment number is among those that arrive.
  abbrev pub Arrived : ℕ → List Data → Type 0
  Arrived seg [] = ⊥
  Arrived seg (d ∷ ds) = (extract_segment d.name prefix_len ≡ some seg) ⊎ Arrived seg ds

  receive_all-IsGrown :
      (arrivals : List Data) (st : Reorder)
      → IsSmall st.buffer
      → st.next < 2 ^ 64
      → All IsSmallSegment arrivals
      → IsGrown st (receive_all prefix_len st arrivals)
        × ((seg : ℕ) → Arrived seg arrivals → Has (receive_all prefix_len st arrivals).0 seg)
  unfolding receive_all
  receive_all-IsGrown [] st h b s = (same-IsGrown st h b, λ seg a. absurd a)
  receive_all-IsGrown (d ∷ arrivals) st h b (s, ss) =
      let (g, has) = receive-IsTaken st d h b s in
      let (g', has') =
        receive_all-IsGrown arrivals (receive prefix_len st d).0 g.small g.bounded ss in
      (
        record {
          up = omega (arith, g.up, g'.up);
          kept = λ k held. g'.kept k (g.kept k held);
          small = g'.small;
          bounded = g'.bounded;
        },
        λ seg a. elim a [ inl first ↦ g'.kept seg (has seg first) | inr later ↦ has' seg later ],
      )

  -- Every segment number from `first` on and below `last` arrives.
  abbrev pub AllArrive : ℕ → ℕ → List Data → Type 0
  AllArrive first last arrivals = (seg : ℕ) → first ≤ seg → seg < last → Arrived seg arrivals

  -- If all segments from SegmentBegin up to `last` arrive, in any order and however often, and none has
  -- the number 2 ^ 64 - 1, then Ordered sends at least `last` - SegmentBegin segments on.
  pub ordered_complete :
      (segment_begin last : ℕ) (arrivals : List Data)
      → segment_begin < 2 ^ 64
      → All IsSmallSegment arrivals
      → AllArrive segment_begin last arrivals
      → last ≤ segment_begin + length (ordered prefix_len segment_begin arrivals).0
  unfolding ordered
  ordered_complete segment_begin last arrivals b s all =
      let st0 : Reorder = record { next = segment_begin; buffer = [] } in
      let r = receive_all prefix_len st0 arrivals in
      let (g, has) = receive_all-IsGrown arrivals st0 (unfold lookup in λ k d e. cc) b s in
      let h =
        receive_all-IsStep prefix_len arrivals st0 (empty-IsSettled prefix_len segment_begin) in
      elim (lt_or_le r.0.next last) [
        | inl short ↦ absurd (elim (has r.0.next (all r.0.next g.up short)) [
          | inl old ↦ omega arith
          | inr (d, e) ↦ cc (h.settled)
        ])
        | inr reached ↦ omega (arith, after_le segment_begin r.1, h.reached)
      ]
