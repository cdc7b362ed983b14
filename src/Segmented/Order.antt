-- ===== src/Segmented/Order.antt =====
-- ndn/segmented/fetch.go: the order in which Ordered sends segments on.
use containernet_ndn_dpdk.Shared.{
  ℕ, zero, suc, ◌≤◌, ◌<◌, ◌≡◌, refl, sym, ap, ◌∙◌, subst, inl, inr, none, some, List, [], ◌∷◌, ◌++◌,
  arith, ltb, ◌==◌, ==_iff, Bool-cases, Option-cases, length,
}
use containernet_ndn_dpdk.Shared.Assoc.{
  lookup, insert, delete, lookup-insert, lookup-delete, nat_eq,
}
use containernet_ndn_dpdk.Segmented.{
  Data, Reorder, incr, extract_segment, flush, receive, receive_all, ordered,
}

-- A segment taken out makes the buffer smaller.
length-delete_le : (k : ℕ) (m : List (ℕ × Data)) → length (delete k m) ≤ length m
unfolding delete
length-delete_le k [] = omega arith
length-delete_le k ((j, w) ∷ m) = ground (arith, length-delete_le k m)

length-delete_lt :
    (k : ℕ) (m : List (ℕ × Data)) (d : Data) → lookup k m ≡ some d → length (delete k m) < length m
unfolding lookup delete
length-delete_lt k [] d h = cc
length-delete_lt k ((j, w) ∷ m) d h = elim (Bool-cases (j == k)) [
  | inl same ↦ rw same (omega (arith, length-delete_le k m))
  | inr other ↦ rw other (omega (arith, length-delete_lt k m d (rw other at h)))
]

-- The number behind the segments that were sent.
abbrev pub after : ℕ → List Data → ℕ
after next [] = next
after next (d ∷ ds) = after (incr next) ds

pub after-append : (next : ℕ) (xs ys : List Data) → after next (xs ++ ys) ≡ after (after next xs) ys
after-append next [] ys = refl
after-append next (x ∷ xs) ys = after-append (incr next) xs ys

module _ (prefix_len : ℕ) where
  -- Consecutive segments from `next` on.
  abbrev pub InOrder : ℕ → List Data → Type 0
  InOrder next [] = Unit {0}
  InOrder next (d ∷ ds) = (extract_segment d.name prefix_len ≡ some next) × InOrder (incr next) ds

  pub InOrder-append :
      (next : ℕ) (xs ys : List Data)
      → InOrder next xs
      → InOrder (after next xs) ys
      → InOrder next (xs ++ ys)
  InOrder-append next [] ys h k = k
  InOrder-append next (x ∷ xs) ys (hx, hxs) k = (hx, InOrder-append (incr next) xs ys hxs k)

  -- Each segment is in the buffer under its number.
  abbrev pub IsKeyed : List (ℕ × Data) → Type 0
  IsKeyed buffer =
      (k : ℕ) (d : Data) → lookup k buffer ≡ some d → extract_segment d.name prefix_len ≡ some k

  delete-IsKeyed : (k : ℕ) (buffer : List (ℕ × Data)) → IsKeyed buffer → IsKeyed (delete k buffer)
  delete-IsKeyed k buffer h j d e = ground (arith, h j d, lookup-delete k j buffer)

  insert-IsKeyed :
      (k : ℕ) (d : Data) (buffer : List (ℕ × Data))
      → extract_segment d.name prefix_len ≡ some k
      → IsKeyed buffer
      → IsKeyed (insert k d buffer)
  insert-IsKeyed k d buffer p h j c e = ground (arith, h j c, lookup-insert k j d buffer)

  -- What a step from `next` does: it sends the segments that follow, and none that it could send stays.
  pub record IsStep (next : ℕ) (r : Reorder × List Data) : Type 0 where
    pub in_order : InOrder next r.1
    pub reached : r.0.next ≡ after next r.1
    pub keyed : IsKeyed r.0.buffer
    pub settled : lookup r.0.next r.0.buffer ≡ none

  pub flush-IsStep :
      (fuel next : ℕ) (buffer : List (ℕ × Data))
      → length buffer ≤ fuel
      → IsKeyed buffer
      → IsStep next (flush fuel next buffer)
  unfolding flush
  flush-IsStep zero next [] h keyed = record {
    in_order = tt;
    reached = refl;
    keyed = keyed;
    settled = unfold lookup in refl;
  }
  flush-IsStep zero next (x ∷ buffer) h keyed = absurd (omega arith)
  flush-IsStep (suc fuel) next buffer h keyed = elim (Option-cases (lookup next buffer)) [
    | inl gone ↦
        rw (flush, gone) (record { in_order = tt; reached = refl; keyed = keyed; settled = gone })
    | inr (d, e) ↦
        let ih : IsStep (incr next) (flush fuel (incr next) (delete next buffer)) =
          flush-IsStep fuel (incr next) (delete next buffer)
            (omega (arith, length-delete_lt next buffer d e)) (delete-IsKeyed next buffer keyed) in
        rw (flush, e)
          (record {
            in_order = (keyed next d e, ih.in_order);
            reached = ih.reached;
            keyed = ih.keyed;
            settled = ih.settled;
          })
  ]

  -- The state between two arrivals.
  pub record IsSettled (st : Reorder) : Type 0 where
    pub keyed : IsKeyed st.buffer
    pub settled : lookup st.next st.buffer ≡ none

  stays : (st : Reorder) (r : Reorder × List Data) → IsSettled st → r ≡ (st, []) → IsStep st.next r
  stays st r h e =
      subst (IsStep st.next) (sym e)
        (record { in_order = tt; reached = refl; keyed = h.keyed; settled = h.settled })

  pub receive-IsStep :
      (st : Reorder) (d : Data) → IsSettled st → IsStep st.next (receive prefix_len st d)
  unfolding receive
  receive-IsStep st d h = elim (Option-cases (extract_segment d.name prefix_len)) [
    | inl no_segment ↦ stays st _ h (rw (receive, no_segment))
    | inr (seg, e) ↦ elim (Bool-cases (ltb seg st.next)) [
      | inl old ↦ stays st _ h (rw (receive, e, old))
      | inr new ↦ elim (Bool-cases (seg == st.next)) [
        | inl now ↦
            let f : IsStep (incr st.next) (flush (length st.buffer) (incr st.next) st.buffer) =
              flush-IsStep (length st.buffer) (incr st.next) st.buffer (omega arith) h.keyed in
            rw (receive, e, new, now)
              (record {
                in_order = (e ∙ ap some ((==_iff seg st.next).0 now), f.in_order);
                reached = f.reached;
                keyed = f.keyed;
                settled = f.settled;
              })
        | inr later ↦
            rw (receive, e, new, later)
              (record {
                in_order = tt;
                reached = refl;
                keyed = insert-IsKeyed seg d st.buffer e h.keyed;
                settled = ground (arith, later, h.settled, lookup-insert seg st.next d st.buffer);
              })
      ]
    ]
  ]

  step-IsSettled : (next : ℕ) (r : Reorder × List Data) → IsStep next r → IsSettled r.0
  step-IsSettled next r h = record { keyed = h.keyed; settled = h.settled }

  pub receive_all-IsStep :
      (arrivals : List Data) (st : Reorder)
      → IsSettled st
      → IsStep st.next (receive_all prefix_len st arrivals)
  unfolding receive_all
  receive_all-IsStep [] st h = stays st (st, []) h refl
  receive_all-IsStep (d ∷ arrivals) st h =
      let one_step = receive-IsStep st d h in
      let r = receive prefix_len st d in
      let rest = receive_all-IsStep arrivals r.0 (step-IsSettled st.next r one_step) in
      let out' = (receive_all prefix_len r.0 arrivals).1 in
      record {
        in_order =
            InOrder-append st.next r.1 out' one_step.in_order
              (subst (λ n. InOrder n out') one_step.reached rest.in_order);
        reached =
            rest.reached
            ∙ ap (λ n. after n out') one_step.reached
            ∙ sym (after-append st.next r.1 out');
        keyed = rest.keyed;
        settled = rest.settled;
      }

  pub empty-IsSettled : (next : ℕ) → IsSettled (record { next = next; buffer = [] })
  unfolding lookup
  empty-IsSettled next = record { keyed = λ k d e. cc; settled = refl }

  -- Whatever arrives, in whatever order, Ordered sends consecutive segments from SegmentBegin on, the
  -- numbers taken modulo 2 ^ 64.
  pub ordered-InOrder :
      (segment_begin : ℕ) (arrivals : List Data)
      → InOrder segment_begin (ordered prefix_len segment_begin arrivals).0
  unfolding ordered
  ordered-InOrder segment_begin arrivals =
      let h =
        receive_all-IsStep arrivals (record { next = segment_begin; buffer = [] })
          (empty-IsSettled segment_begin) in
      h.in_order
