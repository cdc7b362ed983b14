-- ===== src/Endpoint/Steps.antt =====
-- ndn/endpoint/consumer.go: a round of the loop of Consume.
use containernet_ndn_dpdk.Shared.{
  ℕ, suc, ◌≤◌, ◌<◌, ◌≡◌, refl, sym, ◌∙◌, ◌≢◌, ◌⊎◌, inl, inr, true, false, Option, none, some, List,
  [], ◌∷◌, arith, leb, Bool-cases, Option-cases, Result,
}
use containernet_ndn_dpdk.Shared.Int.{ℤ, pos, negsuc, pos_part, leb_ℤ}
use containernet_ndn_dpdk.Interest.{Interest}
use containernet_ndn_dpdk.Data.{Data}
use containernet_ndn_dpdk.Data.Checks.{can_satisfy}
use containernet_ndn_dpdk.Packet.{Packet}
use containernet_ndn_dpdk.Endpoint.Consumer.{
  timed_out, parent_expired, cancelled, Attempt, refused, taken, Once, found, stopped, Consumed,
  failed, expire, deadline_exceeded, context_canceled, Consumer, satisfying, first_data, once,
  takes, tried, checked, consume_loop,
}

leb_limit : (limit : ℤ) (count : ℕ) → leb_ℤ limit (pos count) ≡ leb (pos_part limit) count
leb_limit (pos l) count = ground arith
leb_limit (negsuc l) count = ground arith

pub Once-cases :
    (o : Once)
    → ((d : Data) × (o ≡ found d))
      ⊎ (o ≡ stopped timed_out)
      ⊎ (o ≡ stopped parent_expired)
      ⊎ (o ≡ stopped cancelled)
Once-cases (found d) = inl (d, refl)
Once-cases (stopped timed_out) = inr (inl refl)
Once-cases (stopped parent_expired) = inr (inr (inl refl))
Once-cases (stopped cancelled) = inr (inr (inr refl))

module _ (sha256 : List ℕ → List ℕ) (interest : Interest) where
  satisfying_lem :
      (x : Option Data) (d : Data)
      → satisfying sha256 interest x ≡ some d
      → can_satisfy sha256 d interest ≡ true
  satisfying_lem none d e = cc
  satisfying_lem (some x) d e = elim (Bool-cases (can_satisfy sha256 x interest)) [
    | inl fits ↦
        let e' : some x ≡ some d = rw fits at e in let same : x ≡ d = cc in rw (sym same) fits
    | inr other ↦ let e' : none ≡ some d = rw other at e in cc
  ]

  -- The Data that is found satisfies the Interest.
  first_data_lem :
      (pkts : List Packet) (d : Data)
      → first_data sha256 interest pkts ≡ some d
      → can_satisfy sha256 d interest ≡ true
  unfolding first_data
  first_data_lem [] d e = cc
  first_data_lem (pkt ∷ pkts) d e = elim (Option-cases (satisfying sha256 interest pkt.data_in)) [
    | inl nothing ↦ first_data_lem pkts d (rw (nothing, first_data) at e)
    | inr (x, there) ↦
        let e' : some x ≡ some d = rw (there, first_data) at e in
        satisfying_lem pkt.data_in d (there ∙ e')
  ]

  pub once_lem :
      (a : Attempt) (d : Data)
      → once sha256 interest a ≡ found d
      → can_satisfy sha256 d interest ≡ true
  unfolding once
  once_lem (refused x) d e = cc
  once_lem (taken pkts x) d e = elim (Option-cases (first_data sha256 interest pkts)) [
    | inl nothing ↦ let e' : stopped x ≡ found d = rw (nothing, once) at e in cc
    | inr (y, there) ↦
        let e' : found y ≡ found d = rw (there, once) at e in
        let same : some y ≡ some d = cc in first_data_lem pkts d (there ∙ same)
  ]

  module _ (limit : ℤ) (interval : ℕ → ℕ) (verify : Data → Result (Unit {0}))
      (env : ℕ → Attempt) where
    abbrev pub run : ℕ → Consumer → Option (Consumed × ℕ)
    run fuel c = consume_loop sha256 interest limit interval verify env fuel c

    abbrev pub next : Consumer → Consumer
    next c = tried sha256 interest limit interval verify env c

    abbrev pub try : Consumer → Once
    try c = once sha256 interest (env c.tries)

    module _ (fuel : ℕ) (c : Consumer) where
      pub run_found :
          (d : Data)
          → try c ≡ found d
          → run (suc fuel) c
            ≡ some (checked sha256 interest limit interval verify env d (verify d), (next c).sent)
      unfolding consume_loop
      run_found d e = rw (e, consume_loop) refl

      pub run_last :
          try c ≡ stopped timed_out
          → (next c).retx_end ≡ true
          → run (suc fuel) c ≡ some (failed expire, (next c).sent)
      unfolding consume_loop
      run_last e last = rw (e, last, consume_loop) refl

      pub run_next :
          try c ≡ stopped timed_out
          → (next c).retx_end ≡ false
          → run (suc fuel) c ≡ run fuel (next c)
      unfolding consume_loop
      run_next e more = rw (e, more, consume_loop) refl

      pub run_parent :
          try c ≡ stopped parent_expired
          → run (suc fuel) c ≡ some (failed deadline_exceeded, (next c).sent)
      unfolding consume_loop
      run_parent e = rw (e, consume_loop) refl

      pub run_cancelled :
          try c ≡ stopped cancelled
          → run (suc fuel) c ≡ some (failed context_canceled, (next c).sent)
      unfolding consume_loop
      run_cancelled e = rw (e, consume_loop) refl

    -- Where a try is not the last one, the count goes up, below the limit.
    pub next-count :
        (c : Consumer)
        → (next c).retx_end ≡ false
        → (c.count < pos_part limit) × ((next c).count ≡ suc c.count)
    next-count c more = elim (Bool-cases (leb (pos_part limit) c.count)) [
      | inl ended ↦ let more' = rw (leb_limit limit c.count, ended) at more in cc
      | inr below ↦ (ground (arith, below), rw (leb_limit limit c.count, below) refl)
    ]

    pub takes-le : (a : Attempt) → takes sha256 interest limit interval verify env a ≤ 1
    takes-le (refused e) = omega arith
    takes-le (taken pkts e) = omega arith

    pub next-goes :
        (c : Consumer)
        → c.count < pos_part limit
        → interval c.count ≢ 0
        → ((next c).retx_end ≡ false) × ((next c).count ≡ suc c.count)
    next-goes c below some_time =
        let open_limit : leb (pos_part limit) c.count ≡ false = ground (arith, below) in
        (
          rw (leb_limit limit c.count, open_limit) (ground (arith, some_time)),
          rw (leb_limit limit c.count, open_limit) refl,
        )
