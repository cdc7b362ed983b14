-- ===== src/Endpoint/Retx.antt =====
-- ndn/endpoint/consumer.go: when Consume returns, and what.
use containernet_ndn_dpdk.Shared.{
  ℕ, zero, suc, ◌+◌, ◌-◌, ◌≤◌, ◌<◌, ◌≡◌, refl, sym, ap, ◌∙◌, subst, ◌≢◌, inl, inr, true, Option,
  some, List, arith, Bool-cases, Result-cases, Result, ok,
}
use containernet_ndn_dpdk.Shared.Int.{ℤ, pos_part}
use containernet_ndn_dpdk.Interest.{Interest}
use containernet_ndn_dpdk.Data.{Data}
use containernet_ndn_dpdk.Data.Checks.{can_satisfy}
use containernet_ndn_dpdk.Endpoint.Consumer.{
  timed_out, Attempt, Once, found, stopped, Consumed, consumed, Consumer, once, tried, checked,
  consume_loop, consume, new_consumer,
}
use containernet_ndn_dpdk.Endpoint.Steps.{
  Once-cases, once_lem, run_found, run_last, run_next, run_parent, run_cancelled, next-count,
  takes-le, next-goes,
}

module _ (sha256 : List ℕ → List ℕ) (interest : Interest) where
  module _ (limit : ℤ) (interval : ℕ → ℕ) (verify : Data → Result (Unit {0}))
      (env : ℕ → Attempt) where
    abbrev run : ℕ → Consumer → Option (Consumed × ℕ)
    run fuel c = consume_loop sha256 interest limit interval verify env fuel c

    abbrev next : Consumer → Consumer
    next c = tried sha256 interest limit interval verify env c

    abbrev try : Consumer → Once
    try c = once sha256 interest (env c.tries)

    abbrev Ends : ℕ → Consumer → Type 0
    Ends fuel c =
        (o : Consumed) × (n : ℕ) × (run fuel c ≡ some (o, n))
        × (n ≤ c.sent + suc (pos_part limit - c.count))

    run-Ends : (fuel : ℕ) (c : Consumer) → pos_part limit - c.count < fuel → Ends fuel c
    run-Ends zero c enough = absurd (omega (arith, enough))
    run-Ends (suc fuel) c enough =
        let one = takes-le sha256 interest limit interval verify env (env c.tries) in
        elim (Once-cases (try c)) [
          | inl (d, e) ↦ (
            _,
            _,
            run_found sha256 interest limit interval verify env fuel c d e,
            omega (arith, one),
          )
          | inr (inl e) ↦ elim (Bool-cases (next c).retx_end) [
            | inl last ↦ (
              _,
              _,
              run_last sha256 interest limit interval verify env fuel c e last,
              omega (arith, one),
            )
            | inr more ↦
                let (below, grown) = next-count sha256 interest limit interval verify env c more in
                let (o, n, ran, bound) =
                  run-Ends fuel (next c) (omega (arith, below, grown, enough)) in
                (
                  o,
                  n,
                  run_next sha256 interest limit interval verify env fuel c e more ∙ ran,
                  omega (arith, bound, one, below, grown),
                )
          ]
          | inr (inr (inl e)) ↦ (
            _,
            _,
            run_parent sha256 interest limit interval verify env fuel c e,
            omega (arith, one),
          )
          | inr (inr (inr e)) ↦ (
            _,
            _,
            run_cancelled sha256 interest limit interval verify env fuel c e,
            omega (arith, one),
          )
        ]

    run_sound :
        (fuel : ℕ) (c : Consumer) (d : Data) (n : ℕ)
        → run fuel c ≡ some (consumed d, n)
        → (can_satisfy sha256 d interest ≡ true) × (verify d ≡ ok tt)
    unfolding consume_loop
    run_sound zero c d n e = cc
    run_sound (suc fuel) c d n e = elim (Once-cases (try c)) [
      | inl (d', there) ↦ elim (Result-cases (verify d')) [
        | inl (u, good) ↦
            let e' =
              sym (run_found sha256 interest limit interval verify env fuel c d' there) ∙ e in
            let e'' : some (consumed d', (next c).sent) ≡ some (consumed d, n) = rw good at e' in
            let same : d' ≡ d = cc in
            (rw (sym same) (once_lem sha256 interest (env c.tries) d' there), rw (sym same) good)
        | inr (inl (x, bad)) ↦
            let e' =
              sym (run_found sha256 interest limit interval verify env fuel c d' there) ∙ e in
            let e'' = rw bad at e' in cc
        | inr (inr bad) ↦
            let e' =
              sym (run_found sha256 interest limit interval verify env fuel c d' there) ∙ e in
            let e'' = rw bad at e' in cc
      ]
      | inr (inl out) ↦ elim (Bool-cases (next c).retx_end) [
        | inl last ↦
            let e' = sym (run_last sha256 interest limit interval verify env fuel c out last) ∙ e in
            cc
        | inr more ↦
            run_sound fuel (next c) d n
              (sym (run_next sha256 interest limit interval verify env fuel c out more) ∙ e)
      ]
      | inr (inr (inl out)) ↦
          let e' = sym (run_parent sha256 interest limit interval verify env fuel c out) ∙ e in cc
      | inr (inr (inr out)) ↦
          let e' = sym (run_cancelled sha256 interest limit interval verify env fuel c out) ∙ e in
          cc
    ]

    run_finds :
        (m fuel : ℕ) (c : Consumer) (d : Data)
        → c.count ≡ c.tries
        → c.tries + m ≤ pos_part limit
        → m < fuel
        → ((j : ℕ)
            → j < c.tries + m
            → (once sha256 interest (env j) ≡ stopped timed_out) × (interval j ≢ 0))
        → once sha256 interest (env (c.tries + m)) ≡ found d
        → verify d ≡ ok tt
        → (n : ℕ) × (run fuel c ≡ some (consumed d, n))
    run_finds m zero c d even below enough late there good = absurd (omega (arith, enough))
    run_finds zero (suc fuel) c d even below enough late there good =
        let here : try c ≡ found d =
          subst (λ k. once sha256 interest (env k) ≡ found d) (omega arith) there in
        (
          _,
          run_found sha256 interest limit interval verify env fuel c d here
              ∙ ap
                  (λ v. some (checked sha256 interest limit interval verify env d v, (next c).sent))
                  good,
        )
    run_finds (suc m) (suc fuel) c d even below enough late there good =
        let (out, some_time) = late c.tries (omega arith) in
        let (more, grown) =
          next-goes sha256 interest limit interval verify env c (omega (arith, even, below))
            (subst (λ k. interval k ≢ 0) (sym even) some_time) in
        let (n, ran) =
          run_finds m fuel (next c) d (grown ∙ ap suc even) (omega (arith, below))
            (omega (arith, enough)) (λ j before. late j (omega (arith, before)))
            (subst (λ k. once sha256 interest (env k) ≡ found d) (omega arith) there) good in
        (n, run_next sha256 interest limit interval verify env fuel c out more ∙ ran)

    -- With fuel of one more than the limit on retransmissions, Consume returns, and it has sent one more
    -- Interest than that limit at most; a limit below 0 counts as 0.
    pub consume_ends :
        (o : Consumed) × (n : ℕ) × (consume sha256 interest limit interval verify env
            (suc (pos_part limit))
          ≡ some (o, n))
        × (n ≤ suc (pos_part limit))
    consume_ends =
        let (o, n, ran, bound) = run-Ends (suc (pos_part limit)) start (omega arith) in
        (o, n, ran, omega (arith, bound))
      where
        start : Consumer
        start = new_consumer sha256 interest limit interval verify env

    -- A Data that Consume returns satisfies the Interest, and the Verifier accepts it.
    pub consume_verified :
        (fuel n : ℕ) (d : Data)
        → consume sha256 interest limit interval verify env fuel ≡ some (consumed d, n)
        → (can_satisfy sha256 d interest ≡ true) × (verify d ≡ ok tt)
    consume_verified fuel n d e =
        run_sound fuel (new_consumer sha256 interest limit interval verify env) d n e

    -- If the tries before number k run out of time, with intervals other than 0, k is at most the limit on
    -- retransmissions, and try k brings a Data that the Verifier accepts, then Consume returns this Data.
    pub consume_finds :
        (k : ℕ) (d : Data)
        → k ≤ pos_part limit
        → ((j : ℕ) → j < k → (once sha256 interest (env j) ≡ stopped timed_out) × (interval j ≢ 0))
        → once sha256 interest (env k) ≡ found d
        → verify d ≡ ok tt
        → (n : ℕ) × (consume sha256 interest limit interval verify env (suc (pos_part limit))
            ≡ some (consumed d, n))
    consume_finds k d below late there good =
        run_finds k (suc (pos_part limit)) (new_consumer sha256 interest limit interval verify env)
          d refl (omega (arith, below)) (omega (arith, below))
          (λ j before. late j (omega (arith, before)))
          (subst (λ m. once sha256 interest (env m) ≡ found d) (omega arith) there) good
