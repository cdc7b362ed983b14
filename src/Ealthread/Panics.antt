-- ===== src/Ealthread/Panics.antt =====
-- dpdk/ealthread/config.go: counts below 0.
use containernet_ndn_dpdk.Shared.{
  ℕ, ◌≡◌, refl, subst, inl, inr, Bool, true, false, ◌||◌, List, [], ◌∷◌, leb, Bool-cases, Result,
  ok, panic, ◌>>=◌,
}
use containernet_ndn_dpdk.Shared.Int.{ℤ, pos, negsuc}
use containernet_ndn_dpdk.Ealthread.{
  Role, Config, assign_by_id, numa_socket_from_id, count_on, take_on, assign_numa, assign_by_socket,
  assign_workers,
}

abbrev pub negative_in : List (ℤ × ℤ) → Bool
negative_in [] = false
negative_in ((id, negsuc n) ∷ counts) = true
negative_in ((id, pos n) ∷ counts) = negative_in counts

-- A role has a count below 0 for a socket.
abbrev pub has_negative : Config → Bool
has_negative [] = false
has_negative ((role, rc) ∷ c) = negative_in rc.per_numa || has_negative c

-- A panic exactly if the test holds.
abbrev pub PanicsIf {ℓ} : {A : Type ℓ} → Bool → Result A → Type ℓ
PanicsIf {A = A} true r = r ≡ panic
PanicsIf {A = A} false r = (a : A) × (r ≡ ok a)

module _ (socket_of : ℕ → ℕ) (nodes : ℕ) where
  after_bind {ℓ κ} :
      {A : Type ℓ} {B : Type κ} (b : Bool) (r : Result A) (f : A → B)
      → PanicsIf b r
      → PanicsIf b (r >>= λ a. ok (f a))
  after_bind true r f h = rw h refl
  after_bind false r f (a, h) = (f a, rw h refl)

  assign_numa_panics :
      (role : Role) (counts : List (ℤ × ℤ)) (left : List ℕ)
      → PanicsIf (negative_in counts) (assign_numa socket_of nodes role counts left)
  unfolding assign_numa
  assign_numa_panics role [] left = (_, refl)
  assign_numa_panics role ((id, negsuc n) ∷ counts) left = refl
  assign_numa_panics role ((id, pos n) ∷ counts) left =
      let socket = numa_socket_from_id nodes id in
      elim (Bool-cases (leb n (count_on socket_of nodes socket left))) [
        | inl enough ↦
            rw (enough, assign_numa)
              (after_bind (negative_in counts) _ _
                (assign_numa_panics role counts (take_on socket_of nodes socket n left).1))
        | inr short ↦
            rw (short, assign_numa)
              (after_bind (negative_in counts) _ _ (assign_numa_panics role counts left))
      ]

  assign_by_socket_panics :
      (c : Config) (left : List ℕ)
      → PanicsIf (has_negative c) (assign_by_socket socket_of nodes c left)
  unfolding assign_by_socket
  assign_by_socket_panics [] left = (_, refl)
  assign_by_socket_panics ((role, rc) ∷ c) left = elim (Bool-cases (negative_in rc.per_numa)) [
    | inl bad ↦
        let h =
          subst (λ b. PanicsIf b (assign_numa socket_of nodes role rc.per_numa left)) bad
            (assign_numa_panics role rc.per_numa left) in
        rw (bad, h) refl
    | inr good ↦
        let (a, h) =
          subst (λ b. PanicsIf b (assign_numa socket_of nodes role rc.per_numa left)) good
            (assign_numa_panics role rc.per_numa left) in
        rw (good, h) (after_bind (has_negative c) _ _ (assign_by_socket_panics c a.left))
  ]

  -- assignWorkers panics exactly on a Config with a count below 0 for a socket, whatever the workers are; on
  -- every other Config it returns. The second range loop goes over the same Config as the first.
  pub assign_workers_panics :
      (shuffle : List ℕ → List ℕ) (again : Config → Config) (c : Config) (workers : List ℕ)
      → ((d : Config) → has_negative (again d) ≡ has_negative d)
      → PanicsIf (has_negative c) (assign_workers socket_of nodes shuffle again c workers)
  unfolding assign_workers
  assign_workers_panics shuffle again c workers same =
      subst (λ b. PanicsIf b (assign_workers socket_of nodes shuffle again c workers)) (same c)
        (after_bind (has_negative (again c)) _ _
          (assign_by_socket_panics (again c) (shuffle (assign_by_id c workers).rest)))
