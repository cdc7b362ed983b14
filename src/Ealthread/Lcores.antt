-- ===== src/Ealthread/Lcores.antt =====
-- dpdk/ealthread/config.go: no lcore is assigned twice.
use containernet_ndn_dpdk.Shared.{
  ℕ, zero, suc, ◌+◌, ◌≡◌, refl, subst, inl, inr, true, List, [], ◌∷◌, ◌++◌, arith, leb, ◌==◌,
  if◌then◌else◌, ==_iff, Bool-cases, ok-injective, ok, >>=-eq-ok,
}
use containernet_ndn_dpdk.Shared.Int.{ℤ, pos, negsuc}
use containernet_ndn_dpdk.Ealthread.{
  Role, Config, has_lcore, remove_lcore, Assigned, assign_lcores, Assignment, assign_by_id,
  numa_socket_from_id, count_on, take_on, assign_numa, assign_by_socket, assign_workers,
}

-- How often an lcore is in a list, and in the lists of all roles.
abbrev pub occ : ℕ → List ℕ → ℕ
occ x [] = 0
occ x (y ∷ ys) = (if y == x then 1 else 0) + occ x ys

abbrev pub occ_all : ℕ → List (Role × List ℕ) → ℕ
occ_all x [] = 0
occ_all x ((role, xs) ∷ m) = occ x xs + occ_all x m

occ-append : (x : ℕ) (xs ys : List ℕ) → occ x (xs ++ ys) ≡ occ x xs + occ x ys
occ-append x [] ys = omega arith
occ-append x (y ∷ xs) ys = omega (arith, occ-append x xs ys)

occ-remove :
    (x y : ℕ) (xs : List ℕ)
    → has_lcore y xs ≡ true
    → (if y == x then 1 else 0) + occ x (remove_lcore y xs) ≡ occ x xs
occ-remove x y [] h = cc
occ-remove x y (z ∷ xs) h = elim (Bool-cases (y == z)) [
  | inl same ↦ rw (same, (==_iff y z).0 same) refl
  | inr other ↦
      let h' : has_lcore y xs ≡ true = rw other at h in
      rw other (omega (arith, occ-remove x y xs h'))
]

occ-assign_lcores :
    (x : ℕ) (role : Role) (cores : List ℤ) (left : List ℕ)
    → (let a = assign_lcores role cores left in occ x a.given + occ x a.left ≡ occ x left)
unfolding assign_lcores
occ-assign_lcores x role [] left = omega arith
occ-assign_lcores x role (negsuc n ∷ cores) left = occ-assign_lcores x role cores left
occ-assign_lcores x role (pos y ∷ cores) left = elim (Bool-cases (has_lcore y left)) [
  | inl there ↦ rw there (
      omega
        (arith, occ-assign_lcores x role cores (remove_lcore y left), occ-remove x y left there))
  | inr absent ↦ rw absent (occ-assign_lcores x role cores left)
]

occ-assign_by_id :
    (x : ℕ) (c : Config) (left : List ℕ)
    → (let a = assign_by_id c left in occ_all x a.roles + occ x a.rest ≡ occ x left)
unfolding assign_by_id
occ-assign_by_id x [] left = omega arith
occ-assign_by_id x ((role, rc) ∷ c) left =
    let a = assign_lcores role rc.lcores left in
    omega (arith, occ-assign_lcores x role rc.lcores left, occ-assign_by_id x c a.left)

module _ (socket_of : ℕ → ℕ) (nodes : ℕ) where
  occ-take_on :
      (x socket n : ℕ) (left : List ℕ)
      → (let (taken, rest) = take_on socket_of nodes socket n left in
          occ x taken + occ x rest ≡ occ x left)
  unfolding take_on
  occ-take_on x socket zero left = omega arith
  occ-take_on x socket (suc n) [] = omega arith
  occ-take_on x socket (suc n) (y ∷ left) = elim (Bool-cases (socket_of y == socket)) [
    | inl on ↦ rw on (omega (arith, occ-take_on x socket n left))
    | inr off ↦ rw off (omega (arith, occ-take_on x socket (suc n) left))
  ]

  occ-assign_numa :
      (x : ℕ) (role : Role) (counts : List (ℤ × ℤ)) (left : List ℕ) (a : Assigned)
      → assign_numa socket_of nodes role counts left ≡ ok a
      → occ x a.given + occ x a.left ≡ occ x left
  unfolding assign_numa
  occ-assign_numa x role [] left a e =
      let same = ok-injective e in
      subst (λ (b : Assigned). occ x b.given + occ x b.left ≡ occ x left) same (omega arith)
  occ-assign_numa x role ((id, negsuc n) ∷ counts) left a e = cc
  occ-assign_numa x role ((id, pos n) ∷ counts) left a e =
      let socket = numa_socket_from_id nodes id in
      let (taken, left') = take_on socket_of nodes socket n left in
      elim (Bool-cases (leb n (count_on socket_of nodes socket left))) [
        | inl enough ↦
            let (b, run, e') =
              >>=-eq-ok (assign_numa socket_of nodes role counts left') _
                (rw (enough, assign_numa) at e) in
            subst (λ (d : Assigned). occ x d.given + occ x d.left ≡ occ x left) (ok-injective e')
              (omega (
                arith,
                occ-append x taken b.given,
                occ-assign_numa x role counts left' b run,
                occ-take_on x socket n left,
              ))
        | inr short ↦
            let (b, run, e') =
              >>=-eq-ok (assign_numa socket_of nodes role counts left) _
                (rw (short, assign_numa) at e) in
            subst (λ (d : Assigned). occ x d.given + occ x d.left ≡ occ x left) (ok-injective e')
              (occ-assign_numa x role counts left b run)
      ]

  occ-assign_by_socket :
      (x : ℕ) (c : Config) (left : List ℕ) (m : Assignment)
      → assign_by_socket socket_of nodes c left ≡ ok m
      → occ_all x m.roles + occ x m.rest ≡ occ x left
  unfolding assign_by_socket
  occ-assign_by_socket x [] left m e =
      subst (λ (b : Assignment). occ_all x b.roles + occ x b.rest ≡ occ x left) (ok-injective e)
        (omega arith)
  occ-assign_by_socket x ((role, rc) ∷ c) left m e =
      let (a, one, e') = >>=-eq-ok (assign_numa socket_of nodes role rc.per_numa left) _ e in
      let (b, more, e'') = >>=-eq-ok (assign_by_socket socket_of nodes c a.left) _ e' in
      subst (λ (d : Assignment). occ_all x d.roles + occ x d.rest ≡ occ x left) (ok-injective e'')
        (omega (
          arith,
          occ-assign_numa x role rc.per_numa left a one,
          occ-assign_by_socket x c a.left b more,
        ))

  occ_all-append :
      (x : ℕ) (m m' : List (Role × List ℕ)) → occ_all x (m ++ m') ≡ occ_all x m + occ_all x m'
  occ_all-append x [] m' = omega arith
  occ_all-append x ((role, xs) ∷ m) m' = omega (arith, occ_all-append x m m')

  -- assignWorkers gives each worker to one role at most, and once, whatever the order of its range loops: of the workers that it
  -- was given each one is in the lists of the roles, all together, or among those that are left.
  pub occ-assign_workers :
      (shuffle : List ℕ → List ℕ) (again : Config → Config) (c : Config) (workers : List ℕ)
      (m : Assignment)
      → ((y : ℕ) (xs : List ℕ) → occ y (shuffle xs) ≡ occ y xs)
      → assign_workers socket_of nodes shuffle again c workers ≡ ok m
      → (x : ℕ) → occ_all x m.roles + occ x m.rest ≡ occ x workers
  unfolding assign_workers
  occ-assign_workers shuffle again c workers m same e x =
      let a = assign_by_id c workers in
      let (b, run, e') =
        >>=-eq-ok (assign_by_socket socket_of nodes (again c) (shuffle a.rest)) _ e in
      subst (λ (d : Assignment). occ_all x d.roles + occ x d.rest ≡ occ x workers) (ok-injective e')
        (omega (
          arith,
          occ_all-append x a.roles b.roles,
          occ-assign_by_id x c workers,
          same x a.rest,
          occ-assign_by_socket x (again c) (shuffle a.rest) b run,
        ))
