-- ===== src/Ealthread/Marks.antt =====
-- dpdk/ealthread/allocator.go: the roles of lcores after AllocConfig.
use containernet_ndn_dpdk.Shared.{
  ℕ, ◌≤◌, ◌<◌, ◌≡◌, refl, sym, ap, ◌∙◌, subst, inl, inr, Bool, true, false, List, [], ◌∷◌, arith,
  ◌==◌, if◌then◌else◌, ==_iff, Bool-cases, is_empty, ok-injective, ok, >>=-eq-ok,
}
use containernet_ndn_dpdk.Ealthread.{
  Role, Config, has_lcore, Assignment, assign_workers, mark_lcores, mark_roles, unallocated,
  alloc_config,
}
use containernet_ndn_dpdk.Ealthread.Lcores.{occ, occ_all, occ-assign_workers}

-- The role that has an lcore, or else the one that it had.
abbrev pub owner : ℕ → List (Role × List ℕ) → Role → Role
owner x [] before = before
owner x ((role, xs) ∷ m) before = if has_lcore x xs then role else owner x m before

module _ (socket_of : ℕ → ℕ) (nodes : ℕ) where
  occ-has_lcore : (x : ℕ) (xs : List ℕ) → has_lcore x xs ≡ true → 0 < occ x xs
  occ-has_lcore x [] h = cc
  occ-has_lcore x (y ∷ xs) h = elim (Bool-cases (x == y)) [
    | inl same ↦
        let here : y == x ≡ true = ground (arith, (==_iff x y).0 same) in rw here (omega arith)
    | inr other ↦
        let h' : has_lcore x xs ≡ true = rw other at h in omega (arith, occ-has_lcore x xs h')
  ]

  mark_lcores_lem :
      (x : ℕ) (role : Role) (xs : List ℕ) (allocated : ℕ → Role)
      → mark_lcores socket_of nodes role xs allocated x
        ≡ (if has_lcore x xs then role else allocated x)
  mark_lcores_lem x role [] allocated = refl
  mark_lcores_lem x role (y ∷ xs) allocated =
      mark_lcores_lem x role xs (λ z. if z == y then role else allocated z)
      ∙ elim (Bool-cases (x == y)) [
        | inl same ↦
            rw same (elim (Bool-cases (has_lcore x xs)) [ inl h ↦ rw h refl | inr h ↦ rw h refl ])
        | inr other ↦ rw other refl
      ]

  owner_none :
      (x : ℕ) (m : List (Role × List ℕ)) (before : Role)
      → occ_all x m ≡ 0
      → owner x m before ≡ before
  owner_none x [] before h = refl
  owner_none x ((role, xs) ∷ m) before h = elim (Bool-cases (has_lcore x xs)) [
    | inl there ↦ absurd (omega (arith, h, occ-has_lcore x xs there))
    | inr absent ↦ rw absent (owner_none x m before (omega (arith, h)))
  ]

  mark_roles_lem :
      (x : ℕ) (m : List (Role × List ℕ)) (allocated : ℕ → Role)
      → occ_all x m ≤ 1
      → mark_roles socket_of nodes m allocated x ≡ owner x m (allocated x)
  mark_roles_lem x [] allocated h = refl
  mark_roles_lem x ((role, xs) ∷ m) allocated h =
      mark_roles_lem x m (mark_lcores socket_of nodes role xs allocated) (omega (arith, h))
      ∙ ap (λ r. owner x m r) (mark_lcores_lem x role xs allocated)
      ∙ elim (Bool-cases (has_lcore x xs)) [
        | inl there ↦ rw there (owner_none x m role (omega (arith, h, occ-has_lcore x xs there)))
        | inr absent ↦ rw absent refl
      ]

  -- The unallocated lcores are those without a role.
  occ-free :
      (x : ℕ) (allocated : ℕ → Role) (workers : List ℕ)
      → is_empty (allocated x) ≡ true
      → occ x (unallocated socket_of nodes allocated workers) ≡ occ x workers
  occ-free x allocated [] h = refl
  occ-free x allocated (y ∷ workers) h = elim (Bool-cases (is_empty (allocated y))) [
    | inl free ↦ rw free (omega (arith, occ-free x allocated workers h))
    | inr held ↦ elim (Bool-cases (y == x)) [
      | inl same ↦
          let held' : is_empty (allocated x) ≡ false = rw ((==_iff y x).0 same) at held in cc
      | inr other ↦ rw (held, other) (omega (arith, occ-free x allocated workers h))
    ]
  ]

  occ-held :
      (x : ℕ) (allocated : ℕ → Role) (workers : List ℕ)
      → is_empty (allocated x) ≡ false
      → occ x (unallocated socket_of nodes allocated workers) ≡ 0
  occ-held x allocated [] h = refl
  occ-held x allocated (y ∷ workers) h = elim (Bool-cases (is_empty (allocated y))) [
    | inl free ↦ elim (Bool-cases (y == x)) [
      | inl same ↦
          let free' : is_empty (allocated x) ≡ true = rw ((==_iff y x).0 same) at free in cc
      | inr other ↦ rw (free, other) (omega (arith, occ-held x allocated workers h))
    ]
    | inr held ↦ rw held (occ-held x allocated workers h)
  ]

  marked_lem :
      (m : Assignment) (allocated : ℕ → Role) (x : ℕ)
      → m.failures ≡ []
      → occ_all x m.roles ≤ 1
      → (if is_empty m.failures then mark_roles socket_of nodes m.roles allocated else allocated) x
        ≡ owner x m.roles (allocated x)
  marked_lem m allocated x fine once = mark_lem (is_empty m.failures) (ap is_empty fine)
    where
      mark_lem :
          (b : Bool)
          → b ≡ true
          → (if b then mark_roles socket_of nodes m.roles allocated else allocated) x
            ≡ owner x m.roles (allocated x)
      mark_lem true e = mark_roles_lem x m.roles allocated once
      mark_lem false e = cc

  -- Where AllocConfig has no error and the workers are distinct, an lcore has the role afterwards that it is
  -- in the list of, and otherwise the one that it had; one that is in a list was a worker without a role.
  pub alloc_config_marks :
      (shuffle : List ℕ → List ℕ) (again : Config → Config) (c : Config) (workers : List ℕ)
      (allocated : ℕ → Role) (m : Assignment) (after : ℕ → Role)
      → ((y : ℕ) (xs : List ℕ) → occ y (shuffle xs) ≡ occ y xs)
      → ((y : ℕ) → occ y workers ≤ 1)
      → alloc_config socket_of nodes shuffle again c workers allocated ≡ ok (m, after)
      → m.failures ≡ []
      → (x : ℕ)
      → (after x ≡ owner x m.roles (allocated x))
        × (0 < occ_all x m.roles → (is_empty (allocated x) ≡ true) × (0 < occ x workers))
  unfolding alloc_config
  alloc_config_marks shuffle again c workers allocated m after same distinct e fine x =
      let free = unallocated socket_of nodes allocated workers in
      let (m', run, e') = >>=-eq-ok (assign_workers socket_of nodes shuffle again c free) _ e in
      let both = ok-injective e' in
      let is_m : m' ≡ m = ap (λ (p : Assignment × (ℕ → Role)). p.0) both in
      let marked : (if is_empty m'.failures
            then mark_roles socket_of nodes m'.roles allocated
            else allocated)
          ≡ after =
        ap (λ (p : Assignment × (ℕ → Role)). p.1) both in
      let run' : assign_workers socket_of nodes shuffle again c free ≡ ok m = run ∙ ap ok is_m in
      let count = occ-assign_workers socket_of nodes shuffle again c free m same run' x in
      let marked' : (if is_empty m.failures
            then mark_roles socket_of nodes m.roles allocated
            else allocated)
          ≡ after =
        subst
          (λ (a : Assignment).
            (if is_empty a.failures
              then mark_roles socket_of nodes a.roles allocated
              else allocated)
            ≡ after)
          is_m marked in
      let here = distinct x in
      elim (Bool-cases (is_empty (allocated x))) [
        | inl h ↦
            let free_count = occ-free x allocated workers h in
            (
              ap (λ (f : ℕ → Role). f x) (sym marked')
                  ∙ marked_lem m allocated x fine (omega (arith, count, free_count, here)),
              λ some_role. (h, omega (arith, some_role, count, free_count)),
            )
        | inr h ↦
            let held_count = occ-held x allocated workers h in
            (
              ap (λ (f : ℕ → Role). f x) (sym marked')
                  ∙ marked_lem m allocated x fine (omega (arith, count, held_count)),
              λ some_role. absurd (omega (arith, some_role, count, held_count)),
            )
      ]
