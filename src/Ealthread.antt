-- ===== src/Ealthread.antt =====
-- dpdk/ealthread/config.go and allocator.go: which lcores the roles of an application get. An lcore is its ID,
-- and a role a string as the list of its bytes.
pub mod Lcores
pub mod Marks
pub mod Panics
use containernet_ndn_dpdk.Shared.{
  ℕ, zero, suc, Bool, false, ◌||◌, Option, none, some, List, [], ◌∷◌, ◌++◌, leb, ◌==◌,
  if◌then◌else◌, length, is_empty, Result, ok, panic, ◌>>=◌,
}
use containernet_ndn_dpdk.Shared.Int.{ℤ, pos, negsuc, ◌+ℤ◌, ltb_ℤ}
use containernet_ndn_dpdk.Shared.Assoc.{lookup, delete, bytes_eq, Eq}

abbrev pub Role : Type 0
Role = List ℕ

-- RoleConfig; PerNuma is in the order of its range loop.
pub record RoleConfig : Type 0 where
  pub lcores : List ℤ
  pub per_numa : List (ℤ × ℤ)

abbrev pub Config : Type 0
Config = List (Role × RoleConfig)

-- RoleConfig.Count
abbrev pub sum_counts : List (ℤ × ℤ) → ℤ
sum_counts [] = pos 0
sum_counts ((socket, n) ∷ rest) = n +ℤ sum_counts rest

abbrev pub role_count : RoleConfig → ℤ
role_count rc = pos (length rc.lcores) +ℤ sum_counts rc.per_numa

-- c[role].Count(), on the zero RoleConfig where the role is missing.
abbrev pub count_at : Option RoleConfig → ℤ
count_at none = pos 0
count_at (some rc) = role_count rc

pub data RoleError : Type 0 where
  too_few unknown_role : Role → RoleError
  no_lcore too_few_on : ℤ → Role → RoleError

-- ValidateRoles, as the list of its errors.
unfoldable pub few_roles : Config → List (Role × ℤ) → List RoleError
few_roles c [] = []
few_roles c ((role, least) ∷ roles) =
    let rest = few_roles c roles in
    if ltb_ℤ (count_at (lookup role c)) least then too_few role ∷ rest else rest

unfoldable pub unknown_roles : List (Role × ℤ) → Config → List RoleError
unknown_roles roles [] = []
unknown_roles roles ((role, rc) ∷ c) =
    let rest = unknown_roles roles c in
    elim (lookup role roles) [ none ↦ unknown_role role ∷ rest | some least ↦ rest ]

unfoldable pub validate_roles : Config → List (Role × ℤ) → List RoleError
validate_roles c roles = few_roles c roles ++ unknown_roles roles c

-- Extract: the Config of the roles and what is left of the receiver, or the errors. A nil Config is none.
pub data Extracted : Type 0 where
  extracted : Config → Option Config → Extracted
  not_valid : List RoleError → Extracted

abbrev pub of_roles : List (Role × ℤ) → Config → Config
of_roles roles [] = []
of_roles roles ((role, rc) ∷ c) =
    let rest = of_roles roles c in
    elim (lookup role roles) [ none ↦ rest | some least ↦ (role, rc) ∷ rest ]

abbrev pub delete_roles : List (Role × ℤ) → Config → Config
delete_roles [] c = c
delete_roles ((role, least) ∷ roles) c = delete_roles roles (delete role c)

abbrev pub extract_valid : Config → Config → List (Role × ℤ) → List RoleError → Extracted
extract_valid p c roles [] = extracted p (some (delete_roles roles c))
extract_valid p c roles (e ∷ errs) = not_valid (e ∷ errs)

pub extract : Option Config → List (Role × ℤ) → Extracted
extract none roles = extracted [] none
extract (some c) roles =
    let p = of_roles roles c in extract_valid p c roles (validate_roles p roles)

-- Lcores by their IDs. The part of workersByID is a list of them; `delete` takes one off.
abbrev pub has_lcore : ℕ → List ℕ → Bool
has_lcore x [] = false
has_lcore x (y ∷ ys) = x == y || has_lcore x ys

abbrev pub remove_lcore : ℕ → List ℕ → List ℕ
remove_lcore x [] = []
remove_lcore x (y ∷ ys) = let rest = remove_lcore x ys in if x == y then ys else y ∷ rest

-- What a loop of assignWorkers has: the lcores of the role, those left, and the errors.
pub record Assigned : Type 0 where
  pub given : List ℕ
  pub left : List ℕ
  pub errs : List RoleError

abbrev pub give : ℕ → Assigned → Assigned
give x a = record a { given = x ∷ a.given }

abbrev pub complain : RoleError → Assigned → Assigned
complain e a = record a { errs = e ∷ a.errs }

-- The loop over the LCores of a role.
unfoldable pub assign_lcores : Role → List ℤ → List ℕ → Assigned
assign_lcores role [] left = record { given = []; left = left; errs = [] }
assign_lcores role (negsuc n ∷ cores) left =
    complain (no_lcore (negsuc n) role) (assign_lcores role cores left)
assign_lcores role (pos x ∷ cores) left =
    let found = give x (assign_lcores role cores (remove_lcore x left)) in
    let missing = complain (no_lcore (pos x) role) (assign_lcores role cores left) in
    if has_lcore x left then found else missing

-- The lcores appended to m[role], in the order of the appends, so m[role] is all the lists of the role one
-- after the other; with the lcores left and the errors.
pub record Assignment : Type 0 where
  pub roles : List (Role × List ℕ)
  pub rest : List ℕ
  pub failures : List RoleError

abbrev pub join_role : Role → Assigned → Assignment → Assignment
join_role role a b = record {
  roles = (role, a.given) ∷ b.roles;
  rest = b.rest;
  failures = a.errs ++ b.failures;
}

unfoldable pub assign_by_id : Config → List ℕ → Assignment
assign_by_id [] left = record { roles = []; rest = left; failures = [] }
assign_by_id ((role, rc) ∷ c) left =
    let a = assign_lcores role rc.lcores left in join_role role a (assign_by_id c a.left)

-- NumaSocketFromID, with RTE_MAX_NUMA_NODES; a NumaSocket is its number plus one, or 0 for any.
abbrev pub numa_socket_from_id : ℕ → ℤ → ℕ
numa_socket_from_id nodes (negsuc n) = 0
numa_socket_from_id nodes (pos n) = if leb nodes n then 0 else suc n

module _ (socket_of : ℕ → ℕ) (nodes : ℕ) where
  -- len(workersBySocket[socket]), and the first lcores of it with what is left of all of them.
  abbrev pub count_on : ℕ → List ℕ → ℕ
  count_on socket [] = 0
  count_on socket (x ∷ xs) =
      let rest = count_on socket xs in if socket_of x == socket then suc rest else rest

  unfoldable pub take_on : ℕ → ℕ → List ℕ → List ℕ × List ℕ
  take_on socket zero xs = ([], xs)
  take_on socket (suc n) [] = ([], [])
  take_on socket (suc n) (x ∷ xs) =
      let (taken, rest) = take_on socket n xs in
      let (taken', rest') = take_on socket (suc n) xs in
      if socket_of x == socket then (x ∷ taken, rest) else (taken', x ∷ rest')

  abbrev pub give_all : List ℕ → Assigned → Assigned
  give_all xs a = record a { given = xs ++ a.given }

  -- The loop over the PerNuma of a role; a slice with a count below 0 is a panic.
  unfoldable pub assign_numa : Role → List (ℤ × ℤ) → List ℕ → Result Assigned
  assign_numa role [] left = ok (record { given = []; left = left; errs = [] })
  assign_numa role ((id, negsuc n) ∷ counts) left = panic
  assign_numa role ((id, pos n) ∷ counts) left =
      let socket = numa_socket_from_id nodes id in
      let (taken, left') = take_on socket n left in
      let enough = assign_numa role counts left' >>= λ a. ok (give_all taken a) in
      let short = assign_numa role counts left >>= λ a. ok (complain (too_few_on id role) a) in
      if leb n (count_on socket left) then enough else short

  unfoldable pub assign_by_socket : Config → List ℕ → Result Assignment
  assign_by_socket [] left = ok (record { roles = []; rest = left; failures = [] })
  assign_by_socket ((role, rc) ∷ c) left = assign_numa role rc.per_numa left >>= λ a.
      assign_by_socket c a.left >>= λ b. ok (join_role role a b)

  -- assignWorkers; the range loop over the map of unused workers has an order of its own, and so has the second
  -- one over the Config.
  unfoldable pub assign_workers :
      (List ℕ → List ℕ) → (Config → Config) → Config → List ℕ → Result Assignment
  assign_workers shuffle again c workers =
      let a = assign_by_id c workers in
      assign_by_socket (again c) (shuffle a.rest) >>= λ b.
      ok (record { roles = a.roles ++ b.roles; rest = b.rest; failures = a.failures ++ b.failures })

  -- `allocated`, and the loop of AllocConfig that sets it.
  abbrev pub mark_lcores : Role → List ℕ → (ℕ → Role) → ℕ → Role
  mark_lcores role [] allocated = allocated
  mark_lcores role (x ∷ xs) allocated =
      mark_lcores role xs (λ y. if y == x then role else allocated y)

  abbrev pub mark_roles : List (Role × List ℕ) → (ℕ → Role) → ℕ → Role
  mark_roles [] allocated = allocated
  mark_roles ((role, xs) ∷ m) allocated = mark_roles m (mark_lcores role xs allocated)

  abbrev pub unallocated : (ℕ → Role) → List ℕ → List ℕ
  unallocated allocated [] = []
  unallocated allocated (x ∷ xs) =
      let rest = unallocated allocated xs in if is_empty (allocated x) then x ∷ rest else rest

  -- AllocConfig on eal.Workers: what is assigned, and `allocated`, which is set if there is no error.
  unfoldable pub alloc_config :
      (List ℕ → List ℕ)
      → (Config → Config)
      → Config
      → List ℕ
      → (ℕ → Role)
      → Result (Assignment × (ℕ → Role))
  alloc_config shuffle again c workers allocated =
      assign_workers shuffle again c (unallocated allocated workers) >>= λ m.
      ok (m, if is_empty m.failures then mark_roles m.roles allocated else allocated)

-- allocFree, which panics on an lcore that is free unless it may be.
pub alloc_free : List ℕ → Bool → (ℕ → Role) → Result (ℕ → Role)
alloc_free [] maybe_free allocated = ok allocated
alloc_free (x ∷ xs) maybe_free allocated =
    let freed = alloc_free xs maybe_free (λ y. if y == x then [] else allocated y) in
    let same = alloc_free xs maybe_free allocated in
    if is_empty (allocated x) then (if maybe_free then same else panic) else freed
