-- ===== src/Tests/Cores.antt =====
-- dpdk/ealthread on four lcores and two roles.
use containernet_ndn_dpdk.Shared.{
  ℕ, ◌+◌, ◌≤◌, ◌<◌, ◌≡◌, refl, inl, inr, Bool-cases, true, List, [], ◌∷◌, arith, leb, ◌==◌,
  if◌then◌else◌, is_empty, ok, panic,
}
use containernet_ndn_dpdk.Shared.Int.{pos, negsuc}
use containernet_ndn_dpdk.Ealthread.{
  Role, Config, Assignment, assign_lcores, assign_by_id, take_on, assign_numa, assign_by_socket,
  assign_workers, alloc_config,
}
use containernet_ndn_dpdk.Ealthread.Lcores.{occ, occ_all, occ-assign_workers}
use containernet_ndn_dpdk.Ealthread.Marks.{owner, alloc_config_marks}
use containernet_ndn_dpdk.Ealthread.Panics.{assign_workers_panics, has_negative, negative_in}

-- Lcores 1 and 2 are on socket 0, and the others on socket 1.
abbrev socket_of : ℕ → ℕ
socket_of x = if leb x 2 then 1 else 2

abbrev four : List ℕ
four = 1 ∷ 2 ∷ 3 ∷ 4 ∷ []

-- Role "A" has lcore 2, and role "B" one on each socket.
abbrev two_roles : Config
two_roles =
    (65 ∷ [], record { lcores = pos 2 ∷ []; per_numa = [] })
    ∷ (66 ∷ [], record { lcores = []; per_numa = (pos 0, pos 1) ∷ (pos 1, pos 1) ∷ [] })
    ∷ []

-- Another order of the roles, where there are two.
abbrev other_order : Config → Config
other_order [] = []
other_order (x ∷ []) = x ∷ []
other_order (x ∷ y ∷ c) = y ∷ x ∷ c

other_order_lem : (c : Config) → has_negative (other_order c) ≡ has_negative c
other_order_lem [] = refl
other_order_lem (x ∷ []) = refl
other_order_lem ((r, x) ∷ (r', y) ∷ c) = elim (Bool-cases (negative_in x.per_numa)) [
  | inl h ↦ elim (Bool-cases (negative_in y.per_numa)) [
    | inl h' ↦ rw (h, h') refl
    | inr h' ↦ rw (h, h') refl
  ]
  | inr h ↦ elim (Bool-cases (negative_in y.per_numa)) [
    | inl h' ↦ rw (h, h') refl
    | inr h' ↦ rw (h, h') refl
  ]
]

abbrev same_order : List ℕ → List ℕ
same_order xs = xs

abbrev assigned : Assignment
assigned = record {
  roles = (65 ∷ [], 2 ∷ []) ∷ (66 ∷ [], []) ∷ (66 ∷ [], 1 ∷ 3 ∷ []) ∷ (65 ∷ [], []) ∷ [];
  rest = 4 ∷ [];
  failures = [];
}

runs : assign_workers socket_of 32 same_order other_order two_roles four ≡ ok assigned
unfolding assign_workers assign_by_id assign_lcores assign_by_socket assign_numa take_on
runs = refl

occ-assign_workers_example : occ_all 3 assigned.roles + occ 3 assigned.rest ≡ occ 3 four
occ-assign_workers_example =
    occ-assign_workers socket_of 32 same_order other_order two_roles four assigned (λ y xs. refl)
      runs 3

abbrev nothing : ℕ → Role
nothing x = []

abbrev after : ℕ → Role
after x = if x == 3 then 66 ∷ [] else if x == 1 then 66 ∷ [] else if x == 2 then 65 ∷ [] else []

allocates :
    alloc_config socket_of 32 same_order other_order two_roles four nothing ≡ ok (assigned, after)
unfolding alloc_config assign_workers assign_by_id assign_lcores assign_by_socket assign_numa
    take_on
allocates = refl

four_distinct : (y : ℕ) → occ y four ≤ 1
four_distinct y = ground arith

alloc_config_marks_example :
    (after 3 ≡ owner 3 assigned.roles [])
    × (0 < occ_all 3 assigned.roles → (is_empty (nothing 3) ≡ true) × (0 < occ 3 four))
alloc_config_marks_example =
    alloc_config_marks socket_of 32 same_order other_order two_roles four nothing assigned after
      (λ y xs. refl) four_distinct allocates refl 3

abbrev with_negative : Config
with_negative =
    (65 ∷ [], record { lcores = []; per_numa = (pos 0, negsuc 0) ∷ (pos 1, pos 3) ∷ [] }) ∷ []

assign_workers_panics_example :
    assign_workers socket_of 32 same_order other_order with_negative four ≡ panic
assign_workers_panics_example =
    assign_workers_panics socket_of 32 same_order other_order with_negative four other_order_lem
