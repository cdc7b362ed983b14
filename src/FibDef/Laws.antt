-- ===== src/FibDef/Laws.antt =====
-- container/fib/fibdef/entry.go: Equals and Validate.
use containernet_ndn_dpdk.Shared.{
  ℕ, ◌≤◌, ◌≡◌, refl, ap, ◌≢◌, ◌↔◌, true, none, List, [], ◌∷◌, arith, length,
}
use containernet_ndn_dpdk.Name.{tlv_length}
use containernet_ndn_dpdk.FibDef.{
  EntryBody, Entry, same_nexthops, equals, validate, max_name_length, max_nexthops,
}

same_nexthops_eq :
    (xs ys : List ℕ) → length xs ≡ length ys → (same_nexthops xs ys ≡ true) ↔ (xs ≡ ys)
unfolding same_nexthops
same_nexthops_eq [] [] h = (λ e. refl, λ e. refl)
same_nexthops_eq [] (y ∷ ys) h = absurd (omega (arith, h))
same_nexthops_eq (x ∷ xs) [] h = absurd (omega (arith, h))
same_nexthops_eq (x ∷ xs) (y ∷ ys) h =
    let rest = same_nexthops_eq xs ys (omega (arith, h)) in
    (λ e. ground (arith, rest.0, e), λ e. ground (arith, rest.1, e))

-- Equals holds exactly for bodies with the same strategy and the same nexthops in the same order.
pub equals_iff : (body other : EntryBody) → (equals body other ≡ true) ↔ (body ≡ other)
unfolding equals
equals_iff body other = (
  λ e. ground (arith, e, same_nexthops_eq body.nexthops other.nexthops),
  λ e. ground (
    arith,
    e,
    ap (λ (b : EntryBody). b.strategy) e,
    ap (λ (b : EntryBody). b.nexthops) e,
    same_nexthops_eq body.nexthops other.nexthops,
  ),
)

-- Validate accepts exactly the entries with a name of at most 494 bytes, one to eight nexthops and a
-- strategy other than 0.
pub validate_iff :
    (entry : Entry)
    → (validate entry ≡ none) ↔ (
        (tlv_length entry.name ≤ max_name_length)
        × (1 ≤ length entry.body.nexthops)
        × (length entry.body.nexthops ≤ max_nexthops)
        × (entry.body.strategy ≢ 0))
unfolding validate
validate_iff entry = (λ e. ground (arith, e), λ h. ground (arith, h))
