-- ===== src/Name/Slices.antt =====
-- Components and sub names by position, from either end.
use containernet_ndn_dpdk.Shared.{
  [], ℕ, suc, ◌-◌, ◌≤◌, ◌<◌, ◌≡◌, Option, none, some, ◌∷◌, arith, ltb, leb, if◌then◌else◌, length,
  take, drop, take-append-drop, ok, ◌>>=◌,
}
use containernet_ndn_dpdk.Shared.Int.{ℤ, pos, negsuc, ◌+ℤ◌}
use containernet_ndn_dpdk.Name.{Name, get, slice, get_prefix, append}

-- The position that an index means: from the front, or from the end if it is negative.
abbrev pub position : Name → ℤ → Option ℕ
position name (pos n) = if leb n (length name) then some n else none
position name (negsuc n) = if ltb n (length name) then some (length name - suc n) else none

-- `GetPrefix` takes the components in front of the position, counted from the end for a negative
-- index, and is empty where there is no such position.
pub get_prefix-take :
    (name : Name) (i : ℤ)
    → get_prefix name i ≡ ok (elim (position name i) [ some n ↦ take n name | none ↦ [] ])
unfolding get_prefix ◌+ℤ◌
get_prefix-take name (pos n) = ground arith
get_prefix-take name (negsuc n) = ground arith

-- `Slice` from one position to a later one takes the components between them.
pub slice_between :
    (name : Name) (i j : ℕ)
    → i < j
    → j ≤ length name
    → slice name (pos i) (pos j ∷ []) ≡ ok (take (j - i) (drop i name))
unfolding slice
slice_between name i j h k = ground arith

-- A position splits a name into `GetPrefix` and the open-ended `Slice`; and `Get` with the index
-- -1-k is the k-th component from the end.
pub prefix_slice :
    (name : Name) (i : ℕ)
    → i < length name
    → (get_prefix name (pos i) >>= λ front.
        slice name (pos i) [] >>= λ back. ok (append front back))
      ≡ ok name
unfolding get_prefix slice append
prefix_slice name i h = ground (arith, take-append-drop i name)

pub get_from_end :
    (name : Name) (k : ℕ)
    → k < length name
    → get name (negsuc k) ≡ get name (pos (length name - suc k))
unfolding get ◌+ℤ◌
get_from_end name k h = ground arith
