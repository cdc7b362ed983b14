-- ===== src/Reassembler/Masks.antt =====
-- ndn/lp.go: the buffer of a partial packet, by the fragments that it has: one Boolean for each.
use containernet_ndn_dpdk.Shared.{
  ℕ, zero, suc, ◌+◌, ◌≤◌, ◌<◌, ◌≡◌, refl, ap, Bool, true, false, Option, none, some, List, [], ◌∷◌,
  ◌++◌, arith, ◌==◌, if◌then◌else◌, length, get_elem?, get_or, set, replicate,
}
use containernet_ndn_dpdk.Tlv.Encode.{join}
use containernet_ndn_dpdk.Reassembler.{join_parts, is_there}

-- The buffer with the payloads that have come.
abbrev pub mask : List Bool → List (List ℕ) → List (Option (List ℕ))
mask [] ps = []
mask (b ∷ bits) [] = []
mask (true ∷ bits) (p ∷ ps) = some p ∷ mask bits ps
mask (false ∷ bits) (p ∷ ps) = none ∷ mask bits ps

abbrev pub count : List Bool → ℕ
count [] = 0
count (true ∷ bits) = suc (count bits)
count (false ∷ bits) = count bits

-- The order names each fragment that is missing once.
abbrev pub Visits : List Bool → List ℕ → Type 0
Visits bits [] = count bits ≡ length bits
Visits bits (i ∷ order) = (get_elem? bits i ≡ some false) × Visits (set bits i true) order

pub length-set : (bits : List Bool) (i : ℕ) (b : Bool) → length (set bits i b) ≡ length bits
length-set [] i b = refl
length-set (x ∷ bits) zero b = refl
length-set (x ∷ bits) (suc i) b = ap suc (length-set bits i b)

pub count-set :
    (bits : List Bool) (i : ℕ)
    → get_elem? bits i ≡ some false
    → count (set bits i true) ≡ suc (count bits)
count-set [] i h = cc
count-set (true ∷ bits) zero h = cc
count-set (false ∷ bits) zero h = refl
count-set (true ∷ bits) (suc i) h = ap suc (count-set bits i h)
count-set (false ∷ bits) (suc i) h = count-set bits i h

pub in_range : (bits : List Bool) (i : ℕ) → get_elem? bits i ≡ some false → i < length bits
in_range [] i h = cc
in_range (b ∷ bits) zero h = omega arith
in_range (b ∷ bits) (suc i) h = omega (arith, in_range bits i h)

pub count-le-length : (bits : List Bool) → count bits ≤ length bits
count-le-length [] = omega arith
count-le-length (true ∷ bits) = omega (arith, count-le-length bits)
count-le-length (false ∷ bits) = omega (arith, count-le-length bits)

pub length-mask :
    (bits : List Bool) (ps : List (List ℕ))
    → length bits ≡ length ps
    → length (mask bits ps) ≡ length ps
length-mask [] ps h = h
length-mask (b ∷ bits) [] h = refl
length-mask (true ∷ bits) (p ∷ ps) h = ap suc (length-mask bits ps (omega (arith, h)))
length-mask (false ∷ bits) (p ∷ ps) h = ap suc (length-mask bits ps (omega (arith, h)))

pub set-mask :
    (bits : List Bool) (ps : List (List ℕ)) (i : ℕ)
    → get_elem? bits i ≡ some false
    → length bits ≡ length ps
    → set (mask bits ps) i (get_elem? ps i) ≡ mask (set bits i true) ps
set-mask [] ps i h k = refl
set-mask (b ∷ bits) [] i h k = absurd (omega (arith, k))
set-mask (true ∷ bits) (p ∷ ps) zero h k = cc
set-mask (false ∷ bits) (p ∷ ps) zero h k = refl
set-mask (true ∷ bits) (p ∷ ps) (suc i) h k =
    ap (λ m. some p ∷ m) (set-mask bits ps i h (omega (arith, k)))
set-mask (false ∷ bits) (p ∷ ps) (suc i) h k =
    ap (λ m. none ∷ m) (set-mask bits ps i h (omega (arith, k)))

pub is_there-mask :
    (bits : List Bool) (ps : List (List ℕ)) (i : ℕ)
    → get_elem? bits i ≡ some false
    → is_there (get_elem? (mask bits ps) i) ≡ false
is_there-mask [] ps i h = refl
is_there-mask (b ∷ bits) [] i h = refl
is_there-mask (true ∷ bits) (p ∷ ps) zero h = cc
is_there-mask (false ∷ bits) (p ∷ ps) zero h = refl
is_there-mask (true ∷ bits) (p ∷ ps) (suc i) h = is_there-mask bits ps i h
is_there-mask (false ∷ bits) (p ∷ ps) (suc i) h = is_there-mask bits ps i h

-- A buffer with all fragments has all payloads.
pub join_parts-mask :
    (bits : List Bool) (ps : List (List ℕ))
    → count bits ≡ length bits
    → length bits ≡ length ps
    → join_parts (mask bits ps) ≡ join ps
join_parts-mask [] [] h k = refl
join_parts-mask [] (p ∷ ps) h k = absurd (omega (arith, k))
join_parts-mask (b ∷ bits) [] h k = refl
join_parts-mask (true ∷ bits) (p ∷ ps) h k =
    ap (λ v. p ++ v) (join_parts-mask bits ps (omega (arith, h)) (omega (arith, k)))
join_parts-mask (false ∷ bits) (p ∷ ps) h k = absurd (omega (arith, h, count-le-length bits))

pub first_of_full :
    (bits : List Bool) → 0 < length bits → count bits ≡ length bits → get_or bits 0 false ≡ true
first_of_full [] h k = absurd (omega (arith, h))
first_of_full (true ∷ bits) h k = refl
first_of_full (false ∷ bits) h k = absurd (omega (arith, k, count-le-length bits))

pub mask-replicate :
    (ps : List (List ℕ)) → mask (replicate (length ps) false) ps ≡ replicate (length ps) none
mask-replicate [] = refl
mask-replicate (p ∷ ps) = ap (λ m. none ∷ m) (mask-replicate ps)

pub count-replicate : (n : ℕ) → count (replicate n false) ≡ 0
count-replicate zero = refl
count-replicate (suc n) = count-replicate n

-- The first Boolean after one is set.
pub first-set :
    (bits : List Bool) (i : ℕ)
    → get_elem? bits i ≡ some false
    → get_or (set bits i true) 0 false ≡ (if i == 0 then true else get_or bits 0 false)
first-set [] i h = cc
first-set (b ∷ bits) zero h = refl
first-set (b ∷ bits) (suc i) h = ground arith

-- Where one is missing, not all have come.
pub count-lt-length :
    (bits : List Bool) (i : ℕ) → get_elem? bits i ≡ some false → count bits < length bits
count-lt-length bits i h =
    omega (arith, count-set bits i h, length-set bits i true, count-le-length (set bits i true))

pub length_visited :
    (bits : List Bool) (order : List ℕ)
    → Visits bits order
    → count bits + length order ≡ length bits
length_visited bits [] h = omega (arith, h)
length_visited bits (i ∷ order) (missing, rest) = omega (
  arith,
  count-set bits i missing,
  length-set bits i true,
  length_visited (set bits i true) order rest,
)
