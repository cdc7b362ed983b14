-- ===== src/Lp/Frames.antt =====
-- ndn/lp.go: what Fragment splits a payload into.
use containernet_ndn_dpdk.Shared.{
  ℕ, zero, suc, ◌+◌, ◌%◌, ◌^◌, ◌≤◌, ◌<◌, ◌≡◌, refl, ap, ◌∙◌, none, some, List, [], ◌∷◌, ◌++◌, arith,
  length, take, drop, All, take-append-drop, length-take, length-drop,
}
use containernet_ndn_dpdk.Lp.{LpL3, LpFragment, Packet, chunks, number}

-- The fragments of packets, and the payloads of these, one after the other.
abbrev pub payloads : List Packet → List ℕ
payloads [] = []
payloads (p ∷ ps) = (elim p.frag [ some f ↦ f.payload | none ↦ [] ]) ++ payloads ps

-- Their headers.
abbrev pub headers : List Packet → List ℕ
headers [] = []
headers (p ∷ ps) = (elim p.frag [ some f ↦ f.header | none ↦ [] ]) ++ headers ps

-- The fragments before they are numbered.
abbrev pub raw_payloads : List (LpL3 × LpFragment) → List ℕ
raw_payloads [] = []
raw_payloads ((lp, f) ∷ fs) = f.payload ++ raw_payloads fs

pub payloads-number :
    (fs : List (LpL3 × LpFragment)) (seq i n : ℕ) → payloads (number seq i n fs) ≡ raw_payloads fs
unfolding number
payloads-number [] seq i n = refl
payloads-number ((lp, f) ∷ fs) seq i n =
    ap (λ t. f.payload ++ t) (payloads-number fs ((seq + 1) % 2 ^ 64) (suc i) n)

pub raw_payloads-chunks :
    (fuel room : ℕ) (payload : List ℕ)
    → 0 < room
    → length payload ≤ fuel
    → raw_payloads (chunks fuel room payload) ≡ payload
unfolding chunks
raw_payloads-chunks zero room [] pos_room h = refl
raw_payloads-chunks zero room (x ∷ payload) pos_room h = absurd (omega arith)
raw_payloads-chunks (suc fuel) room [] pos_room h = refl
raw_payloads-chunks (suc fuel) room (x ∷ payload) pos_room h =
    ap (λ t. take room (x ∷ payload) ++ t)
      (raw_payloads-chunks fuel room (drop room (x ∷ payload)) pos_room
        (omega (arith, length-drop room (x ∷ payload))))
    ∙ take-append-drop room (x ∷ payload)

pub headers-number-chunks :
    (fuel room : ℕ) (payload : List ℕ) (seq i n : ℕ)
    → headers (number seq i n (chunks fuel room payload)) ≡ []
unfolding number chunks
headers-number-chunks zero room payload seq i n = refl
headers-number-chunks (suc fuel) room [] seq i n = refl
headers-number-chunks (suc fuel) room (x ∷ payload) seq i n =
    headers-number-chunks fuel room (drop room (x ∷ payload)) ((seq + 1) % 2 ^ 64) (suc i) n

-- A fragment takes at most `room` bytes, header and payload.
abbrev pub IsWithin : ℕ → LpL3 × LpFragment → Type 0
IsWithin room (lp, f) = length f.header + length f.payload ≤ room

pub chunks-IsWithin :
    (fuel room : ℕ) (payload : List ℕ) → All (IsWithin room) (chunks fuel room payload)
unfolding chunks
chunks-IsWithin zero room payload = tt
chunks-IsWithin (suc fuel) room [] = tt
chunks-IsWithin (suc fuel) room (x ∷ payload) = (
  omega (arith, length-take room (x ∷ payload)),
  chunks-IsWithin fuel room (drop room (x ∷ payload)),
)

-- A numbered fragment with its place.
pub record IsNumbered (room n seq i : ℕ) (p : Packet) : Type 0 where
  pub f : LpFragment
  pub given : p.frag ≡ some f
  pub in_room : length f.header + length f.payload ≤ room
  pub in_order : f.frag_index ≡ i
  pub in_range : i < n
  pub counted : f.frag_count ≡ n
  pub in_sequence : f.seq_num ≡ (seq + i) % 2 ^ 64

-- A property of each packet with its index.
abbrev pub AllFrom : (ℕ → Packet → Type 0) → ℕ → List Packet → Type 0
AllFrom P i [] = Unit {0}
AllFrom P i (p ∷ ps) = P i p × AllFrom P (suc i) ps

pub number-IsNumbered :
    (fs : List (LpL3 × LpFragment)) (room seq start i n : ℕ)
    → All (IsWithin room) fs
    → i + length fs ≤ n
    → seq ≡ (start + i) % 2 ^ 64
    → AllFrom (IsNumbered room n start) i (number seq i n fs)
unfolding number
number-IsNumbered [] room seq start i n h k e = tt
number-IsNumbered ((lp, f) ∷ fs) room seq start i n (hf, hfs) k e = (
  record {
    f = record f { seq_num = seq; frag_index = i; frag_count = n };
    given = refl;
    in_room = hf;
    in_order = refl;
    in_range = omega arith;
    counted = refl;
    in_sequence = e;
  },
  number-IsNumbered fs room ((seq + 1) % 2 ^ 64) start (suc i) n hfs (omega arith) (omega arith),
)

pub length-number :
    (fs : List (LpL3 × LpFragment)) (seq i n : ℕ) → length (number seq i n fs) ≡ length fs
unfolding number
length-number [] seq i n = refl
length-number ((lp, f) ∷ fs) seq i n = ap suc (length-number fs ((seq + 1) % 2 ^ 64) (suc i) n)

-- A round of the loop takes a byte at least.
pub length-chunks :
    (fuel room : ℕ) (payload : List ℕ)
    → 0 < room
    → length (chunks fuel room payload) ≤ length payload
unfolding chunks
length-chunks zero room payload pos_room = omega arith
length-chunks (suc fuel) room [] pos_room = omega arith
length-chunks (suc fuel) room (x ∷ payload) pos_room = omega (
  arith,
  length-chunks fuel room (drop room (x ∷ payload)) pos_room,
  length-drop room (x ∷ payload),
)
