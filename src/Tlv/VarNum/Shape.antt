-- ===== src/Tlv/VarNum/Shape.antt =====
-- ndn/tlv/varnum.go: lemmas on the joins of bytes, on sizes and on what Decode consumes.
use containernet_ndn_dpdk.Shared.{
  [], ℕ, ◌+◌, ◌-◌, ◌*◌, ◌^◌, ◌<◌, bit_or, ◌≡◌, refl, sym, ◌∙◌, ◌≢◌, List, ◌∷◌, ◌++◌, arith, length,
  take, drop, All, take-append-drop, length-drop, shr, to_byte, IsByte, bit_or-disjoint, ok, panic,
}
use containernet_ndn_dpdk.Tlv.VarNum.{size, encode, decode, join2, join4, join8}

pub join2_lem : (a b : ℕ) → IsByte b → join2 a b ≡ a * 256 + b
join2_lem a b hb = bit_or-disjoint 8 a b hb

-- One more field `t`, below the multiple of 2 ^ j that is there.
join_at : (j h t : ℕ) {x y : ℕ} → t < 2 ^ j → y ≡ h * 2 ^ j → x ≡ y → bit_or x t ≡ y + t
join_at j h t fits e p = rw (p, e) (bit_or-disjoint j h t fits)

pub join4_lem :
    (a b c d : ℕ)
    → IsByte b
    → IsByte c
    → IsByte d
    → join4 a b c d ≡ a * 16777216 + b * 65536 + c * 256 + d
join4_lem a b c d hb hc hd = join_at 8 (a * 65536 + b * 256 + c) d hd (omega arith) (
    join_at 16 (a * 256 + b) (c * 256) (omega arith) (omega arith)
      (join_at 24 a (b * 65536) (omega arith) refl refl))

pub join8_lem :
    (a b c d e f g h : ℕ)
    → IsByte b
    → IsByte c
    → IsByte d
    → IsByte e
    → IsByte f
    → IsByte g
    → IsByte h
    → join8 a b c d e f g h
      ≡ a * 2 ^ 56 + b * 2 ^ 48 + c * 2 ^ 40 + d * 2 ^ 32 + e * 2 ^ 24 + f * 2 ^ 16 + g * 2 ^ 8 + h
join8_lem a b c d e f g h hb hc hd he hf hg hh =
    let w2 = a * 256 + b in
    let w3 = w2 * 256 + c in
    let w4 = w3 * 256 + d in
    let w5 = w4 * 256 + e in
    let w6 = w5 * 256 + f in
    join_at 8 (w6 * 256 + g) h hh (omega arith) (
      join_at 16 w6 (g * 2 ^ 8) (omega arith) (omega arith) (
        join_at 24 w5 (f * 2 ^ 16) (omega arith) (omega arith) (
          join_at 32 w4 (e * 2 ^ 24) (omega arith) (omega arith) (
            join_at 40 w3 (d * 2 ^ 32) (omega arith) (omega arith) (
              join_at 48 w2 (c * 2 ^ 40) (omega arith) (omega arith)
                (join_at 56 a (b * 2 ^ 48) (omega arith) refl refl))))))

-- The bytes of a number joined again.
pub join2-bytes : (n : ℕ) → n < 2 ^ 16 → join2 (to_byte (shr n 8)) (to_byte n) ≡ n
join2-bytes n h = omega (arith, join2_lem (to_byte (shr n 8)) (to_byte n) (omega arith))

pub join4-bytes :
    (n : ℕ)
    → n < 2 ^ 32
    → join4 (to_byte (shr n 24)) (to_byte (shr n 16)) (to_byte (shr n 8)) (to_byte n) ≡ n
join4-bytes n h = join4_lem _ _ _ _ (omega arith) (omega arith) (omega arith) ∙ omega arith

pub join8-bytes :
    (n : ℕ)
    → n < 2 ^ 64
    → join8
        (to_byte (shr n 56))
        (to_byte (shr n 48))
        (to_byte (shr n 40))
        (to_byte (shr n 32))
        (to_byte (shr n 24))
        (to_byte (shr n 16))
        (to_byte (shr n 8))
        (to_byte n)
      ≡ n
join8-bytes n h =
    join8_lem (to_byte (shr n 56)) (to_byte (shr n 48)) (to_byte (shr n 40)) (to_byte (shr n 32))
      (to_byte (shr n 24)) (to_byte (shr n 16)) (to_byte (shr n 8)) (to_byte n) (omega arith)
      (omega arith) (omega arith) (omega arith) (omega arith) (omega arith) (omega arith)
    ∙ omega arith

pub encode-append : (n : ℕ) (buf : List ℕ) → encode n buf ≡ buf ++ encode n []
unfolding encode
encode-append n buf = ground arith

pub length-encode : (n : ℕ) → length (encode n []) ≡ size n
unfolding encode size
length-encode n = ground arith

pub All-encode : (n : ℕ) → All IsByte (encode n [])
unfolding encode
All-encode n = ground arith

pub decode_consumes :
    (wire : List ℕ) (n : ℕ) (rest : List ℕ)
    → decode wire ≡ ok (n, rest)
    → (length rest < length wire) × (drop (length wire - length rest) wire ≡ rest)
unfolding decode
decode_consumes [] n rest h = cc
decode_consumes (x ∷ wire) n rest h =
    ground (arith, length-drop 2 wire, length-drop 4 wire, length-drop 8 wire)

pub decode_bounded :
    (wire : List ℕ) (n : ℕ) (rest : List ℕ)
    → All IsByte wire
    → decode wire ≡ ok (n, rest)
    → n < 2 ^ 64
unfolding decode
decode_bounded [] n rest hb h = cc
decode_bounded (a ∷ []) n rest hb h = ground arith
decode_bounded (a ∷ b ∷ c ∷ d ∷ e ∷ f ∷ g ∷ i ∷ j ∷ w) n rest hb h =
    ground (arith, join2_lem b c, join4_lem b c d e, join8_lem b c d e f g i j)
decode_bounded (a ∷ b ∷ c ∷ d ∷ e ∷ w) n rest hb h =
    ground (arith, join2_lem b c, join4_lem b c d e)
decode_bounded (a ∷ b ∷ c ∷ w) n rest hb h = ground (arith, join2_lem b c)
decode_bounded (a ∷ b ∷ w) n rest hb h = ground arith

-- What a decode has consumed stands in front of the rest, and is one byte at least.
pub decode_front :
    (wire : List ℕ) (n : ℕ) (rest : List ℕ)
    → decode wire ≡ ok (n, rest)
    → (front : List ℕ) × (wire ≡ front ++ rest) × (length rest < length wire)
decode_front wire n rest h =
    let (less, e) = decode_consumes wire n rest h in
    let k = length wire - length rest in
    (take k wire, sym (rw e at (take-append-drop k wire)), less)

pub decode-ne-panic : (wire : List ℕ) → decode wire ≢ panic
unfolding decode
decode-ne-panic wire e = ground arith
