-- ===== src/Tlv/VarNum.antt =====
-- ndn/tlv/varnum.go: numbers in variable size encoding, for TLV-TYPE and TLV-LENGTH.
-- A byte slice is a list of numbers; a `VarNum` is a number below 2 ^ 64.
pub mod Shape
pub mod RoundTrip
use containernet_ndn_dpdk.Shared.{
  [], ℕ, bit_or, List, ◌∷◌, ◌++◌, ◌&&◌, Result, ok, err, incomplete, ltb, leb, ◌==◌, if◌then◌else◌,
  length, get_or, drop, shl, shr, to_byte,
}

abbrev pub max_u8 : ℕ
max_u8 = 255

abbrev pub max_u16 : ℕ
max_u16 = 65535

abbrev pub max_u32 : ℕ
max_u32 = 4294967295

-- The bytes `byte(n>>8), byte(n)` and so on, most significant first.
abbrev pub bytes2 : ℕ → List ℕ
bytes2 n = to_byte (shr n 8) ∷ to_byte n ∷ []

abbrev pub bytes4 : ℕ → List ℕ
bytes4 n = to_byte (shr n 24) ∷ to_byte (shr n 16) ∷ bytes2 n

abbrev pub bytes8 : ℕ → List ℕ
bytes8 n =
    to_byte (shr n 56) ∷ to_byte (shr n 48) ∷ to_byte (shr n 40) ∷ to_byte (shr n 32) ∷ bytes4 n

-- `(VarNum(b0) << 8) | VarNum(b1)` and so on.
abbrev pub join2 : ℕ → ℕ → ℕ
join2 b0 b1 = bit_or (shl b0 8) b1

abbrev pub join4 : ℕ → ℕ → ℕ → ℕ → ℕ
join4 b0 b1 b2 b3 = bit_or (bit_or (bit_or (shl b0 24) (shl b1 16)) (shl b2 8)) b3

abbrev pub join8 : ℕ → ℕ → ℕ → ℕ → ℕ → ℕ → ℕ → ℕ → ℕ
join8 b0 b1 b2 b3 b4 b5 b6 b7 =
    bit_or
      (bit_or
        (bit_or
          (bit_or (bit_or (bit_or (bit_or (shl b0 56) (shl b1 48)) (shl b2 40)) (shl b3 32))
            (shl b4 24))
          (shl b5 16))
        (shl b6 8))
      b7

unfoldable pub size : ℕ → ℕ
size n = if ltb n 0xfd then 1 else if leb n max_u16 then 3 else if leb n max_u32 then 5 else 9

-- `encode` appends to the buffer.
unfoldable pub encode : ℕ → List ℕ → List ℕ
encode n buf =
    if ltb n 0xfd
    then buf ++ (to_byte n ∷ [])
    else if leb n max_u16
    then buf ++ (0xfd ∷ bytes2 n)
    else if leb n max_u32
    then buf ++ (0xfe ∷ bytes4 n)
    else buf ++ (0xff ∷ bytes8 n)

-- `wire[i]`, where the guards have checked that `i` is in range.
abbrev pub at : List ℕ → ℕ → ℕ
at wire i = get_or wire i 0

unfoldable pub decode : List ℕ → Result (ℕ × List ℕ)
decode wire =
    if leb 1 (length wire) && ltb (at wire 0) 0xfd
    then ok (at wire 0, drop 1 wire)
    else if leb 3 (length wire) && at wire 0 == 0xfd
    then ok (join2 (at wire 1) (at wire 2), drop 3 wire)
    else if leb 5 (length wire) && at wire 0 == 0xfe
    then ok (join4 (at wire 1) (at wire 2) (at wire 3) (at wire 4), drop 5 wire)
    else if leb 9 (length wire) && at wire 0 == 0xff
    then ok (
      join8 (at wire 1) (at wire 2) (at wire 3) (at wire 4) (at wire 5) (at wire 6) (at wire 7)
          (at wire 8),
      drop 9 wire,
    )
    else err incomplete
