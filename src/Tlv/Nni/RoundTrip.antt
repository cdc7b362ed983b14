-- ===== src/Tlv/Nni/RoundTrip.antt =====
-- ndn/tlv/nni.go: Encode and UnmarshalBinary.
use containernet_ndn_dpdk.Shared.{
  [], ℕ, ◌^◌, ◌≤◌, ◌<◌, ◌≡◌, List, ◌∷◌, ◌++◌, arith, length, All, IsByte, ok,
}
use containernet_ndn_dpdk.Tlv.VarNum.Shape.{
  join2_lem, join4_lem, join8_lem, join2-bytes, join4-bytes, join8-bytes,
}
use containernet_ndn_dpdk.Tlv.Nni.{size, encode, unmarshal_binary}

pub encode-append : (n : ℕ) (b : List ℕ) → encode n b ≡ b ++ encode n []
unfolding encode
encode-append n b = ground arith

pub length-encode : (n : ℕ) → length (encode n []) ≡ size n
unfolding encode size
length-encode n = ground arith

pub All-encode : (n : ℕ) → All IsByte (encode n [])
unfolding encode
All-encode n = ground arith

-- Decoding what `Encode` wrote for a 64-bit number gives the number back.
pub unmarshal_binary-encode : (n : ℕ) → n < 2 ^ 64 → unmarshal_binary (encode n []) ≡ ok n
unfolding encode unmarshal_binary
unmarshal_binary-encode n h = ground (arith, join2-bytes n, join4-bytes n, join8-bytes n)

-- A value decoded from bytes, of which there are 8 at most, fits as many bytes, and Size is no more
-- than these.
pub unmarshal_binary_fits :
    (wire : List ℕ) (n : ℕ)
    → All IsByte wire
    → unmarshal_binary wire ≡ ok n
    → (n < 256 ^ length wire) × (size n ≤ length wire) × (length wire ≤ 8)
unfolding unmarshal_binary size
unmarshal_binary_fits (a ∷ []) n hb h = ground arith
unmarshal_binary_fits (a ∷ b ∷ []) n hb h = ground (arith, join2_lem a b)
unmarshal_binary_fits (a ∷ b ∷ c ∷ d ∷ []) n hb h = ground (arith, join4_lem a b c d)
unmarshal_binary_fits (a ∷ b ∷ c ∷ d ∷ e ∷ f ∷ g ∷ i ∷ []) n hb h =
    ground (arith, join8_lem a b c d e f g i)
unmarshal_binary_fits _ n hb h = cc

pub size-le : (n : ℕ) → size n ≤ 8
unfolding size
size-le n = ground arith
