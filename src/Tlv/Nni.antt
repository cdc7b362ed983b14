-- ===== src/Tlv/Nni.antt =====
-- ndn/tlv/nni.go: non-negative integers of 1, 2, 4 or 8 bytes.
pub mod RoundTrip
use containernet_ndn_dpdk.Shared.{
  [], ℕ, List, ◌∷◌, ◌++◌, leb, if◌then◌else◌, to_byte, Result, ok, err, incomplete,
}
use containernet_ndn_dpdk.Tlv.VarNum.{
  max_u8, max_u16, max_u32, bytes2, bytes4, bytes8, join2, join4, join8,
}

unfoldable pub size : ℕ → ℕ
size n = if leb n max_u8 then 1 else if leb n max_u16 then 2 else if leb n max_u32 then 4 else 8

-- `encode` appends to the buffer.
unfoldable pub encode : ℕ → List ℕ → List ℕ
encode n b =
    if leb n max_u8
    then b ++ (to_byte n ∷ [])
    else if leb n max_u16
    then b ++ bytes2 n
    else if leb n max_u32
    then b ++ bytes4 n
    else b ++ bytes8 n

-- The switch on len(wire) is the patterns.
unfoldable pub unmarshal_binary : List ℕ → Result ℕ
unmarshal_binary (a ∷ []) = ok a
unmarshal_binary (a ∷ b ∷ []) = ok (join2 a b)
unmarshal_binary (a ∷ b ∷ c ∷ d ∷ []) = ok (join4 a b c d)
unmarshal_binary (a ∷ b ∷ c ∷ d ∷ e ∷ f ∷ g ∷ h ∷ []) = ok (join8 a b c d e f g h)
unmarshal_binary _ = err incomplete
