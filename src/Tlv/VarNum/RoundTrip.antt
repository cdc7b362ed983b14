-- ===== src/Tlv/VarNum/RoundTrip.antt =====
-- ndn/tlv/varnum.go: Decode after Encode.
use containernet_ndn_dpdk.Shared.{[], ℕ, ◌^◌, ◌<◌, List, ◌++◌, ok, ◌≡◌, arith}
use containernet_ndn_dpdk.Tlv.VarNum.{encode, decode}
use containernet_ndn_dpdk.Tlv.VarNum.Shape.{join2-bytes, join4-bytes, join8-bytes}

-- Decode reads back any 64-bit number that Encode wrote, and leaves the bytes behind it.
pub decode-encode :
    (n : ℕ) (rest : List ℕ) → n < 2 ^ 64 → decode (encode n [] ++ rest) ≡ ok (n, rest)
unfolding decode encode
decode-encode n rest h = ground (arith, join2-bytes n, join4-bytes n, join8-bytes n)
