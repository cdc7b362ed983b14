-- ===== src/Tests/Fragments.antt =====
-- ndn/lp.go on a packet of ten bytes with a PIT token.
use containernet_ndn_dpdk.Shared.{
  ℕ, ◌-◌, ◌^◌, ◌≡◌, refl, none, List, [], ◌∷◌, arith, length, All, Result, ok, ◌>>=◌,
}
use containernet_ndn_dpdk.Shared.Int.{pos, ◌-ℤ◌}
use containernet_ndn_dpdk.Tlv.VarNum
use containernet_ndn_dpdk.Tlv.Encode.{
  bytes, tlv, tlv_bytes, encode_all, encode_tlv_finish, append_all, append, output, encode,
}
use containernet_ndn_dpdk.Lp.{
  LpL3, Packet, data_field, LpFragmenter, encode_l3, encode_lp, fragment_packet, new_lp_fragmenter,
  number, chunks,
}
use containernet_ndn_dpdk.Lp.Frames.{payloads}
use containernet_ndn_dpdk.Lp.Fits.{FitsIn}
use containernet_ndn_dpdk.Lp.Mtu.{fragment_within_mtu}

abbrev ten_bytes : List ℕ
ten_bytes = 1 ∷ 2 ∷ 3 ∷ 4 ∷ 5 ∷ 6 ∷ 7 ∷ 8 ∷ 9 ∷ 10 ∷ []

abbrev with_token : LpL3
with_token = record { pit_token = 9 ∷ []; nack_reason = 0; cong_mark = 0 }

abbrev ten : Packet
ten = record { lp = with_token; l3 = data_field (bytes ten_bytes); frag = none }

abbrev token_header : List ℕ
token_header = 0x62 ∷ 1 ∷ 9 ∷ []

encode_ten : encode_l3 ten ≡ ok (token_header, ten_bytes, with_token)
unfolding encode_l3 encode_lp encode_all append_all append output encode tlv_bytes tlv
    encode_tlv_finish VarNum.encode
encode_ten = refl

abbrev fragmenter : LpFragmenter
fragmenter = record { next_seq_num = 2 ^ 64 - 1; room = pos 10 }

abbrev seen : List Packet × LpFragmenter → Result (List ℕ × ℕ × ℕ)
seen (frags, fr) = ok (payloads frags, length frags, fr.next_seq_num)

fragment_ten : fragment_packet fragmenter ten >>= seen ≡ ok (ten_bytes, 2, 1)
unfolding fragment_packet encode_l3 number chunks ◌-ℤ◌
fragment_ten = rw encode_ten

fragment_within_mtu_example :
    (frags : List Packet) × (fr : LpFragmenter) × (fragment_packet (new_lp_fragmenter 7 36) ten
      ≡ ok (frags, fr))
    × All (FitsIn 36) frags
fragment_within_mtu_example =
    fragment_within_mtu 7 36 ten token_header ten_bytes with_token (omega arith) (omega arith) refl
      encode_ten (omega arith) (omega arith)
