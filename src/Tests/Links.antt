-- ===== src/Tests/Links.antt =====
-- ndn/l3/face.go on two Data, with a cache that evicts nothing and a digest that keeps the first byte.
use containernet_ndn_dpdk.Shared.{
  ℕ, ◌-◌, ◌^◌, ◌<◌, refl, Option, none, some, List, [], ◌∷◌, map, arith, ◌==◌, if◌then◌else◌,
  length, take,
}
use containernet_ndn_dpdk.Shared.Int.{pos}
use containernet_ndn_dpdk.Tlv.VarNum
use containernet_ndn_dpdk.Tlv.Nni
use containernet_ndn_dpdk.Name.Component.{valid}
use containernet_ndn_dpdk.Lp.{LpL3, LpFragmenter}
use containernet_ndn_dpdk.Data.{Data, meta_fields}
use containernet_ndn_dpdk.Reassembler.{Lru, LpReassembler, new_lp_reassembler}
use containernet_ndn_dpdk.Face.{new_face, tx_loop}
use containernet_ndn_dpdk.Face.Header.{lp_header, IsLp}
use containernet_ndn_dpdk.Face.Cache.{LruLaws}
use containernet_ndn_dpdk.Face.Link.{rx_loop-tx_loop}
use containernet_ndn_dpdk.Face.Wires.{Delivers}
use containernet_ndn_dpdk.Face.Delivery.{
  packet_of, received_packet, IsSendable, Carries-data, rx_loop-tx_loop_data,
}
use containernet_ndn_dpdk.Tests.Packets.{unknown, some_data, some_data-IsData}

-- A cache that evicts nothing.
abbrev fun_lru : Lru (ℕ → Option ℕ)
fun_lru = record {
  lru_get = λ s k. (s k, s);
  lru_add = λ s k h j. if j == k then some h else s j;
  lru_remove = λ s k j. if j == k then none else s j;
}

abbrev fun_lru-LruLaws : LruLaws fun_lru
fun_lru-LruLaws = record {
  holds = λ s k. s k;
  get_is = λ s k. refl;
  holds_get = λ s k j. refl;
  holds_add = λ s k h. ground arith;
  holds_add_other = λ s k h j other free. ground (arith, other, free);
  holds_remove = λ s k. ground arith;
  holds_remove_other = λ s k j other. ground (arith, other);
}

abbrev marked : LpL3
marked = record { pit_token = 9 ∷ []; nack_reason = 7; cong_mark = 1 }

abbrev plain : LpL3
plain = record { pit_token = []; nack_reason = 0; cong_mark = 0 }

abbrev sent : List (LpL3 × Data)
sent = (marked, some_data) ∷ (plain, some_data) ∷ []

abbrev digest : List ℕ → List ℕ
digest bytes = take 1 bytes

-- The room of 20 bytes splits the first packet, and the sequence numbers wrap.
abbrev sender : LpFragmenter
sender = record { next_seq_num = 2 ^ 64 - 1; room = pos 20 }

abbrev receiver : LpReassembler (ℕ → Option ℕ)
receiver = (new_face (λ capacity k. none) 0 (pos 0) (pos 0)).reassembler

sendable :
    (lp : LpL3)
    → IsLp lp
    → length (lp_header (record lp { nack_reason = 0 })) < 20
    → IsSendable digest unknown 20 lp some_data
unfolding VarNum.encode Nni.encode meta_fields valid
sendable lp h room = record {
  good_data = some_data-IsData;
  good_lp = h;
  header_fits = room;
  header_short = omega (arith, room);
  value_short = omega arith;
}

marked-IsLp : IsLp marked
marked-IsLp = record {
  token_short = omega arith;
  reason_bound = omega arith;
  mark_bound = omega arith;
}

plain-IsLp : IsLp plain
plain-IsLp = record {
  token_short = omega arith;
  reason_bound = omega arith;
  mark_bound = omega arith;
}

marked_fits : length (lp_header (record marked { nack_reason = 0 })) < 20
unfolding VarNum.encode Nni.encode
marked_fits = omega arith

rx_loop-tx_loop_data_example :
    Delivers digest unknown fun_lru fun_lru-LruLaws receiver
      (tx_loop (some sender) (map packet_of sent)).0
      (map received_packet sent)
unfolding new_face new_lp_reassembler
rx_loop-tx_loop_data_example =
    rx_loop-tx_loop_data digest unknown fun_lru fun_lru-LruLaws 20 (some sender) sent receiver
      (refl, omega arith)
      (sendable marked marked-IsLp marked_fits, (sendable plain plain-IsLp (omega arith), tt))
      (λ k. refl)

rx_loop-tx_loop_example :
    Delivers digest unknown fun_lru fun_lru-LruLaws receiver
      (tx_loop (some sender) (packet_of (marked, some_data) ∷ [])).0
      (received_packet (marked, some_data) ∷ [])
unfolding new_face new_lp_reassembler
rx_loop-tx_loop_example =
    rx_loop-tx_loop digest unknown fun_lru fun_lru-LruLaws 20 (some sender)
      (packet_of (marked, some_data) ∷ []) (received_packet (marked, some_data) ∷ []) receiver
      (refl, omega arith)
      (
        Carries-data digest unknown 20 marked some_data (sendable marked marked-IsLp marked_fits),
        tt,
      )
      (λ k. refl)
