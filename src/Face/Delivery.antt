-- ===== src/Face/Delivery.antt =====
-- ndn/l3/face.go: Data over two faces.
use containernet_ndn_dpdk.Shared.{
  ℕ, ◌-◌, ◌^◌, ◌<◌, refl, Bool, Option, none, some, List, [], ◌∷◌, map, arith, length,
}
use containernet_ndn_dpdk.Tlv.Encode.Writes.{tlv_of, tlv_of-IsElement, encode_all-Joins}
use containernet_ndn_dpdk.Lp
use containernet_ndn_dpdk.Lp.{LpL3, LpFragmenter, encode_l3, encode_lp}
use containernet_ndn_dpdk.Data.{Data, Origin}
use containernet_ndn_dpdk.Data
use containernet_ndn_dpdk.Data.Meta.{IsData}
use containernet_ndn_dpdk.Data.RoundTrip.{
  data_value, received, encode-data_field, unmarshal-data_value,
}
use containernet_ndn_dpdk.Packet.{Packet, no_packet, decode_l3}
use containernet_ndn_dpdk.Reassembler.{Lru, LpReassembler}
use containernet_ndn_dpdk.Face.{tx_loop}
use containernet_ndn_dpdk.Face.Header.{lp_header, IsLp, Joins-lp, wire_of-short}
use containernet_ndn_dpdk.Face.Frame.{append_one}
use containernet_ndn_dpdk.Face.Cache.{LruLaws, IsIdle}
use containernet_ndn_dpdk.Face.Whole.{Carries}
use containernet_ndn_dpdk.Face.Link.{AllCarry, IsSender, rx_loop-tx_loop}
use containernet_ndn_dpdk.Face.Wires.{Delivers}

-- The packet of a Data with a header, which has no NackReason then.
abbrev pub no_nack : LpL3 → LpL3
no_nack lp = record lp { nack_reason = 0 }

abbrev pub packet_of : LpL3 × Data → Lp.Packet
packet_of (lp, d) = record { lp = lp; l3 = Lp.data_field (Data.data_field d); frag = none }

-- What a receiver makes of it.
abbrev pub received_packet : LpL3 × Data → Packet
received_packet (lp, d) =
    let o : Origin = record { l3_type = 0x06; l3_value = data_value d; l3_digest = none } in
    record no_packet {
      lp = no_nack lp;
      origin = o;
      data_in = some (record (received d) { origin = some o });
    }

module _ (sha256 : List ℕ → List ℕ) (known : ℕ → Bool) where
  -- A Data that can be sent: its parts can be encoded, its header leaves room and its value is below 2 ^ 31 - 20 bytes.
  pub record IsSendable (room : ℕ) (lp : LpL3) (d : Data) : Type 0 where
    pub good_data : IsData known d
    pub good_lp : IsLp lp
    pub header_fits : length (lp_header (no_nack lp)) < room
    pub header_short : length (lp_header (no_nack lp)) < 2 ^ 62
    pub value_short : length (data_value d) < 2 ^ 31 - 20

  pub Carries-data :
      (room : ℕ) (lp : LpL3) (d : Data)
      → IsSendable room lp d
      → Carries sha256 known room (packet_of (lp, d)) (received_packet (lp, d))
  unfolding encode_l3 decode_l3
  Carries-data room lp d h = record {
    lp = no_nack lp;
    e = tlv_of 0x06 (data_value d);
    encoded =
        rw
          (
            append_one (Data.data_field d) _ (encode-data_field known d h.good_data),
            encode_all-Joins (encode_lp (no_nack lp)) _ (Joins-lp (no_nack lp)),
          )
          refl;
    not_fragment = refl;
    good_header = record {
      token_short = h.good_lp.token_short;
      reason_bound = omega arith;
      mark_bound = h.good_lp.mark_bound;
    };
    header_fits = h.header_fits;
    header_short = h.header_short;
    good_payload = tlv_of-IsElement 0x06 (data_value d) refl (omega (arith, h.value_short));
    payload_short = omega (arith, h.value_short, wire_of-short (tlv_of 0x06 (data_value d)));
    decoded = rw (unmarshal-data_value known d h.good_data) refl;
  }

  abbrev pub AllSendable : ℕ → List (LpL3 × Data) → Type 0
  AllSendable room [] = Unit {0}
  AllSendable room ((lp, d) ∷ sent) = IsSendable room lp d × AllSendable room sent

  all_carry :
      (room : ℕ) (sent : List (LpL3 × Data))
      → AllSendable room sent
      → AllCarry sha256 known room (map packet_of sent) (map received_packet sent)
  all_carry room [] h = tt
  all_carry room ((lp, d) ∷ sent) (h, hs) = (Carries-data room lp d h, all_carry room sent hs)

  -- Over a link that keeps the order of the wires and loses none, the Data that txLoop was given, whole or
  -- in fragments, come out of rxLoop in order, each with its PIT token and congestion mark; of a Data what
  -- UnmarshalBinary keeps. The reassembler has no packet in it before and after.
  pub rx_loop-tx_loop_data {ℓ} :
      {S : Type ℓ} (lru : Lru S) (laws : LruLaws lru) (room : ℕ) (fr : Option LpFragmenter)
      (sent : List (LpL3 × Data)) (r : LpReassembler S)
      → IsSender room fr
      → AllSendable room sent
      → IsIdle lru laws sha256 known r
      → Delivers sha256 known lru laws r
          (tx_loop fr (map packet_of sent)).0
          (map received_packet sent)
  rx_loop-tx_loop_data lru laws room fr sent r sender h idle =
      rx_loop-tx_loop sha256 known lru laws room fr (map packet_of sent) (map received_packet sent)
        r sender (all_carry room sent h) idle
