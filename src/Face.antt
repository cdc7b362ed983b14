-- ===== src/Face.antt =====
-- ndn/l3/face.go: a layer 3 face over a transport. What comes out of the transport's Rx channel, and what is
-- sent on the channels Tx of the transport and Rx of the face, are lists.
pub mod Header
pub mod Frame
pub mod Cache
pub mod InOrder
pub mod Sent
pub mod Whole
pub mod Wires
pub mod Link
pub mod Delivery
use containernet_ndn_dpdk.Shared.{
  ℕ, max, Bool, Option, none, some, List, [], ◌∷◌, ◌++◌, if◌then◌else◌, Result, ok, err, panic,
  ◌>>=◌,
}
use containernet_ndn_dpdk.Shared.Int.{ℤ, pos, pos_part, ltb_ℤ}
use containernet_ndn_dpdk.Tlv.Decode.{decode}
use containernet_ndn_dpdk.Tlv.Encode.{one, encode_all}
use containernet_ndn_dpdk.Lp
use containernet_ndn_dpdk.Lp.{LpL3, LpFragmenter, new_lp_fragmenter, packet_field, fragment_packet}
use containernet_ndn_dpdk.Packet.{Packet, RxFragment, unmarshal_packet}
use containernet_ndn_dpdk.Reassembler.{Lru, LpReassembler, new_lp_reassembler, accept}

-- MinReassemblerCapacity
abbrev pub min_reassembler_capacity : ℕ
min_reassembler_capacity = 16

-- FaceConfig.applyDefaults
abbrev pub reassembler_capacity : ℤ → ℕ
reassembler_capacity capacity = max (pos_part capacity) min_reassembler_capacity

-- face, without its channels.
pub record Face {ℓ} (S : Type ℓ) : Type ℓ where
  pub fragmenter : Option LpFragmenter
  pub reassembler : LpReassembler S

-- NewFace, with the MTU of the transport, the capacity of the FaceConfig and the random number that is drawn.
unfoldable pub new_face {ℓ} : {S : Type ℓ} → (ℕ → S) → ℕ → ℤ → ℤ → Face S
new_face new_lru draw mtu capacity = record {
  fragmenter = if ltb_ℤ (pos 0) mtu then some (new_lp_fragmenter draw (pos_part mtu)) else none;
  reassembler = new_lp_reassembler new_lru (reassembler_capacity capacity);
}

-- txFrames
abbrev pub put_wire : Result (List ℕ) → List (List ℕ) → List (List ℕ)
put_wire (ok wire) wires = wire ∷ wires
put_wire (err e) wires = wires
put_wire panic wires = wires

unfoldable pub tx_frames : List Lp.Packet → List (List ℕ)
tx_frames [] = []
tx_frames (frame ∷ frames) = put_wire (encode_all (one (packet_field frame))) (tx_frames frames)

-- A round of txLoop: the frames, and the fragmenter.
abbrev pub tx_fragments :
    LpFragmenter → Result (List Lp.Packet × LpFragmenter) → List (List ℕ) × Option LpFragmenter
tx_fragments fragmenter (ok (frags, next)) = (tx_frames frags, some next)
tx_fragments fragmenter (err e) = ([], some fragmenter)
tx_fragments fragmenter panic = ([], some fragmenter)

abbrev pub tx_packet : Option LpFragmenter → Lp.Packet → List (List ℕ) × Option LpFragmenter
tx_packet none pkt = (tx_frames (pkt ∷ []), none)
tx_packet (some fragmenter) pkt = tx_fragments fragmenter (fragment_packet fragmenter pkt)

-- txLoop over the packets of the Tx channel.
unfoldable pub tx_loop : Option LpFragmenter → List Lp.Packet → List (List ℕ) × Option LpFragmenter
tx_loop fragmenter [] = ([], fragmenter)
tx_loop fragmenter (pkt ∷ pkts) =
    let (wires, fragmenter') = tx_packet fragmenter pkt in
    let (more, last) = tx_loop fragmenter' pkts in (wires ++ more, last)

module _ {ℓ} {S : Type ℓ} (lru : Lru S) (sha256 : List ℕ → List ℕ) (known : ℕ → Bool) where
  abbrev pub put_packet : Option Packet → List Packet → List Packet
  put_packet none pkts = pkts
  put_packet (some pkt) pkts = pkt ∷ pkts

  -- The packet that Accept returns, if it has no error.
  abbrev pub rx_fragment :
      LpReassembler S → LpL3 → RxFragment → Result (LpReassembler S × Option Packet)
  rx_fragment r lp f = accept lru sha256 known r lp f >>= λ (r', full, failed).
      ok (r', elim failed [ none ↦ full | some e ↦ none ])

  -- A round of rxLoop on a packet that was decoded, which goes to the Rx channel of the face.
  abbrev pub rx_one : LpReassembler S → Packet → Result (LpReassembler S × Option Packet)
  rx_one r pkt = elim pkt.fragment_in [ none ↦ ok (r, some pkt) | some f ↦ rx_fragment r pkt.lp f ]

  abbrev pub rx_decoded : LpReassembler S → Result Packet → Result (LpReassembler S × Option Packet)
  rx_decoded r (ok pkt) = rx_one r pkt
  rx_decoded r (err e) = ok (r, none)
  rx_decoded r panic = panic

  pub rx_wire : LpReassembler S → List ℕ → Result (LpReassembler S × Option Packet)
  rx_wire r wire = rx_decoded r (decode wire (unmarshal_packet sha256 known))

  -- rxLoop over the wires of the transport.
  unfoldable pub rx_loop : LpReassembler S → List (List ℕ) → Result (LpReassembler S × List Packet)
  rx_loop r [] = ok (r, [])
  rx_loop r (wire ∷ wires) = rx_wire r wire >>= λ (r', pkt).
      rx_loop r' wires >>= λ (last, pkts). ok (last, put_packet pkt pkts)
