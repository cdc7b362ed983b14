-- ===== src/Face/Link.antt =====
-- ndn/l3/face.go: two faces over a link that keeps the order and loses nothing.
use containernet_ndn_dpdk.Shared.{
  ℕ, ◌+◌, ◌-◌, ◌^◌, ◌<◌, ◌≡◌, refl, sym, ap, ◌∙◌, inl, inr, Bool, Option, none, some, List, [], ◌∷◌,
  ◌++◌, arith, lt_or_le, length, take, drop, take-append-drop, length-drop, ok-injective, ok,
  >>=-eq-ok,
}
use containernet_ndn_dpdk.Shared.Int.{pos}
use containernet_ndn_dpdk.Tlv.Element.Wire.{wire_of}
use containernet_ndn_dpdk.Tlv.Encode.{one}
use containernet_ndn_dpdk.Lp
use containernet_ndn_dpdk.Lp.{LpL3, LpFragmenter, split_payload}
use containernet_ndn_dpdk.Lp.Frames.{raw_payloads, raw_payloads-chunks, length-chunks}
use containernet_ndn_dpdk.Lp.Fits.{encode_l3-again}
use containernet_ndn_dpdk.Lp.Splits.{fragment_short, fragment_long}
use containernet_ndn_dpdk.Packet.{Packet}
use containernet_ndn_dpdk.Reassembler.{Lru, LpReassembler}
use containernet_ndn_dpdk.Face.{put_packet, tx_packet, tx_loop, rx_wire, rx_loop}
use containernet_ndn_dpdk.Face.Header.{lp_header}
use containernet_ndn_dpdk.Face.Sent.{IsHeaded-chunks}
use containernet_ndn_dpdk.Face.Whole.{Carries}
use containernet_ndn_dpdk.Face.Cache.{LruLaws, IsIdle}
use containernet_ndn_dpdk.Face.Wires.{Delivers, send_whole, send_parts}

-- A fragmenter for this room, or none.
abbrev pub IsSender : ℕ → Option LpFragmenter → Type 0
IsSender room none = Unit {0}
IsSender room (some fr) = (fr.room ≡ pos room) × (fr.next_seq_num < 2 ^ 64)

module _ (sha256 : List ℕ → List ℕ) (known : ℕ → Bool) where
  -- Packets and what a receiver makes of them, one by one.
  abbrev pub AllCarry : ℕ → List Lp.Packet → List Packet → Type 0
  AllCarry room [] [] = Unit {0}
  AllCarry room [] (out ∷ outs) = ⊥
  AllCarry room (full ∷ fulls) [] = ⊥
  AllCarry room (full ∷ fulls) (out ∷ outs) =
      Carries sha256 known room full out × AllCarry room fulls outs

  module _ {ℓ} {S : Type ℓ} (lru : Lru S) (laws : LruLaws lru) where
    length-raw_payloads :
        (room : ℕ) (lp : LpL3) (header payload : List ℕ)
        → length header < room
        → raw_payloads (split_payload lp header payload (room - length header) room) ≡ payload
    length-raw_payloads room lp header payload some_room =
        ap (λ t. take (room - length header) payload ++ t)
          (raw_payloads-chunks (length payload) room (drop (room - length header) payload)
            (omega (arith, some_room)) (omega (arith, length-drop (room - length header) payload)))
        ∙ take-append-drop (room - length header) payload

    deliver_split :
        (room : ℕ) (fr : LpFragmenter) (full : Lp.Packet) (out : Packet)
        (c : Carries sha256 known room full out) (r : LpReassembler S)
        → IsSender room (some fr)
        → IsIdle lru laws sha256 known r
        → (let (wires, fr') = tx_packet (some fr) full in
            IsSender room fr' × Delivers sha256 known lru laws r wires (out ∷ []))
    deliver_split room fr full out c r (is_room, small) idle =
        let header = lp_header c.lp in
        let payload = wire_of c.e in
        let cs = split_payload c.lp header payload (room - length header) room in
        elim (lt_or_le (length header + length payload) room) [
          | inl short ↦
              rw (fragment_short fr full header payload c.lp room is_room c.encoded short) (
                (is_room, small),
                send_whole sha256 known lru laws room (record full { lp = c.lp }) full out c r
                    c.not_fragment (encode_l3-again full header payload c.lp c.encoded) idle,
              )
          | inr long ↦
              rw
                (fragment_long fr full header payload c.lp room is_room c.encoded c.header_fits
                  long)
                (
                  (is_room, omega arith),
                  send_parts sha256 known lru laws room full out c fr.next_seq_num cs r small
                      (omega arith)
                      (omega (
                        arith,
                        c.payload_short,
                        length-chunks (length payload) room (drop (room - length header) payload)
                            (omega (arith, c.header_fits)),
                        length-drop (room - length header) payload,
                      ))
                      (length-raw_payloads room c.lp header payload c.header_fits)
                      (
                        refl,
                        IsHeaded-chunks (length payload) room (drop (room - length header) payload)
                            c.lp 0,
                      )
                      idle,
                )
        ]

    deliver_one :
        (room : ℕ) (fr : Option LpFragmenter) (full : Lp.Packet) (out : Packet)
        (c : Carries sha256 known room full out) (r : LpReassembler S)
        → IsSender room fr
        → IsIdle lru laws sha256 known r
        → (let (wires, fr') = tx_packet fr full in
            IsSender room fr' × Delivers sha256 known lru laws r wires (out ∷ []))
    deliver_one room none full out c r sender idle =
        (tt, send_whole sha256 known lru laws room full full out c r c.not_fragment c.encoded idle)
    deliver_one room (some fr) full out c r sender idle =
        deliver_split room fr full out c r sender idle

    put_packet-append :
        (pkt : Option Packet) (outs rest : List Packet)
        → put_packet lru sha256 known pkt (outs ++ rest)
          ≡ put_packet lru sha256 known pkt outs ++ rest
    put_packet-append none outs rest = refl
    put_packet-append (some pkt) outs rest = refl

    rx_loop-append :
        (r r1 r2 : LpReassembler S) (ws more : List (List ℕ)) (outs rest : List Packet)
        → rx_loop lru sha256 known r ws ≡ ok (r1, outs)
        → rx_loop lru sha256 known r1 more ≡ ok (r2, rest)
        → rx_loop lru sha256 known r (ws ++ more) ≡ ok (r2, outs ++ rest)
    unfolding rx_loop
    rx_loop-append r r1 r2 [] more outs rest h k =
        let same = ok-injective h in
        let same_r : r ≡ r1 = ap (λ (p : LpReassembler S × List Packet). p.0) same in
        let same_outs : [] ≡ outs = ap (λ (p : LpReassembler S × List Packet). p.1) same in
        rw (same_r, sym same_outs) k
    rx_loop-append r r1 r2 (w ∷ ws) more outs rest h k =
        let ((r', pkt), one, h') = >>=-eq-ok (rx_wire lru sha256 known r w) _ h in
        let ((r'', outs'), run, h'') = >>=-eq-ok (rx_loop lru sha256 known r' ws) _ h' in
        let same = ok-injective h'' in
        let same_r : r'' ≡ r1 = ap (λ (p : LpReassembler S × List Packet). p.0) same in
        let same_outs : put_packet lru sha256 known pkt outs' ≡ outs =
          ap (λ (p : LpReassembler S × List Packet). p.1) same in
        let k' : rx_loop lru sha256 known r'' more ≡ ok (r2, rest) = rw same_r k in
        let run' = rx_loop-append r' r'' r2 ws more outs' rest run k' in
        rw (one, run')
          (ap (λ t. ok (r2, t)) (put_packet-append pkt outs' rest ∙ ap (λ t. t ++ rest) same_outs))

    -- Over a link that keeps the order of the wires and loses none, rxLoop delivers exactly the packets that
    -- txLoop was given, in order, whether it fragments them or not: each as its header and its payload are
    -- decoded. The packets can be encoded, with headers that leave room in the frames and payloads below
    -- 2 ^ 31 - 1 bytes, the reassembler begins with no packet in it and leaves none, and its cache has room
    -- for a packet.
    pub rx_loop-tx_loop :
        (room : ℕ) (fr : Option LpFragmenter) (fulls : List Lp.Packet) (outs : List Packet)
        (r : LpReassembler S)
        → IsSender room fr
        → AllCarry room fulls outs
        → IsIdle lru laws sha256 known r
        → Delivers sha256 known lru laws r (tx_loop fr fulls).0 outs
    unfolding tx_loop rx_loop
    rx_loop-tx_loop room fr [] [] r sender h idle = (r, refl, idle)
    rx_loop-tx_loop room fr [] (out ∷ outs) r sender h idle = absurd h
    rx_loop-tx_loop room fr (full ∷ fulls) [] r sender h idle = absurd h
    rx_loop-tx_loop room fr (full ∷ fulls) (out ∷ outs) r sender (c, cs) idle =
        let (sender', (r1, one, idle1)) = deliver_one room fr full out c r sender idle in
        let (r2, rest, idle2) =
          rx_loop-tx_loop room (tx_packet fr full).1 fulls outs r1 sender' cs idle1 in
        (r2, rx_loop-append r r1 r2 (tx_packet fr full).0 _ (out ∷ []) outs one rest, idle2)
