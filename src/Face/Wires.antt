-- ===== src/Face/Wires.antt =====
-- ndn/l3/face.go: what rxLoop makes of the wires of one packet.
use containernet_ndn_dpdk.Shared.{
  ℕ, ◌-◌, ◌^◌, ◌≤◌, ◌<◌, ◌≡◌, refl, sym, ap, ◌∙◌, subst, inl, Bool, none, some, List, [], ◌∷◌, ◌++◌,
  append-nil, arith, length, replicate, ok,
}
use containernet_ndn_dpdk.Tlv.Element.Wire.{wire_of}
use containernet_ndn_dpdk.Tlv.Decode.{decode}
use containernet_ndn_dpdk.Tlv.Decode.RoundTrip.{decode_alone}
use containernet_ndn_dpdk.Tlv.Encode.{join}
use containernet_ndn_dpdk.Tlv.Encode.Writes.{tlv_of-IsElement}
use containernet_ndn_dpdk.Lp
use containernet_ndn_dpdk.Lp.{LpL3, no_l3, LpFragment, number, encode_l3}
use containernet_ndn_dpdk.Lp.Frames.{raw_payloads}
use containernet_ndn_dpdk.Packet.{
  Packet, RxFragment, no_packet, unmarshal_packet, decode_payload, max_i32,
}
use containernet_ndn_dpdk.Reassembler.{Lru, LpReassembler, no_partial, waiting}
use containernet_ndn_dpdk.Reassembler.Complete.{accept_all, verdicts, accept_all_reassembles}
use containernet_ndn_dpdk.Face.{tx_frames, rx_one, rx_wire, rx_loop}
use containernet_ndn_dpdk.Face.Header.{lp_header}
use containernet_ndn_dpdk.Face.Frame.{fragment_elems, frame_of, fragment_wire, decode_value-single}
use containernet_ndn_dpdk.Face.InOrder.{IsFrames, range, length-frames, rx_frames}
use containernet_ndn_dpdk.Face.Sent.{
  parts_of, join-parts_of, length-parts_of, IsHeaded, frame_short, Visits-range, IsFrames-number,
}
use containernet_ndn_dpdk.Face.Whole.{
  Carries, keep_origin, keep_origin-decode_l3, decode_payload-wire_of, whole_wire,
}
use containernet_ndn_dpdk.Face.Cache.{LruLaws, IsIdle, delivers}

module _ (sha256 : List ℕ → List ℕ) (known : ℕ → Bool) where
  module _ {ℓ} {S : Type ℓ} (lru : Lru S) (laws : LruLaws lru) where
    -- What a receiver makes of the wires of a packet: it delivers it, and nothing more is in reassembly.
    abbrev pub Delivers : LpReassembler S → List (List ℕ) → List Packet → Type ℓ
    Delivers r wires outs =
        (r' : LpReassembler S) × (rx_loop lru sha256 known r wires ≡ ok (r', outs))
        × IsIdle lru laws sha256 known r'

    deliver_whole :
        (r : LpReassembler S) (w : List ℕ) (out : Packet)
        → IsIdle lru laws sha256 known r
        → decode w (unmarshal_packet sha256 known) ≡ ok out
        → keep_origin sha256 known out ≡ out
        → Delivers r (w ∷ []) (out ∷ [])
    unfolding rx_loop rx_wire
    deliver_whole r w out idle d kept = (r, rw (d, taken) refl, idle)
      where
        taken : rx_one lru sha256 known r out ≡ ok (r, some out)
        taken = subst (λ p. rx_one lru sha256 known r p ≡ ok (r, some p)) kept refl

    -- The wires of a packet that is sent whole.
    pub send_whole :
        (room : ℕ) (p full : Lp.Packet) (out : Packet) (c : Carries sha256 known room full out)
        (r : LpReassembler S)
        → p.frag ≡ none
        → encode_l3 p ≡ ok (lp_header c.lp, wire_of c.e, c.lp)
        → IsIdle lru laws sha256 known r
        → Delivers r (tx_frames (p ∷ [])) (out ∷ [])
    unfolding tx_frames
    send_whole room p full out c r no_frag e idle =
        let (w, enc, dec) = whole_wire sha256 known room p full out c no_frag e in
        rw enc (
          deliver_whole r w out idle dec
            (keep_origin-decode_l3 sha256 known c.lp c.e.typ c.e.value out c.decoded))

    -- The wires of the parts of a packet that is split.
    pub send_parts :
        (room : ℕ) (full : Lp.Packet) (out : Packet) (c : Carries sha256 known room full out)
        (seq : ℕ) (cs : List (LpL3 × LpFragment)) (r : LpReassembler S)
        → seq < 2 ^ 64
        → 0 < length cs
        → length cs ≤ max_i32 sha256 known
        → raw_payloads cs ≡ wire_of c.e
        → IsHeaded c.lp 0 cs
        → IsIdle lru laws sha256 known r
        → Delivers r (tx_frames (number seq 0 (length cs) cs)) (out ∷ [])
    unfolding tx_frames number unmarshal_packet
    send_parts room full out c seq [] r small some_parts few whole headed idle =
        absurd (omega (arith, some_parts))
    send_parts room full out c seq ((l, f) ∷ []) r small some_parts few whole (hf, headed) idle =
        let f' : LpFragment = record f { seq_num = seq; frag_index = 0; frag_count = 1 } in
        let rx : RxFragment = record {
          seq_num = seq;
          frag_index = 0;
          frag_count = 1;
          payload = none;
        } in
        let same : wire_of c.e ≡ f.payload = sym whole ∙ append-nil f.payload in
        let short : length f.payload < 2 ^ 31 = omega (arith, ap length same, c.payload_short) in
        let decodes : decode (wire_of (frame_of (fragment_elems c.lp rx f.payload)))
              (unmarshal_packet sha256 known)
            ≡ ok out =
          decode_alone (frame_of (fragment_elems c.lp rx f.payload)) (unmarshal_packet sha256 known)
            (tlv_of-IsElement 0x64 _ refl
              (frame_short c.lp rx f.payload c.header_short (omega (arith, short))))
          ∙ decode_value-single sha256 known c.lp rx f.payload out c.good_header
              (omega (arith, short)) small refl refl
              (subst (λ w. decode_payload sha256 known (record no_packet { lp = c.lp }) w ≡ ok out)
                same (decode_payload-wire_of sha256 known _ c.e out c.good_payload c.decoded))
          ∙ ap ok (keep_origin-decode_l3 sha256 known c.lp c.e.typ c.e.value out c.decoded) in
        rw
          (fragment_wire (record { lp = l; l3 = no_l3; frag = some f' }) f' c.lp refl hf
            (omega arith))
          (deliver_whole r _ out idle decodes
            (keep_origin-decode_l3 sha256 known c.lp c.e.typ c.e.value out c.decoded))
    send_parts room full out c seq (p ∷ q ∷ cs) r small some_parts few whole headed idle =
        let all : List (LpL3 × LpFragment) = p ∷ q ∷ cs in
        let ps = parts_of all in
        let n : length ps ≡ length all = length-parts_of all in
        let ws = tx_frames (number seq 0 (length all) all) in
        let frames : IsFrames sha256 known c.lp ps seq 0 ws =
          subst (λ k. IsFrames sha256 known c.lp ps seq 0 (tx_frames (number seq 0 k all))) n
            (IsFrames-number sha256 known c.lp ps seq c.good_header c.header_short
              (omega (arith, n)) (subst (λ k. k ≤ max_i32 sha256 known) (sym n) few) [] 0 all seq
              refl refl (omega (arith, small)) headed
              (omega (arith, ap length whole, c.payload_short))) in
        let long : length ws ≡ length ps =
          omega (arith, length-frames sha256 known c.lp ps seq 0 ws frames) in
        let joined : join ps ≡ wire_of c.e = join-parts_of all ∙ whole in
        let decodes : decode_payload sha256 known (record no_packet { lp = c.lp }) (join ps)
            ≡ ok out =
          rw joined (decode_payload-wire_of sha256 known _ c.e out c.good_payload c.decoded) in
        let runs : accept_all sha256 known c.lp ps seq no_partial (range 0 (length ws))
            ≡ verdicts sha256 known c.lp ps seq (length ps - 1) =
          rw long (
            accept_all_reassembles sha256 known c.lp ps seq (range 0 (length ps)) (omega (arith, n))
              (Visits-range (length ps))) in
        let ends : verdicts sha256 known c.lp ps seq (length ps - 1)
            ≡ ok (replicate (length ps - 1) waiting ++ (delivers lru laws sha256 known out ∷ [])) =
          rw decodes refl in
        rx_frames lru laws sha256 known c.lp ps seq small (length ps - 1) ws 0 no_partial r out
          (omega (arith, long, n)) (runs ∙ ends) (inl (idle, refl)) frames
