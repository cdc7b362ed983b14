-- ===== src/Face/Whole.antt =====
-- ndn/packet.go: packets whose frame has no fragment, on the wire and decoded.
use containernet_ndn_dpdk.Shared.{
  ℕ, ◌-◌, ◌^◌, ◌<◌, ◌≡◌, refl, sym, ap, ◌∙◌, subst, ◌⊎◌, inl, inr, Bool, false, none, List, [], ◌∷◌,
  append-nil, arith, ◌==◌, ==_iff, Bool-cases, length, length-append, ok-injective, ok, >>=-eq-ok,
}
use containernet_ndn_dpdk.Tlv.Element.{Element}
use containernet_ndn_dpdk.Tlv.Element.Wire.{wire_of, IsElement}
use containernet_ndn_dpdk.Tlv.Decode.{decode, element}
use containernet_ndn_dpdk.Tlv.Decode.RoundTrip.{
  encoding_of, decode_alone, element-wire_of, err_unless_eof-nil,
}
use containernet_ndn_dpdk.Tlv.Encode.{one, nil, cons, bytes, tlv_bytes, encode_all}
use containernet_ndn_dpdk.Tlv.Encode.Writes.{
  tlv_of, tlv_of-IsElement, Joins-cons, Joins-nil, Makes-tlv, Makes-tlv_bytes, encode-bytes,
}
use containernet_ndn_dpdk.Lp
use containernet_ndn_dpdk.Lp.{LpL3, packet_field, frame_field, encode_l3}
use containernet_ndn_dpdk.Interest.{Interest, unmarshal_interest}
use containernet_ndn_dpdk.Data.{Origin, unmarshal_data}
use containernet_ndn_dpdk.Packet.{
  Packet, no_packet, nack_none, unmarshal_packet, decode_l3, decode_payload, share_origin,
  put_interest,
}
use containernet_ndn_dpdk.Face.Header.{lp_header, IsLp, lp_elems-append, header_nil, wire_of-short}
use containernet_ndn_dpdk.Face.Frame.{whole_elems, frame_of, append_one, decode_value-whole}

module _ (sha256 : List ℕ → List ℕ) (known : ℕ → Bool) where
  abbrev pub keep_origin : Packet → Packet
  keep_origin pkt = record pkt {
    fragment_in = none;
    data_in = share_origin sha256 known pkt.origin pkt.data_in;
  }

  keep_origin-interest :
      (lp : LpL3) (i : Interest) (o : Origin)
      → (let p : Packet = record (put_interest (record no_packet { lp = lp }) i) { origin = o } in
          keep_origin p ≡ p)
  keep_origin-interest lp i o = elim (Bool-cases (lp.nack_reason == nack_none)) [
    | inl is ↦ rw is refl
    | inr other ↦ rw other refl
  ]

  -- decodeL3 leaves the Data pointing to the packet.
  pub keep_origin-decode_l3 :
      (lp : LpL3) (typ : ℕ) (value : List ℕ) (out : Packet)
      → decode_l3 sha256 known (record no_packet { lp = lp }) typ value ≡ ok out
      → keep_origin out ≡ out
  unfolding decode_l3
  keep_origin-decode_l3 lp typ value out e = elim (Bool-cases (typ == 0x05)) [
    | inl is_interest ↦
        let (i, _, e') =
          >>=-eq-ok (unmarshal_interest sha256 known value) _ (rw is_interest at e) in
        subst (λ p. keep_origin p ≡ p) (ok-injective e') (keep_origin-interest lp i _)
    | inr other ↦ elim (Bool-cases (typ == 0x06)) [
      | inl is_data ↦
          let (d, _, e') = >>=-eq-ok (unmarshal_data known value) _ (rw (other, is_data) at e) in
          subst (λ p. keep_origin p ≡ p) (ok-injective e') refl
      | inr neither ↦ let e' = rw (other, neither) at e in cc
    ]
  ]

  not_frame :
      (pkt : Packet) (typ : ℕ) (value : List ℕ) (out : Packet)
      → decode_l3 sha256 known pkt typ value ≡ ok out
      → typ == 0x64 ≡ false
  unfolding decode_l3
  not_frame pkt typ value out e = elim (Bool-cases (typ == 0x64)) [
    | inl is ↦ let e' = rw ((==_iff typ 0x64).0 is) at e in cc
    | inr other ↦ other
  ]

  pub decode_payload-wire_of :
      (pkt : Packet) (e : Element) (out : Packet)
      → IsElement e
      → decode_l3 sha256 known pkt e.typ e.value ≡ ok out
      → decode_payload sha256 known pkt (wire_of e) ≡ ok out
  unfolding decode_payload
  decode_payload-wire_of pkt e out h d =
      let q : element (wire_of e) ≡ ok (record { elem = e; wire = wire_of e; after = [] }, []) =
        ap element (sym (append-nil (wire_of e))) ∙ element-wire_of e [] h in
      rw (q, d, err_unless_eof-nil) refl

  -- A packet that can be sent, and what a receiver makes of it.
  pub record Carries (room : ℕ) (full : Lp.Packet) (out : Packet) : Type 0 where
    pub lp : LpL3
    pub e : Element
    pub encoded : encode_l3 full ≡ ok (lp_header lp, wire_of e, lp)
    pub not_fragment : full.frag ≡ none
    pub good_header : IsLp lp
    pub header_fits : length (lp_header lp) < room
    pub header_short : length (lp_header lp) < 2 ^ 62
    pub good_payload : IsElement e
    pub payload_short : length (wire_of e) < 2 ^ 31 - 1
    pub decoded : decode_l3 sha256 known (record no_packet { lp = lp }) e.typ e.value ≡ ok out

  field_none :
      (p : Lp.Packet) (header payload : List ℕ) (lp : LpL3)
      → encode_l3 (record p { frag = none }) ≡ ok (header, payload, lp)
      → packet_field (record p { frag = none }) ≡ frame_field header payload
  unfolding packet_field
  field_none p header payload lp e = rw (e, packet_field) refl

  field_whole :
      (p : Lp.Packet) (header payload : List ℕ) (lp : LpL3)
      → p.frag ≡ none
      → encode_l3 p ≡ ok (header, payload, lp)
      → packet_field p ≡ frame_field header payload
  field_whole p header payload lp no_frag =
      subst
        (λ x.
          encode_l3 (record p { frag = x }) ≡ ok (header, payload, lp)
          → packet_field (record p { frag = x }) ≡ frame_field header payload)
        (sym no_frag) (field_none p header payload lp)

  -- The wire of a packet that is sent whole, without a header and with one.
  bare_wire :
      (p : Lp.Packet) (payload : List ℕ) (lp : LpL3)
      → p.frag ≡ none
      → encode_l3 p ≡ ok ([], payload, lp)
      → encode_all (one (packet_field p)) ≡ ok payload
  bare_wire p payload lp no_frag e =
      append_one (packet_field p) payload
        (rw (field_whole p [] payload lp no_frag e) (encode-bytes payload))

  headed_wire :
      (p : Lp.Packet) (x : ℕ) (header payload : List ℕ) (lp : LpL3)
      → p.frag ≡ none
      → encode_l3 p ≡ ok (x ∷ header, payload, lp)
      → lp_header lp ≡ x ∷ header
      → encode_all (one (packet_field p)) ≡ ok (wire_of (frame_of (whole_elems lp payload)))
  headed_wire p x header payload lp no_frag e is = append_one (packet_field p) _ (
      rw (field_whole p (x ∷ header) payload lp no_frag e) (
        Makes-tlv 0x64 (cons (bytes (x ∷ header)) (one (tlv_bytes 0x50 payload))) _ refl (
          rw (lp_elems-append lp (tlv_of 0x50 payload ∷ []), is)
            (Joins-cons (bytes (x ∷ header)) (one (tlv_bytes 0x50 payload)) (x ∷ header) _
              (encode-bytes (x ∷ header))
              (Joins-cons (tlv_bytes 0x50 payload) nil _ [] (Makes-tlv_bytes 0x50 payload refl)
                Joins-nil)))))

  whole_short :
      (lp : LpL3) (payload : List ℕ)
      → length (lp_header lp) < 2 ^ 62
      → length payload < 2 ^ 31
      → length (encoding_of (whole_elems lp payload) []) < 2 ^ 63
  whole_short lp payload h k = omega (
    arith,
    ap length (lp_elems-append lp (tlv_of 0x50 payload ∷ [])),
    length-append (lp_header lp) (encoding_of (tlv_of 0x50 payload ∷ []) []),
    wire_of-short (tlv_of 0x50 payload),
    length-append (wire_of (tlv_of 0x50 payload)) [],
  )

  header_cases : (xs : List ℕ) → (xs ≡ []) ⊎ ((x : ℕ) × (t : List ℕ) × (xs ≡ x ∷ t))
  header_cases [] = inl refl
  header_cases (x ∷ t) = inr (x, t, refl)

  pub whole_wire :
      (room : ℕ) (p : Lp.Packet) (full : Lp.Packet) (out : Packet) (c : Carries room full out)
      → p.frag ≡ none
      → encode_l3 p ≡ ok (lp_header c.lp, wire_of c.e, c.lp)
      → (w : List ℕ) × (encode_all (one (packet_field p)) ≡ ok w)
        × (decode w (unmarshal_packet sha256 known) ≡ ok out)
  unfolding unmarshal_packet
  whole_wire room p full out c no_frag e = elim (header_cases (lp_header c.lp)) [
    | inl is ↦ (
      wire_of c.e,
      bare_wire p (wire_of c.e) c.lp no_frag (rw is at e),
      decode_alone c.e (unmarshal_packet sha256 known) c.good_payload
          ∙ rw (not_frame _ c.e.typ c.e.value out c.decoded) (
              subst
                (λ l.
                  decode_l3 sha256 known (record no_packet { lp = l }) c.e.typ c.e.value ≡ ok out)
                (header_nil c.lp is) c.decoded),
    )
    | inr (x, t, is) ↦ (
      wire_of (frame_of (whole_elems c.lp (wire_of c.e))),
      headed_wire p x t (wire_of c.e) c.lp no_frag (rw is at e) is,
      decode_alone (frame_of (whole_elems c.lp (wire_of c.e))) (unmarshal_packet sha256 known) (
            tlv_of-IsElement 0x64 _ refl
              (whole_short c.lp (wire_of c.e) c.header_short (omega (arith, c.payload_short))))
          ∙ decode_value-whole sha256 known c.lp (wire_of c.e) out c.good_header
              (omega (arith, c.payload_short))
              (decode_payload-wire_of _ c.e out c.good_payload c.decoded)
          ∙ ap ok (keep_origin-decode_l3 c.lp c.e.typ c.e.value out c.decoded),
    )
  ]
