-- ===== src/Lp/Fits.antt =====
-- ndn/lp.go and ndn/packet.go: the size of encoded fragments.
use containernet_ndn_dpdk.Shared.{
  ℕ, ◌+◌, ◌^◌, ◌≤◌, ◌<◌, ◌≡◌, refl, sym, ap, ◌∙◌, subst, false, List, [], ◌∷◌, ◌++◌, arith, leb,
  length, length-append, ok-injective, ok, >>=-eq-ok,
}
use containernet_ndn_dpdk.Tlv.VarNum
use containernet_ndn_dpdk.Tlv.VarNum.{bytes8}
use containernet_ndn_dpdk.Tlv.Nni
use containernet_ndn_dpdk.Tlv.Nni.RoundTrip
use containernet_ndn_dpdk.Tlv.Element
use containernet_ndn_dpdk.Tlv.Element.{Element}
use containernet_ndn_dpdk.Tlv.Element.Wire.{wire_of, length-wire_of}
use containernet_ndn_dpdk.Tlv.Encode.{
  Field, nil, cons, one, bytes, tlv_bytes, tlv_nni, element_field, encode, encode_subs, encode_all,
  join,
}
use containernet_ndn_dpdk.Tlv.Encode.Wire.{tlv_wire, encode-element_field, encode_value_only-tlv}
use containernet_ndn_dpdk.Tlv.Encode.Buffer.{encode_subs-cons, encode_subs-nil, encode-tlv_nni}
use containernet_ndn_dpdk.Lp.{
  LpL3, L3, interest_field, data_field, nack_field, no_l3, encode_with, encode_lp, LpFragment,
  Packet, fragment_fields, fragment_field, packet_field, encode_l3, fragment_overhead, frame_field,
}
use containernet_ndn_dpdk.Lp.Frames.{IsNumbered}

encode-bytes : (v : List ℕ) → encode (bytes v) [] ≡ ok v
unfolding encode
encode-bytes v = refl

encode-tlv_bytes :
    (typ : ℕ) (v : List ℕ)
    → 1 ≤ typ
    → typ ≤ 65535
    → length v < 2 ^ 63
    → encode (tlv_bytes typ v) [] ≡ ok (wire_of (record { typ = typ; value = v }))
encode-tlv_bytes typ v low high short =
    unfold element_field in
    encode-element_field (record { typ = typ; value = v })
      (record { typ_low = low; typ_high = omega (arith, high); fits = short })

-- A TLV-TYPE of one byte and a value of at most 65535 bytes.
size_short :
    (typ : ℕ) (v : List ℕ)
    → typ < 0xfd
    → length v ≤ 65535
    → length (wire_of (record { typ = typ; value = v })) ≤ 4 + length v
size_short typ v small short =
    subst (λ n. n ≤ 4 + length v) (sym (length-wire_of (record { typ = typ; value = v })))
      (unfold Element.size VarNum.size in ground arith)

size_tiny :
    (typ : ℕ) (v : List ℕ)
    → typ < 0xfd
    → length v < 0xfd
    → length (wire_of (record { typ = typ; value = v })) ≡ 2 + length v
size_tiny typ v small short =
    length-wire_of (record { typ = typ; value = v })
    ∙ (unfold Element.size VarNum.size in ground arith)

nni_short : (n : ℕ) → n ≤ 65535 → length (Nni.encode n []) ≤ 2
nni_short n h =
    subst (λ m. m ≤ 2) (sym (RoundTrip.length-encode n)) (unfold Nni.size in ground arith)

-- The value of the LpPacket of a fragment.
abbrev fragment_parts : LpFragment → List (List ℕ)
fragment_parts f =
    wire_of (record { typ = 0x51; value = bytes8 f.seq_num })
    ∷ wire_of (record { typ = 0x52; value = Nni.encode f.frag_index [] })
    ∷ wire_of (record { typ = 0x53; value = Nni.encode f.frag_count [] })
    ∷ f.header
    ∷ wire_of (record { typ = 0x50; value = f.payload })
    ∷ []

encode_subs-fragment_fields :
    (f : LpFragment)
    → length f.payload < 2 ^ 63
    → encode_subs (fragment_fields f) ≡ ok (fragment_parts f)
encode_subs-fragment_fields f short = rw (
  encode_subs-cons (tlv_bytes 0x51 (bytes8 f.seq_num)) _,
  encode-tlv_bytes 0x51 (bytes8 f.seq_num) (omega arith) (omega arith) (omega arith),
  encode_subs-cons (tlv_nni 0x52 f.frag_index) _,
  encode-tlv_nni 0x52 f.frag_index refl,
  encode_subs-cons (tlv_nni 0x53 f.frag_count) _,
  encode-tlv_nni 0x53 f.frag_count refl,
  encode_subs-cons (bytes f.header) _,
  encode-bytes f.header,
  encode_subs-cons (tlv_bytes 0x50 f.payload) nil,
  encode-tlv_bytes 0x50 f.payload (omega arith) (omega arith) short,
  encode_subs-nil,
)

fragment_parts_size :
    (f : LpFragment) (room : ℕ)
    → length f.header + length f.payload ≤ room
    → room ≤ 65535
    → f.frag_index < f.frag_count
    → f.frag_count ≤ 65535
    → length (join (fragment_parts f)) ≤ 22 + room
fragment_parts_size f room h k i c = omega (
  arith,
  size_tiny 0x51 (bytes8 f.seq_num) (omega arith) (omega arith),
  size_tiny 0x52 (Nni.encode f.frag_index []) (omega arith)
      (omega (arith, nni_short f.frag_index (omega arith))),
  size_tiny 0x53 (Nni.encode f.frag_count []) (omega arith)
      (omega (arith, nni_short f.frag_count c)),
  nni_short f.frag_index (omega arith),
  nni_short f.frag_count c,
  size_short 0x50 f.payload (omega arith) (omega arith),
  length-append (wire_of (record { typ = 0x51; value = bytes8 f.seq_num })) _,
  length-append (wire_of (record { typ = 0x52; value = Nni.encode f.frag_index [] })) _,
  length-append (wire_of (record { typ = 0x53; value = Nni.encode f.frag_count [] })) _,
  length-append f.header _,
  length-append (wire_of (record { typ = 0x50; value = f.payload })) [],
)

-- A packet that encodes, within `mtu` bytes.
abbrev pub FitsIn : ℕ → Packet → Type 0
FitsIn mtu p = (wire : List ℕ) × (encode (packet_field p) [] ≡ ok wire) × (length wire ≤ mtu)

pub numbered-FitsIn :
    (p : Packet) (room n seq i : ℕ)
    → IsNumbered room n seq i p
    → n ≤ 65535
    → fragment_overhead + room ≤ 65535
    → FitsIn (fragment_overhead + room) p
unfolding packet_field fragment_field
numbered-FitsIn p room n seq i h c k =
    let f = h.f in
    let v = join (fragment_parts f) in
    let inside : length v ≤ 22 + room =
      fragment_parts_size f room h.in_room (omega arith)
        (omega (arith, h.in_order, h.in_range, h.counted)) (omega (arith, h.counted)) in
    let valid_place : leb f.frag_count f.frag_index ≡ false =
      ground (arith, h.in_order, h.in_range, h.counted) in
    (
      wire_of (record { typ = 0x64; value = v }),
      rw (h.given, valid_place)
          (tlv_wire 0x64 (fragment_fields f)
            ∙ rw (
              encode_value_only-tlv 0x64 (fragment_fields f) refl,
              encode_subs-fragment_fields f (omega (arith, h.in_room)),
            )),
      omega (arith, inside, size_short 0x64 v (omega arith) (omega (arith, inside))),
    )

-- A packet that is sent whole.
pub encode_l3-again :
    (full : Packet) (header payload : List ℕ) (lp : LpL3)
    → encode_l3 full ≡ ok (header, payload, lp)
    → encode_l3 (record full { lp = lp }) ≡ ok (header, payload, lp)
unfolding encode_l3
encode_l3-again full header payload lp e = kinds full.l3 refl
  where
    again :
        (lp0 : LpL3) (f : Field)
        → encode_with lp0 f ≡ ok (header, payload, lp)
        → (lp0 ≡ lp) × (encode_with lp f ≡ ok (header, payload, lp))
    again lp0 f q =
        let (v, _, q') = >>=-eq-ok (encode_all (one f)) _ q in
        let (h, _, q'') = >>=-eq-ok (encode_all (encode_lp lp0)) _ q' in
        let same : lp0 ≡ lp = ap (λ (t : List ℕ × List ℕ × LpL3). t.2) (ok-injective q'') in
        (same, subst (λ l. encode_with l f ≡ ok (header, payload, lp)) same q)

    kinds : (k : L3) → full.l3 ≡ k → encode_l3 (record full { lp = lp }) ≡ ok (header, payload, lp)
    kinds (interest_field f) k =
        let (same, q) = again (record full.lp { nack_reason = 0 }) f (rw k at e) in
        let zero_reason : lp.nack_reason ≡ 0 = ap (λ (l : LpL3). l.nack_reason) (sym same) in
        rw k (
          subst (λ n. encode_with (record lp { nack_reason = n }) f ≡ ok (header, payload, lp))
            zero_reason q)
    kinds (data_field f) k =
        let (same, q) = again (record full.lp { nack_reason = 0 }) f (rw k at e) in
        let zero_reason : lp.nack_reason ≡ 0 = ap (λ (l : LpL3). l.nack_reason) (sym same) in
        rw k (
          subst (λ n. encode_with (record lp { nack_reason = n }) f ≡ ok (header, payload, lp))
            zero_reason q)
    kinds (nack_field reason f) k =
        let (same, q) = again (record full.lp { nack_reason = reason }) f (rw k at e) in
        let its_reason : lp.nack_reason ≡ reason = ap (λ (l : LpL3). l.nack_reason) (sym same) in
        rw k (
          subst (λ n. encode_with (record lp { nack_reason = n }) f ≡ ok (header, payload, lp))
            its_reason q)
    kinds no_l3 k = cc (rw k at e)

pub frame_field-FitsIn :
    (header payload : List ℕ) (room : ℕ)
    → length header + length payload < room
    → fragment_overhead + room ≤ 65535
    → (wire : List ℕ) × (encode (frame_field header payload) [] ≡ ok wire)
      × (length wire ≤ fragment_overhead + room)
frame_field-FitsIn [] payload room h k = (payload, encode-bytes payload, omega arith)
frame_field-FitsIn (x ∷ header) payload room h k =
    let inner = wire_of (record { typ = 0x50; value = payload }) in
    let v = join ((x ∷ header) ∷ inner ∷ []) in
    let inside : length v ≤ 4 + room = omega (
      arith,
      length-append (x ∷ header) (inner ++ []),
      length-append inner [],
      size_short 0x50 payload (omega arith) (omega arith),
    ) in
    (
      wire_of (record { typ = 0x64; value = v }),
      tlv_wire 0x64 (cons (bytes (x ∷ header)) (one (tlv_bytes 0x50 payload)))
          ∙ rw (
            encode_value_only-tlv 0x64 (cons (bytes (x ∷ header)) (one (tlv_bytes 0x50 payload)))
                refl,
            encode_subs-cons (bytes (x ∷ header)) _,
            encode-bytes (x ∷ header),
            encode_subs-cons (tlv_bytes 0x50 payload) nil,
            encode-tlv_bytes 0x50 payload (omega arith) (omega arith) (omega arith),
            encode_subs-nil,
          ),
      omega (arith, inside, size_short 0x64 v (omega arith) (omega (arith, inside))),
    )
