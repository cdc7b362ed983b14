-- ===== src/Face/Frame.antt =====
-- ndn/lp.go and ndn/packet.go: frames on the wire.
use containernet_ndn_dpdk.Shared.{
  ℕ, ◌^◌, ◌≤◌, ◌<◌, ◌≡◌, refl, ◌∙◌, subst, Bool, false, none, some, List, [], ◌∷◌, append-nil,
  arith, ltb, leb, lt→ltb, length, All, ok, incomplete, fragment,
}
use containernet_ndn_dpdk.Tlv.VarNum.{bytes8}
use containernet_ndn_dpdk.Tlv.VarNum.Shape.{join8-bytes}
use containernet_ndn_dpdk.Tlv.Element.{Element}
use containernet_ndn_dpdk.Tlv.Element.Wire.{wire_of, IsElement}
use containernet_ndn_dpdk.Tlv.Decode.Splits.{element_nil}
use containernet_ndn_dpdk.Tlv.Decode.RoundTrip.{
  encoding_of, decoding_of, elements-encoding_of, err_unless_eof-nil,
}
use containernet_ndn_dpdk.Tlv.Decode.Each.{decode_each, decode_each-cons, decode_each-nil}
use containernet_ndn_dpdk.Tlv.Encode.{
  Field, nil, one, bytes, tlv_bytes, tlv_nni, encode, encode_all,
}
use containernet_ndn_dpdk.Tlv.Encode.Writes.{
  tlv_of, nni_of, Joins, Joins-nil, Joins-cons, Makes-tlv, Makes-tlv_bytes, Makes-tlv_nni,
  tlv_of-IsElement, nni_of-IsElement, encode-bytes, encode_all-Joins,
}
use containernet_ndn_dpdk.SigInfo.RoundTrip.{nni_step}
use containernet_ndn_dpdk.Lp
use containernet_ndn_dpdk.Lp.{
  LpL3, no_lp, LpFragment, fragment_field, fragment_fields, packet_field,
}
use containernet_ndn_dpdk.Packet.{
  Packet, RxFragment, no_packet, Decoding, decode_payload, lp_step, with_lp_of, with_fragment,
  start_value, finish, max_i32, decode_value, decode_seq_num,
}
use containernet_ndn_dpdk.Face.Header.{
  lp_elems, lp_header, IsLp, lp_elems-append, lp_elems-IsElement, header_loop,
}

-- The elements of a frame with a fragment.
abbrev pub fragment_elems : LpL3 → RxFragment → List ℕ → List Element
fragment_elems lp f part =
    tlv_of 0x51 (bytes8 f.seq_num)
    ∷ nni_of 0x52 f.frag_index
    ∷ nni_of 0x53 f.frag_count
    ∷ lp_elems lp (tlv_of 0x50 part ∷ [])

-- The elements of a frame without one.
abbrev pub whole_elems : LpL3 → List ℕ → List Element
whole_elems lp payload = lp_elems lp (tlv_of 0x50 payload ∷ [])

abbrev pub frame_of : List Element → Element
frame_of es = tlv_of 0x64 (encoding_of es [])

pub append_one : (f : Field) (w : List ℕ) → encode f [] ≡ ok w → encode_all (one f) ≡ ok w
append_one f w h =
    encode_all-Joins (one f) w
      (subst (λ v. Joins (one f) v) (append-nil w) (Joins-cons f nil w [] h Joins-nil))

-- The wire of a fragment, and of a packet that is sent whole.
pub fragment_wire :
    (p : Lp.Packet) (f : LpFragment) (lp : LpL3)
    → p.frag ≡ some f
    → f.header ≡ lp_header lp
    → f.frag_index < f.frag_count
    → encode_all (one (packet_field p))
      ≡ ok (
          wire_of (
            frame_of (
              fragment_elems lp
                (record {
                  seq_num = f.seq_num;
                  frag_index = f.frag_index;
                  frag_count = f.frag_count;
                  payload = none;
                })
                f.payload)))
unfolding packet_field fragment_field
fragment_wire p f lp given h inside =
    let valid_place : leb f.frag_count f.frag_index ≡ false = ground (arith, inside) in
    append_one (packet_field p) _ (
      rw (given, valid_place)
        (Makes-tlv 0x64 (fragment_fields f) _ refl (
          Joins-cons (tlv_bytes 0x51 (bytes8 f.seq_num)) _ _ _ (Makes-tlv_bytes 0x51 _ refl) (
            Joins-cons (tlv_nni 0x52 f.frag_index) _ _ _ (Makes-tlv_nni 0x52 f.frag_index refl) (
              Joins-cons (tlv_nni 0x53 f.frag_count) _ _ _ (Makes-tlv_nni 0x53 f.frag_count refl) (
                rw (h, lp_elems-append lp (tlv_of 0x50 f.payload ∷ []))
                  (Joins-cons (bytes (lp_header lp)) _ (lp_header lp) _
                    (encode-bytes (lp_header lp))
                    (Joins-cons (tlv_bytes 0x50 f.payload) nil _ []
                      (Makes-tlv_bytes 0x50 f.payload refl) Joins-nil))))))))

module _ (sha256 : List ℕ → List ℕ) (known : ℕ → Bool) where
  -- decodeValue on the elements of a frame.
  decode_value-encoding_of :
      (es : List Element) (last : Decoding sha256 known)
      → All IsElement es
      → decode_each (lp_step sha256 known) (start_value sha256 known) (decoding_of es []) ≡ ok last
      → last.fragment_at.frag_index < last.fragment_at.frag_count
      → decode_value sha256 known (encoding_of es []) ≡ ok (finish sha256 known last)
  unfolding decode_value
  decode_value-encoding_of es last good e inside =
      let valid_place : leb last.fragment_at.frag_count last.fragment_at.frag_index ≡ false =
        ground (arith, inside) in
      rw
        (elements-encoding_of es [] incomplete good element_nil, e, valid_place, err_unless_eof-nil)

  -- The packet that the fragment's step leaves.
  abbrev at_fragment : LpL3 → RxFragment → Decoding sha256 known
  at_fragment lp f = record {
    pkt = record no_packet { lp = lp };
    fragment_at = f;
    is_fragment = ltb 1 f.frag_count;
  }

  abbrev start_of : RxFragment → RxFragment
  start_of f = record f { payload = none }

  fragment_loop :
      (lp : LpL3) (f : RxFragment) (part : List ℕ) (last : Decoding sha256 known)
      → IsLp lp
      → f.seq_num < 2 ^ 64
      → f.frag_index < f.frag_count
      → f.frag_count ≤ max_i32 sha256 known
      → lp_step sha256 known
          (at_fragment lp (start_of f))
          (record { elem = tlv_of 0x50 part; wire = wire_of (tlv_of 0x50 part); after = [] })
        ≡ ok last
      → decode_each
          (lp_step sha256 known)
          (start_value sha256 known)
          (decoding_of (fragment_elems lp f part) [])
        ≡ ok last
  unfolding decode_seq_num
  fragment_loop lp f part last h seq_bound inside count_bound e =
      let step = lp_step sha256 known in
      let s0 = start_value sha256 known in
      let s1 = with_fragment sha256 known s0 (record s0.fragment_at { seq_num = f.seq_num }) in
      let s2 =
        with_fragment sha256 known s1 (record s1.fragment_at { frag_index = f.frag_index }) in
      let s3 = at_fragment no_lp (start_of f) in
      decode_each-cons step s0 s1 last (tlv_of 0x51 (bytes8 f.seq_num))
        (nni_of 0x52 f.frag_index ∷ nni_of 0x53 f.frag_count ∷ lp_elems lp (tlv_of 0x50 part ∷ []))
        (rw (join8-bytes f.seq_num seq_bound) refl)
        (decode_each-cons step s1 s2 last (nni_of 0x52 f.frag_index)
          (nni_of 0x53 f.frag_count ∷ lp_elems lp (tlv_of 0x50 part ∷ []))
          (rw (nni_step f.frag_index (max_i32 sha256 known) fragment (omega arith) (omega arith))
            refl)
          (decode_each-cons step s2 s3 last (nni_of 0x53 f.frag_count)
            (lp_elems lp (tlv_of 0x50 part ∷ []))
            (rw (nni_step f.frag_count (max_i32 sha256 known) fragment (omega arith) count_bound)
              refl)
            (header_loop sha256 known s3 last lp (tlv_of 0x50 part ∷ []) h (
              decode_each-cons step (at_fragment lp (start_of f)) last last _ [] e
                (decode_each-nil step last)))))

  fragment_elems-IsElement :
      (lp : LpL3) (f : RxFragment) (part : List ℕ)
      → IsLp lp
      → length part < 2 ^ 62
      → All IsElement (fragment_elems lp f part)
  fragment_elems-IsElement lp f part h short = (
    tlv_of-IsElement 0x51 (bytes8 f.seq_num) refl (omega arith),
    (
      nni_of-IsElement 0x52 f.frag_index refl,
      (
        nni_of-IsElement 0x53 f.frag_count refl,
        lp_elems-IsElement lp (tlv_of 0x50 part ∷ []) h
            (tlv_of-IsElement 0x50 part refl (omega (arith, short)), tt),
      ),
    ),
  )

  -- A frame of a packet of two fragments or more.
  pub decode_value-fragment :
      (lp : LpL3) (f : RxFragment) (part : List ℕ)
      → IsLp lp
      → length part < 2 ^ 62
      → f.seq_num < 2 ^ 64
      → f.frag_index < f.frag_count
      → 1 < f.frag_count
      → f.frag_count ≤ max_i32 sha256 known
      → f.payload ≡ some part
      → decode_value sha256 known (encoding_of (fragment_elems lp f part) [])
        ≡ ok (record no_packet { lp = lp; fragment_in = some f })
  decode_value-fragment lp f part h short seq_bound inside many count_bound whole =
      decode_value-encoding_of (fragment_elems lp f part) (at_fragment lp f)
        (fragment_elems-IsElement lp f part h short)
        (fragment_loop lp f part (at_fragment lp f) h seq_bound inside count_bound
          (rw (lt→ltb 1 f.frag_count many, whole) refl))
        inside
      ∙ rw (lt→ltb 1 f.frag_count many) refl

  -- What the steps leave of a packet that came whole.
  abbrev done : Packet → RxFragment → Decoding sha256 known
  done pkt f = record { pkt = pkt; fragment_at = f; is_fragment = false }

  -- A frame with the only fragment of a packet is one of a whole packet.
  pub decode_value-single :
      (lp : LpL3) (f : RxFragment) (part : List ℕ) (pkt : Packet)
      → IsLp lp
      → length part < 2 ^ 62
      → f.seq_num < 2 ^ 64
      → f.frag_index ≡ 0
      → f.frag_count ≡ 1
      → decode_payload sha256 known (record no_packet { lp = lp }) part ≡ ok pkt
      → decode_value sha256 known (encoding_of (fragment_elems lp f part) [])
        ≡ ok (finish sha256 known (done pkt f))
  decode_value-single lp f part pkt h short seq_bound first only e =
      decode_value-encoding_of (fragment_elems lp f part) (done pkt (start_of f))
        (fragment_elems-IsElement lp f part h short)
        (fragment_loop lp f part (done pkt (start_of f)) h seq_bound (omega (arith, first, only))
          (omega (arith, only)) (rw (only, e) refl))
        (omega (arith, first, only))

  pub decode_value-whole :
      (lp : LpL3) (payload : List ℕ) (pkt : Packet)
      → IsLp lp
      → length payload < 2 ^ 62
      → decode_payload sha256 known (record no_packet { lp = lp }) payload ≡ ok pkt
      → decode_value sha256 known (encoding_of (whole_elems lp payload) [])
        ≡ ok (finish sha256 known (record (start_value sha256 known) { pkt = pkt }))
  decode_value-whole lp payload pkt h short e =
      let step = lp_step sha256 known in
      let s0 = start_value sha256 known in
      let last : Decoding sha256 known = record s0 { pkt = pkt } in
      decode_value-encoding_of (whole_elems lp payload) last
        (lp_elems-IsElement lp (tlv_of 0x50 payload ∷ []) h
          (tlv_of-IsElement 0x50 payload refl (omega (arith, short)), tt))
        (header_loop sha256 known s0 last lp (tlv_of 0x50 payload ∷ []) h (
          decode_each-cons step (with_lp_of sha256 known s0 lp) last last (tlv_of 0x50 payload) []
            (rw e refl) (decode_each-nil step last)))
        (omega arith)
