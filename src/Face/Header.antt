-- ===== src/Face/Header.antt =====
-- ndn/lp.go and ndn/packet.go: what the header of a frame is encoded to and decoded from.
use containernet_ndn_dpdk.Shared.{
  ℕ, ◌+◌, ◌^◌, ◌≤◌, ◌<◌, ◌≡◌, refl, sym, ap, subst, ◌≢◌, inl, inr, Bool, true, false, not, List, [],
  ◌∷◌, ◌++◌, arith, ◌==◌, if◌then◌else◌, ==_iff, Bool-cases, length, is_empty, All, length-append,
  ok, range_error,
}
use containernet_ndn_dpdk.Tlv.Element
use containernet_ndn_dpdk.Tlv.Element.{Element}
use containernet_ndn_dpdk.Tlv.VarNum
use containernet_ndn_dpdk.Tlv.Nni.RoundTrip
use containernet_ndn_dpdk.Tlv.Element.Wire.{wire_of, length-wire_of, IsElement}
use containernet_ndn_dpdk.Tlv.Decode.RoundTrip.{encoding_of, decoding_of}
use containernet_ndn_dpdk.Tlv.Decode.Each.{
  decode_each, decode_fields, decode_fields-encoding_of, put_elem, IsElement-put_elem,
  decode_each-cons, decode_each-put_elem, decode_each-nil,
}
use containernet_ndn_dpdk.Tlv.Encode.{Fields, nil, one, tlv, tlv_bytes, tlv_nni}
use containernet_ndn_dpdk.Tlv.Encode.Writes.{
  tlv_of, nni_of, Joins, Joins-nil, Joins-cons, Makes-tlv, Makes-tlv_bytes, Makes-tlv_nni,
  tlv_of-IsElement, nni_of-IsElement, encoding_of-put_elem,
}
use containernet_ndn_dpdk.SigInfo.RoundTrip.{nni_step, nil_of}
use containernet_ndn_dpdk.Lp.{LpL3, no_lp, encode_lp, token_fields, nack_fields}
use containernet_ndn_dpdk.Packet.{Decoding, lp_step, nack_step, nack_unspecified, with_lp_of}

-- The elements of a header, with `more` behind them.
abbrev pub nack_value : ℕ → List ℕ
nack_value reason = if reason == 255 then [] else encoding_of (nni_of 0x0321 reason ∷ []) []

abbrev pub lp_elems : LpL3 → List Element → List Element
lp_elems lp more = put_elem (not (is_empty lp.pit_token)) (tlv_of 0x62 lp.pit_token) (
    put_elem (not (lp.nack_reason == 0)) (tlv_of 0x0320 (nack_value lp.nack_reason))
      (put_elem (not (lp.cong_mark == 0)) (nni_of 0x0340 lp.cong_mark) more))

abbrev pub lp_header : LpL3 → List ℕ
lp_header lp = encoding_of (lp_elems lp []) []

-- A header as its types allow it: two fields of the type uint8.
pub record IsLp (lp : LpL3) : Type 0 where
  pub token_short : length lp.pit_token < 2 ^ 63
  pub reason_bound : lp.nack_reason < 256
  pub mark_bound : lp.cong_mark < 256

Joins-token :
    (token : List ℕ) (fs : Fields) (es : List Element)
    → Joins fs (encoding_of es [])
    → Joins
        (token_fields token fs)
        (encoding_of (put_elem (not (is_empty token)) (tlv_of 0x62 token) es) [])
Joins-token [] fs es h = h
Joins-token (x ∷ token) fs es h =
    Joins-cons (tlv_bytes 0x62 (x ∷ token)) fs _ (encoding_of es [])
      (Makes-tlv_bytes 0x62 (x ∷ token) refl) h

Joins-nack :
    (reason : ℕ) (fs : Fields) (es : List Element)
    → Joins fs (encoding_of es [])
    → Joins
        (nack_fields reason fs)
        (encoding_of (put_elem (not (reason == 0)) (tlv_of 0x0320 (nack_value reason)) es) [])
Joins-nack reason fs es h = elim (Bool-cases (reason == 0)) [
  | inl is ↦ rw is h
  | inr other ↦ rw other (elim (Bool-cases (reason == 255)) [
    | inl is ↦ rw is (
        Joins-cons (tlv 0x0320 nil) fs _ (encoding_of es [])
          (Makes-tlv 0x0320 nil [] refl Joins-nil) h)
    | inr less ↦ rw less (
        Joins-cons (tlv 0x0320 (one (tlv_nni 0x0321 reason))) fs _ (encoding_of es [])
          (Makes-tlv 0x0320 (one (tlv_nni 0x0321 reason)) _ refl (
            Joins-cons (tlv_nni 0x0321 reason) nil _ [] (Makes-tlv_nni 0x0321 reason refl)
              Joins-nil))
          h)
  ])
]

Joins-mark :
    (mark : ℕ)
    → Joins
        (if mark == 0 then nil else one (tlv_nni 0x0340 mark))
        (encoding_of (put_elem (not (mark == 0)) (nni_of 0x0340 mark) []) [])
Joins-mark mark = elim (Bool-cases (mark == 0)) [
  | inl is ↦ rw is Joins-nil
  | inr other ↦
      rw other
        (Joins-cons (tlv_nni 0x0340 mark) nil _ [] (Makes-tlv_nni 0x0340 mark refl) Joins-nil)
]

-- A header is encoded to its elements.
pub Joins-lp : (lp : LpL3) → Joins (encode_lp lp) (lp_header lp)
unfolding encode_lp
Joins-lp lp = Joins-token lp.pit_token _ _ (Joins-nack lp.nack_reason _ _ (Joins-mark lp.cong_mark))

pub lp_elems-append :
    (lp : LpL3) (more : List Element)
    → encoding_of (lp_elems lp more) [] ≡ lp_header lp ++ encoding_of more []
lp_elems-append lp more = encoding_of-put_elem (not (is_empty lp.pit_token)) _ _ _ _ (
    encoding_of-put_elem (not (lp.nack_reason == 0)) _ _ _ _
      (encoding_of-put_elem (not (lp.cong_mark == 0)) _ [] more _ refl))

-- The types and lengths in front of a value take 18 bytes at most.
pub wire_of-short : (e : Element) → length (wire_of e) ≤ 18 + length e.value
wire_of-short e =
    subst (λ n. n ≤ 18 + length e.value) (sym (length-wire_of e))
      (unfold Element.size VarNum.size in ground arith)

wire_of-long : (e : Element) → 2 ≤ length (wire_of e)
wire_of-long e =
    subst (λ n. 2 ≤ n) (sym (length-wire_of e)) (unfold Element.size VarNum.size in ground arith)

nack_value-short : (reason : ℕ) → length (nack_value reason) < 2 ^ 63
nack_value-short reason = elim (Bool-cases (reason == 255)) [
  | inl is ↦ rw is (omega arith)
  | inr other ↦ rw other (
      omega (
        arith,
        wire_of-short (nni_of 0x0321 reason),
        RoundTrip.length-encode reason,
        RoundTrip.size-le reason,
        length-append (wire_of (nni_of 0x0321 reason)) [],
      ))
]

pub lp_elems-IsElement :
    (lp : LpL3) (more : List Element)
    → IsLp lp
    → All IsElement more
    → All IsElement (lp_elems lp more)
lp_elems-IsElement lp more h hs =
    IsElement-put_elem (not (is_empty lp.pit_token)) _ _
      (λ _. tlv_of-IsElement 0x62 lp.pit_token refl h.token_short)
      (IsElement-put_elem (not (lp.nack_reason == 0)) _ _
        (λ _. tlv_of-IsElement 0x0320 _ refl (nack_value-short lp.nack_reason))
        (IsElement-put_elem (not (lp.cong_mark == 0)) _ _
          (λ _. nni_of-IsElement 0x0340 lp.cong_mark refl) hs))

zero_of : (n : ℕ) → not (n == 0) ≡ false → n ≡ 0
zero_of n h = ground (arith, h)

module _ (sha256 : List ℕ → List ℕ) (known : ℕ → Bool) where
  -- The loop on the header of a Nack.
  pub reason_fields :
      (reason : ℕ)
      → reason < 256
      → decode_fields (nack_step sha256 known) nack_unspecified (nack_value reason) ≡ ok reason
  reason_fields reason small = elim (Bool-cases (reason == 255)) [
    | inl is ↦
        rw
          (
            is,
            decode_fields-encoding_of (nack_step sha256 known) nack_unspecified nack_unspecified []
                tt (decode_each-nil (nack_step sha256 known) nack_unspecified),
          )
          (ap ok (sym ((==_iff reason 255).0 is)))
    | inr other ↦ rw other (
        decode_fields-encoding_of (nack_step sha256 known) nack_unspecified reason
          (nni_of 0x0321 reason ∷ []) (nni_of-IsElement 0x0321 reason refl, tt)
          (decode_each-cons (nack_step sha256 known) nack_unspecified reason reason
            (nni_of 0x0321 reason) []
            (nni_step reason 255 range_error (omega (arith, small)) (omega (arith, small)))
            (decode_each-nil (nack_step sha256 known) reason)))
  ]

  -- The loop of decodeValue on the fields of a header.
  pub header_loop :
      (st last : Decoding sha256 known) (lp : LpL3) (more : List Element)
      → IsLp lp
      → decode_each (lp_step sha256 known) (with_lp_of sha256 known st lp) (decoding_of more [])
        ≡ ok last
      → decode_each
          (lp_step sha256 known)
          (with_lp_of sha256 known st no_lp)
          (decoding_of (lp_elems lp more) [])
        ≡ ok last
  header_loop st last lp more h e =
      let step = lp_step sha256 known in
      let l1 : LpL3 = record no_lp { pit_token = lp.pit_token } in
      let l2 : LpL3 = record l1 { nack_reason = lp.nack_reason } in
      let s1 = with_lp_of sha256 known st l1 in
      let s2 = with_lp_of sha256 known st l2 in
      let s3 = with_lp_of sha256 known st lp in
      decode_each-put_elem step (with_lp_of sha256 known st no_lp) s1 last _ _ _ (λ _. refl)
        (λ n.
          ap (λ r. with_lp_of sha256 known st (record no_lp { pit_token = r }))
            (sym (nil_of lp.pit_token n)))
        (decode_each-put_elem step s1 s2 last _ _ _
          (λ _. rw (reason_fields lp.nack_reason h.reason_bound) refl)
          (λ n.
            ap (λ r. with_lp_of sha256 known st (record l1 { nack_reason = r }))
              (sym (zero_of _ n)))
          (decode_each-put_elem step s2 s3 last _ _ _
            (λ _.
              rw
                (nni_step lp.cong_mark 255 range_error (omega (arith, h.mark_bound))
                  (omega (arith, h.mark_bound)))
                refl)
            (λ n.
              ap (λ r. with_lp_of sha256 known st (record l2 { cong_mark = r }))
                (sym (zero_of _ n)))
            e))

wire_of-cons : (e : Element) (rest : List ℕ) → wire_of e ++ rest ≢ []
wire_of-cons e rest h =
    absurd (omega (arith, ap length h, length-append (wire_of e) rest, wire_of-long e))

-- No element is behind a condition where nothing is written.
put_nil :
    (b : Bool) (e : Element) (es : List Element)
    → encoding_of (put_elem b e es) [] ≡ []
    → (b ≡ false) × (encoding_of es [] ≡ [])
put_nil true e es h = absurd (wire_of-cons e (encoding_of es []) h)
put_nil false e es h = (refl, h)

lp_of :
    (t : List ℕ) (r m : ℕ)
    → t ≡ []
    → r ≡ 0
    → m ≡ 0
    → record { pit_token = t; nack_reason = r; cong_mark = m } ≡ no_lp
lp_of t r m ht hr hm = rw (ht, hr, hm) refl

pub header_nil : (lp : LpL3) → lp_header lp ≡ [] → lp ≡ no_lp
header_nil lp h =
    let (no_token, h1) = put_nil (not (is_empty lp.pit_token)) _ _ h in
    let (no_reason, h2) = put_nil (not (lp.nack_reason == 0)) _ _ h1 in
    let (no_mark, _) = put_nil (not (lp.cong_mark == 0)) _ [] h2 in
    lp_of lp.pit_token lp.nack_reason lp.cong_mark (nil_of lp.pit_token no_token)
      (zero_of lp.nack_reason no_reason) (zero_of lp.cong_mark no_mark)
