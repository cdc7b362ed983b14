-- ===== src/Tlv/Element/Wire.antt =====
-- ndn/tlv/element.go: Element.Decode on any input, and on an encoded element.
use containernet_ndn_dpdk.Shared.{
  [], refl, ℕ, ◌^◌, ◌≤◌, ◌<◌, ◌≡◌, sym, ap, ◌∙◌, ◌↔◌, inl, inr, false, List, ◌++◌, append_assoc,
  arith, if◌then◌else◌, Bool-cases, lt_or_le, length, take, drop, length-append, take-append-drop,
  length-take, take-append, drop-append, Result-cases, Error, ok, err, panic, incomplete,
  type_range,
}
use containernet_ndn_dpdk.Shared.Int.{ltb_ℤ, pos, to_int, int_exceeds-small, int_exceeds-large}
use containernet_ndn_dpdk.Tlv.VarNum
use containernet_ndn_dpdk.Tlv.VarNum.{max_u32}
use containernet_ndn_dpdk.Tlv.VarNum.Shape.{length-encode, decode_front, decode-ne-panic}
use containernet_ndn_dpdk.Tlv.VarNum.RoundTrip.{decode-encode}
use containernet_ndn_dpdk.Tlv.Element.{Element, size, decode, bad_type, split_value}

-- The wire form: TLV-TYPE, TLV-LENGTH, TLV-VALUE.
abbrev pub wire_of : Element → List ℕ
wire_of e = VarNum.encode e.typ [] ++ (VarNum.encode (length e.value) [] ++ e.value)

-- `decode` with the two headers read.
pub decode_headers :
    (wire d rest : List ℕ) (typ n : ℕ)
    → VarNum.decode wire ≡ ok (typ, d)
    → VarNum.decode d ≡ ok (n, rest)
    → decode wire ≡ (
        if bad_type typ
        then err type_range
        else if ltb_ℤ (pos (length rest)) (to_int n)
        then err incomplete
        else split_value typ n rest)
unfolding decode
decode_headers wire d rest typ n p q = ground (arith, p, q)

pub record IsElement (e : Element) : Type 0 where
  pub typ_low : 1 ≤ e.typ
  pub typ_high : e.typ ≤ max_u32
  pub fits : length e.value < 2 ^ 63

pub decode-wire_of :
    (e : Element) (rest : List ℕ) → IsElement e → decode (wire_of e ++ rest) ≡ ok (e, rest)
decode-wire_of e rest h =
    let body = VarNum.encode (length e.value) [] ++ e.value in
    decode_headers (wire_of e ++ rest) (body ++ rest) (e.value ++ rest) e.typ (length e.value)
      (rw (append_assoc (VarNum.encode e.typ []) body rest)
        (decode-encode e.typ (body ++ rest) (omega (arith, h.typ_high))))
      (rw (append_assoc (VarNum.encode (length e.value) []) e.value rest)
        (decode-encode (length e.value) (e.value ++ rest) (omega (arith, h.fits))))
    ∙ ground (arith, length-append e.value rest, take-append e.value rest, drop-append e.value rest)

-- The parts of a successful decode.
pub record Decoded (wire rest : List ℕ) (e : Element) : Type 0 where
  pub after_type : List ℕ
  pub after_length : List ℕ
  pub type_read : VarNum.decode wire ≡ ok (e.typ, after_type)
  pub type_good : bad_type e.typ ≡ false
  pub length_read : VarNum.decode after_type ≡ ok (length e.value, after_length)
  pub whole : after_length ≡ e.value ++ rest

pub no_type : (wire : List ℕ) (x : Error) → VarNum.decode wire ≡ err x → decode wire ≡ err x
unfolding decode
no_type wire x p = ground (arith, p)

pub no_length :
    (wire d : List ℕ) (typ : ℕ) (x : Error)
    → VarNum.decode wire ≡ ok (typ, d)
    → VarNum.decode d ≡ err x
    → decode wire ≡ (if bad_type typ then err type_range else err x)
unfolding decode
no_length wire d typ x p q = ground (arith, p, q)

after_headers_inv :
    (typ n : ℕ) (vr rest : List ℕ) (e : Element)
    → (if bad_type typ
        then err type_range
        else if ltb_ℤ (pos (length vr)) (to_int n)
        then err incomplete
        else split_value typ n vr)
      ≡ ok (e, rest)
    → (bad_type typ ≡ false)
      × (n ≤ length vr)
      × (e ≡ record { typ = typ; value = take n vr })
      × (rest ≡ drop n vr)
after_headers_inv typ n vr rest e h = elim (Bool-cases (ltb_ℤ (pos (length vr)) (to_int n))) [
  | inl short ↦ ground (arith, rw short at h)
  | inr long ↦ ground (arith, rw long at h)
]

pub decode_inv :
    (wire rest : List ℕ) (e : Element) → decode wire ≡ ok (e, rest) → Decoded wire rest e
decode_inv wire rest e h = elim (Result-cases (VarNum.decode wire)) [
  | inl ((typ, d), p) ↦ elim (Result-cases (VarNum.decode d)) [
    | inl ((n, vr), q) ↦
        let (b, c, v, w) =
          after_headers_inv typ n vr rest e (sym (decode_headers wire d vr typ n p q) ∙ h) in
        let t : e.typ ≡ typ = ap (λ (x : Element). x.typ) v in
        let val : e.value ≡ take n vr = ap (λ (x : Element). x.value) v in
        let len : length e.value ≡ n = rw val (omega (arith, length-take n vr)) in
        record {
          after_type = d;
          after_length = vr;
          type_read = rw t p;
          type_good = rw t b;
          length_read = rw len q;
          whole = rw (val, w) (sym (take-append-drop n vr));
        }
    | inr (inl (x, q)) ↦ ground (arith, no_length wire d typ x p q)
    | inr (inr q) ↦ absurd (decode-ne-panic d q)
  ]
  | inr (inl (x, p)) ↦ cc (no_type wire x p)
  | inr (inr p) ↦ absurd (decode-ne-panic wire p)
]

-- A successful decode consumes the front of the input: at least two bytes and the value.
pub decode_front_element :
    (wire rest : List ℕ) (e : Element)
    → decode wire ≡ ok (e, rest)
    → (header : List ℕ) × (wire ≡ header ++ (e.value ++ rest)) × (2 ≤ length header)
decode_front_element wire rest e h =
    let r = decode_inv wire rest e h in
    let (f1, e1, l1) = decode_front wire e.typ r.after_type r.type_read in
    let (f2, e2, l2) = decode_front r.after_type (length e.value) r.after_length r.length_read in
    (
      f1 ++ f2,
      e1
          ∙ ap (λ t. f1 ++ t) e2
          ∙ sym (append_assoc f1 f2 r.after_length)
          ∙ ap (λ t. (f1 ++ f2) ++ t) r.whole,
      omega (
        arith,
        ap length e1,
        ap length e2,
        length-append f1 r.after_type,
        length-append f2 r.after_length,
        length-append f1 f2,
      ),
    )

after_headers_panic :
    (typ n : ℕ) (rest : List ℕ)
    → bad_type typ ≡ false
    → length rest < 2 ^ 63
    → ((if bad_type typ
          then err type_range
          else if ltb_ℤ (pos (length rest)) (to_int n)
          then err incomplete
          else split_value typ n rest)
        ≡ panic)
      ↔ (2 ^ 63 ≤ n)
after_headers_panic typ n rest good h = elim (lt_or_le n (2 ^ 63)) [
  | inl small ↦ rw (good, int_exceeds-small (length rest) n small) (ground arith)
  | inr large ↦ rw (good, int_exceeds-large (length rest) n large) (ground arith)
]

-- Behind a valid TLV-TYPE the decoder panics exactly on a TLV-LENGTH of 2 ^ 63 and more: there
-- `int(length)` is negative and passes the check against the input's length.
pub decode_panics :
    (wire d rest : List ℕ) (typ n : ℕ)
    → VarNum.decode wire ≡ ok (typ, d)
    → bad_type typ ≡ false
    → VarNum.decode d ≡ ok (n, rest)
    → length rest < 2 ^ 63
    → (decode wire ≡ panic) ↔ (2 ^ 63 ≤ n)
decode_panics wire d rest typ n p good q h =
    rw (decode_headers wire d rest typ n p q) (after_headers_panic typ n rest good h)

pub decode_nil : decode [] ≡ err incomplete
unfolding decode VarNum.decode
decode_nil = refl

pub length-wire_of : (e : Element) → length (wire_of e) ≡ size e
unfolding size
length-wire_of e = omega (
  arith,
  length-append (VarNum.encode e.typ []) (VarNum.encode (length e.value) [] ++ e.value),
  length-append (VarNum.encode (length e.value) []) e.value,
  length-encode e.typ,
  length-encode (length e.value),
)
