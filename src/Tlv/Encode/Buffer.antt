-- ===== src/Tlv/Encode/Buffer.antt =====
-- ndn/tlv/encode.go: Encode over a list of fields, and TLVNNI.
use containernet_ndn_dpdk.Shared.{
  [], ℕ, ◌^◌, ◌<◌, ◌≡◌, refl, ◌∙◌, ◌≢◌, inl, inr, false, none, some, List, ◌∷◌, ◌++◌, append-nil,
  append_assoc, arith, ltb, if◌then◌else◌, Result-cases, Error, Result, ok, err, panic, ◌>>=◌,
}
use containernet_ndn_dpdk.Tlv.Element.{bad_type}
use containernet_ndn_dpdk.Tlv.Element.Wire.{wire_of}
use containernet_ndn_dpdk.Tlv.Decode
use containernet_ndn_dpdk.Tlv.Decode.{unmarshal_nni}
use containernet_ndn_dpdk.Tlv.Nni
use containernet_ndn_dpdk.Tlv.Nni.RoundTrip
use containernet_ndn_dpdk.Tlv.Encode.{
  Field, Fields, empty, failure, bytes, nni, tlv_fields, tlv_fielders, nil, cons, one, join, encode,
  encode_subs, tlv_nni, EncodingBuffer, output, append_all, encode_all,
}
use containernet_ndn_dpdk.Tlv.Encode.Wire.{
  encode-append, tlv_wire, tlv_from_lem, encode_value_only-one,
}
use containernet_ndn_dpdk.Tlv.Decode.RoundTrip.{decode_alone, unmarshal_nni-encode}

-- Encoding does not panic.
mutual
  unfolding encode

  pub encode-ne-panic : (f : Field) (b : List ℕ) → encode f b ≢ panic
  encode-ne-panic empty b = λ e. cc
  encode-ne-panic (failure x) b = λ e. cc
  encode-ne-panic (bytes v) b = λ e. cc
  encode-ne-panic (nni n) b = λ e. cc
  encode-ne-panic (tlv_fields n subs) b = ground (arith, encode_subs-ne-panic subs)
  encode-ne-panic (tlv_fielders n subs) b = ground (arith, encode_subs-ne-panic subs)

  pub encode_subs-ne-panic : (fs : Fields) → encode_subs fs ≢ panic
  encode_subs-ne-panic nil = λ e. cc
  encode_subs-ne-panic (cons f fs) = ground (arith, encode-ne-panic f [], encode_subs-ne-panic fs)

-- The accumulating buffer and the parts of a list of fields.
abbrev start : List ℕ → EncodingBuffer
start b = record { b = b; failed = none }

append_all-failed :
    (fs : Fields) (b : List ℕ) (e : Error)
    → output (append_all (record { b = b; failed = some e }) fs) ≡ err e
unfolding append_all output
append_all-failed nil b e = refl
append_all-failed (cons f fs) b e = append_all-failed fs b e

pub encode_subs-cons :
    (f : Field) (fs : Fields)
    → encode_subs (cons f fs)
      ≡ (encode f [] >>= λ part. encode_subs fs >>= λ parts. ok (part ∷ parts))
unfolding encode
encode_subs-cons f fs = refl

one_more :
    (b o : List ℕ) (r : Result (List (List ℕ)))
    → (r >>= λ parts. ok ((b ++ o) ++ join parts))
      ≡ ((r >>= λ parts. ok (o ∷ parts)) >>= λ parts. ok (b ++ join parts))
one_more b o (ok parts) = rw (append_assoc b o (join parts))
one_more b o (err e) = refl
one_more b o panic = refl

append_all-start :
    (fs : Fields) (b : List ℕ)
    → output (append_all (start b) fs) ≡ (encode_subs fs >>= λ parts. ok (b ++ join parts))
unfolding append_all
append_all-start nil b = unfold output encode in rw append-nil
append_all-start (cons f fs) b = elim (Result-cases (encode f [])) [
  | inl (o, p) ↦
      rw (encode-append f b, encode_subs-cons f fs, p)
        (append_all-start fs (b ++ o) ∙ one_more b o (encode_subs fs))
  | inr (inl (e, p)) ↦ rw (encode-append f b, encode_subs-cons f fs, p) (append_all-failed fs [] e)
  | inr (inr p) ↦ absurd (encode-ne-panic f [] p)
]

-- Encoding a list of fields joins what the fields make, in order, up to the first error.
pub encode_all_lem : (fs : Fields) → encode_all fs ≡ (encode_subs fs >>= λ parts. ok (join parts))
unfolding encode_all
encode_all_lem fs = append_all-start fs []

pub encode-tlv_nni :
    (typ n : ℕ)
    → bad_type typ ≡ false
    → encode (tlv_nni typ n) [] ≡ ok (wire_of (record { typ = typ; value = Nni.encode n [] }))
unfolding tlv_nni
encode-tlv_nni typ n good =
    tlv_from_lem typ (one (nni n))
    ∙ tlv_wire typ (one (nni n))
    ∙ rw (encode_value_only-one typ (nni n) good) (unfold encode in refl)

-- A 64-bit number encoded by TLVNNI under a valid type is read back by Decode with UnmarshalNNI exactly if it is within the
-- given maximum; a larger one is the given error.
pub decode-tlv_nni :
    (typ n bound : ℕ) (range : Error)
    → bad_type typ ≡ false
    → n < 2 ^ 64
    → (encode (tlv_nni typ n) [] >>= λ wire.
        Decode.decode wire (λ t v. unmarshal_nni v bound range))
      ≡ (if ltb bound n then err range else ok n)
decode-tlv_nni typ n bound range good h = rw (encode-tlv_nni typ n good) (
    decode_alone (record { typ = typ; value = Nni.encode n [] }) _
      (record {
        typ_low = ground arith;
        typ_high = ground arith;
        fits = omega (arith, RoundTrip.length-encode n, RoundTrip.size-le n);
      })
    ∙ unmarshal_nni-encode n bound range h)

pub encode_subs-nil : encode_subs nil ≡ ok []
unfolding encode
encode_subs-nil = refl

pub encode-failure : (e : Error) (b : List ℕ) → encode (failure e) b ≡ err e
unfolding encode
encode-failure e b = refl
