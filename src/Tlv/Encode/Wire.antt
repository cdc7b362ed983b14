-- ===== src/Tlv/Encode/Wire.antt =====
-- ndn/tlv/encode.go: the bytes of a field and of a TLV.
use containernet_ndn_dpdk.Shared.{
  [], ℕ, ◌≤◌, ◌≡◌, refl, sym, ap, ◌∙◌, inl, inr, false, List, ◌∷◌, ◌++◌, append-nil, append_assoc,
  arith, lt→ltb, Bool-cases, length, length-append, Result, ok, err, panic, ◌>>=◌,
}
use containernet_ndn_dpdk.Tlv.Element.{Element, bad_type}
use containernet_ndn_dpdk.Tlv.Element.Wire.{wire_of, IsElement}
use containernet_ndn_dpdk.Tlv.Nni.RoundTrip
use containernet_ndn_dpdk.Tlv.VarNum
use containernet_ndn_dpdk.Tlv.VarNum.{max_u32}
use containernet_ndn_dpdk.Tlv.VarNum.Shape
use containernet_ndn_dpdk.Tlv.Encode.{
  max_u64, Field, Fields, empty, failure, bytes, nni, tlv_fields, tlv_fielders, one, total, join,
  encode_tlv_finish, encode, encode_subs, tlv, tlv_from, element_field, encode_value_only,
}

pub length-join : (ps : List (List ℕ)) → length (join ps) ≡ total ps
length-join [] = refl
length-join (p ∷ ps) = omega (arith, length-append p (join ps), length-join ps)

finish_append :
    (r : Result (List (List ℕ))) (integer : ℕ) (b : List ℕ)
    → (r >>= λ parts. ok (encode_tlv_finish integer b parts))
      ≡ (r >>= λ parts. ok (encode_tlv_finish integer [] parts)) >>= λ o. ok (b ++ o)
unfolding encode_tlv_finish
finish_append (ok parts) integer b = refl
finish_append (err e) integer b = refl
finish_append panic integer b = refl

-- Encoding a field appends to the slice what it makes of the empty one.
pub encode-append : (f : Field) (b : List ℕ) → encode f b ≡ (encode f [] >>= λ o. ok (b ++ o))
unfolding encode
encode-append empty b = rw append-nil
encode-append (failure e) b = refl
encode-append (bytes v) b = refl
encode-append (nni n) b = rw (RoundTrip.encode-append n b)
encode-append (tlv_fields integer subs) b = finish_append (encode_subs subs) integer b
encode-append (tlv_fielders integer subs) b = finish_append (encode_subs subs) integer b

-- The TLV-LENGTH and the header that `encode_tlv_finish` writes for a TLV-TYPE.
finish_wire :
    (typ : ℕ) (parts : List (List ℕ))
    → typ ≤ max_u32
    → encode_tlv_finish typ [] parts ≡ wire_of (record { typ = typ; value = join parts })
unfolding encode_tlv_finish
finish_wire typ parts h =
    rw
      (
        lt→ltb typ max_u64 (omega arith),
        ← length-join parts,
        Shape.encode-append (length (join parts)) (VarNum.encode typ []),
      )
      (append_assoc (VarNum.encode typ []) (VarNum.encode (length (join parts)) []) (join parts))

finish_value : (parts : List (List ℕ)) → encode_tlv_finish max_u64 [] parts ≡ join parts
unfolding encode_tlv_finish
finish_value parts = refl

header_around :
    (r : Result (List (List ℕ))) (typ : ℕ)
    → typ ≤ max_u32
    → (r >>= λ parts. ok (encode_tlv_finish typ [] parts)) ≡ (
        (r >>= λ parts. ok (encode_tlv_finish max_u64 [] parts)) >>= λ v.
        ok (wire_of (record { typ = typ; value = v })))
header_around (ok parts) typ h = ap ok (
    finish_wire typ parts h
    ∙ ap (λ v. wire_of (record { typ = typ; value = v })) (sym (finish_value parts)))
header_around (err e) typ h = refl
header_around panic typ h = refl

-- A TLV is the header around what EncodeValueOnly returns, and fails with the same error.
pub tlv_wire :
    (typ : ℕ) (subs : Fields)
    → encode (tlv typ subs) []
      ≡ (encode_value_only (tlv typ subs) >>= λ v. ok (wire_of (record { typ = typ; value = v })))
unfolding encode encode_value_only tlv
tlv_wire typ subs = elim (Bool-cases (bad_type typ)) [
  | inl bad ↦ rw bad
  | inr good ↦ rw good (header_around (encode_subs subs) typ (ground arith))
]

-- TLVFrom makes the same bytes as TLV.
pub tlv_from_lem :
    (typ : ℕ) (subs : Fields) → encode (tlv_from typ subs) [] ≡ encode (tlv typ subs) []
unfolding encode tlv_from tlv
tlv_from_lem typ subs = elim (Bool-cases (bad_type typ)) [ inl bad ↦ rw bad | inr good ↦ rw good ]

-- The value of a TLV with one field.
pub encode_value_only-one :
    (typ : ℕ) (f : Field) → bad_type typ ≡ false → encode_value_only (tlv typ (one f)) ≡ encode f []
unfolding encode_value_only tlv encode
encode_value_only-one typ f good = rw good (one_part (encode f []))
  where
    one_part :
        (r : Result (List ℕ))
        → ((r >>= λ part. ok (part ∷ [])) >>= λ parts. ok (encode_tlv_finish max_u64 [] parts)) ≡ r
    one_part (ok v) = ap ok (finish_value (v ∷ []) ∙ append-nil v)
    one_part (err e) = refl
    one_part panic = refl

good_type : (typ : ℕ) → 1 ≤ typ → typ ≤ max_u32 → bad_type typ ≡ false
good_type typ h k = ground arith

-- A valid element is encoded to its wire form.
pub encode-element_field :
    (e : Element) → IsElement e → encode (element_field e) [] ≡ ok (wire_of e)
unfolding element_field
encode-element_field e h =
    tlv_wire e.typ (one (bytes e.value))
    ∙ rw (encode_value_only-one e.typ (bytes e.value) (good_type e.typ h.typ_low h.typ_high))
        (unfold encode in refl)

-- The value of a TLV with a valid type is the join of its parts.
pub encode_value_only-tlv :
    (typ : ℕ) (subs : Fields)
    → bad_type typ ≡ false
    → encode_value_only (tlv typ subs) ≡ (encode_subs subs >>= λ parts. ok (join parts))
unfolding encode_value_only tlv encode
encode_value_only-tlv typ subs good = rw good (joined (encode_subs subs))
  where
    joined :
        (r : Result (List (List ℕ)))
        → (r >>= λ parts. ok (encode_tlv_finish max_u64 [] parts))
          ≡ (r >>= λ parts. ok (join parts))
    joined (ok parts) = ap ok (finish_value parts)
    joined (err e) = refl
    joined panic = refl
