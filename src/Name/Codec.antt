-- ===== src/Name/Codec.antt =====
-- Names on the wire.
use containernet_ndn_dpdk.Shared.{
  [], ℕ, ◌≡◌, refl, ap, ◌∙◌, subst, inl, inr, true, false, List, ◌∷◌, ◌++◌, arith, Bool-cases,
  length, All, length-append, ok-injective, Result, ok, err, panic, incomplete, component_type,
  ◌>>=◌, >>=-eq-ok,
}
use containernet_ndn_dpdk.Tlv.Element.Wire.{wire_of, IsElement, length-wire_of}
use containernet_ndn_dpdk.Tlv.Decode.{DecodingElement, elements, err_unless_eof}
use containernet_ndn_dpdk.Tlv.Decode.Splits.{element_nil}
use containernet_ndn_dpdk.Tlv.Decode.RoundTrip.{
  encoding_of, decoding_of, elements-encoding_of, err_unless_eof-nil, err_unless_eof-cons,
}
use containernet_ndn_dpdk.Tlv.Encode.{encode_subs, join}
use containernet_ndn_dpdk.Tlv.Encode.Wire.{encode_value_only-tlv}
use containernet_ndn_dpdk.Tlv.Encode.Buffer.{encode_subs-cons, encode_subs-nil}
use containernet_ndn_dpdk.Name.Component
use containernet_ndn_dpdk.Name.Component.{NameComponent, valid}
use containernet_ndn_dpdk.Name.Component.Codec.{
  IsComponent, component-IsElement, encode-field, encode-field_invalid, unmarshal_tlv_lem,
}
use containernet_ndn_dpdk.Name.{
  Name, tlv_length, comp_fields, marshal_binary, unmarshal_comps, unmarshal_binary, tt_name,
}

abbrev pub IsName : Name → Type 0
IsName = All IsComponent

pub IsName-elements : (name : Name) → IsName name → All IsElement name
IsName-elements [] h = tt
IsName-elements (comp ∷ name) (hc, hn) = (component-IsElement comp hc, IsName-elements name hn)

pub comp_fields-wires :
    (name : Name)
    → IsName name
    → (encode_subs (comp_fields name) >>= λ parts. ok (join parts)) ≡ ok (encoding_of name [])
unfolding comp_fields
comp_fields-wires [] h = rw encode_subs-nil
comp_fields-wires (comp ∷ name) (hc, hn) =
    rw (encode_subs-cons (Component.field comp) (comp_fields name), encode-field comp hc)
      (join_first (wire_of comp) (encode_subs (comp_fields name)) (comp_fields-wires name hn))
  where
    join_first :
        (w : List ℕ) (r : Result (List (List ℕ))) {v : List ℕ}
        → (r >>= λ parts. ok (join parts)) ≡ ok v
        → ((r >>= λ parts. ok (w ∷ parts)) >>= λ parts. ok (join parts)) ≡ ok (w ++ v)
    join_first w (ok parts) e = ap (λ t. ok (w ++ t)) (ok-injective e)
    join_first w (err x) e = cc
    join_first w panic e = cc

-- The value of a Name is the wires of its components, one after the other.
pub marshal_binary-wires :
    (name : Name) → IsName name → marshal_binary name ≡ ok (encoding_of name [])
unfolding marshal_binary
marshal_binary-wires name h =
    encode_value_only-tlv tt_name (comp_fields name) (ground arith) ∙ comp_fields-wires name h

length-encoding_of : (name : Name) → length (encoding_of name []) ≡ tlv_length name
unfolding tlv_length
length-encoding_of [] = refl
length-encoding_of (comp ∷ name) = omega (
  arith,
  length-append (wire_of comp) (encoding_of name []),
  length-wire_of comp,
  length-encoding_of name,
)

pub unmarshal_comps-decoding_of :
    (name : Name) → IsName name → unmarshal_comps (decoding_of name []) ≡ ok name
unfolding unmarshal_comps
unmarshal_comps-decoding_of [] h = refl
unmarshal_comps-decoding_of (comp ∷ name) (hc, hn) =
    rw (unmarshal_tlv_lem comp, hc.good, unmarshal_comps-decoding_of name hn)

-- A name of valid components, with values shorter than 2 ^ 63 bytes, is encoded by MarshalBinary,
-- UnmarshalBinary reads that name back, and Length is the size of the encoding.
pub unmarshal_binary-marshal_binary :
    (name : Name)
    → IsName name
    → (wire : List ℕ) × (marshal_binary name ≡ ok wire)
      × (unmarshal_binary wire ≡ ok name)
      × (length wire ≡ tlv_length name)
unfolding unmarshal_binary
unmarshal_binary-marshal_binary name h = (
  encoding_of name [],
  marshal_binary-wires name h,
  rw (
    elements-encoding_of name [] incomplete (IsName-elements name h) element_nil,
    unmarshal_comps-decoding_of name h,
    err_unless_eof-nil,
  ),
  length-encoding_of name,
)

-- MarshalBinary fails with ErrComponentType on a name whose components are well formed up to one
-- with an invalid TLV-TYPE.
pub marshal_binary_refuses :
    (front : Name) (comp : NameComponent) (back : Name)
    → IsName front
    → valid comp ≡ false
    → marshal_binary (front ++ (comp ∷ back)) ≡ err component_type
unfolding marshal_binary comp_fields
marshal_binary_refuses front comp back h bad =
    encode_value_only-tlv tt_name (comp_fields (front ++ (comp ∷ back))) (ground arith)
    ∙ refused front h
  where
    after_first :
        (r : Result (List (List ℕ))) (w : List ℕ)
        → (r >>= λ parts. ok (join parts)) ≡ err component_type
        → ((r >>= λ parts. ok (w ∷ parts)) >>= λ parts. ok (join parts)) ≡ err component_type
    after_first (ok parts) w e = cc
    after_first (err x) w e = e
    after_first panic w e = cc

    refused :
        (front : Name)
        → IsName front
        → (encode_subs (comp_fields (front ++ (comp ∷ back))) >>= λ parts. ok (join parts))
          ≡ err component_type
    refused [] h =
        rw (
          encode_subs-cons (Component.field comp) (comp_fields back),
          encode-field_invalid comp bad,
        )
    refused (c ∷ front) (hc, hn) =
        rw
          (
            encode_subs-cons (Component.field c) (comp_fields (front ++ (comp ∷ back))),
            encode-field c hc,
          )
          (after_first (encode_subs (comp_fields (front ++ (comp ∷ back)))) (wire_of c)
            (refused front hn))

-- The components of decoded elements.
abbrev pub comps_of : List DecodingElement → Name
comps_of [] = []
comps_of (de ∷ list) = de.elem ∷ comps_of list

unmarshal_comps_inv :
    (list : List DecodingElement) (name : Name)
    → unmarshal_comps list ≡ ok name
    → (comps_of list ≡ name) × All (λ comp. valid comp ≡ true) name
unfolding unmarshal_comps
unmarshal_comps_inv [] name h =
    subst (λ n. ([] ≡ n) × All (λ comp. valid comp ≡ true) n) (ok-injective h) (refl, tt)
unmarshal_comps_inv (de ∷ list) name h = elim (Bool-cases (valid de.elem)) [
  | inl good ↦
      let (n, p, q) =
        >>=-eq-ok (unmarshal_comps list) _ (rw (unmarshal_tlv_lem de.elem, good) at h) in
      let (c, v) = unmarshal_comps_inv list n p in
      subst (λ m. (comps_of (de ∷ list) ≡ m) × All (λ comp. valid comp ≡ true) m) (ok-injective q)
        (ap (λ cs. de.elem ∷ cs) c, (good, v))
  | inr bad ↦ cc (rw (unmarshal_tlv_lem de.elem, bad) at h)
]

at_end :
    (rest : List ℕ) (name name' : Name)
    → (err_unless_eof rest >>= λ _. ok name') ≡ ok name
    → (rest ≡ []) × (name' ≡ name)
at_end [] name name' h = (refl, ok-injective (rw err_unless_eof-nil at h))
at_end (x ∷ rest) name name' h = cc (rw err_unless_eof-cons at h)

-- A wire that UnmarshalBinary accepts is nothing but elements, which are the components of the name,
-- and each has a valid TLV-TYPE.
pub unmarshal_binary_inv :
    (wire : List ℕ) (name : Name)
    → unmarshal_binary wire ≡ ok name
    → (list : List DecodingElement) × (elements wire ≡ ok (list, []))
      × (comps_of list ≡ name)
      × All (λ comp. valid comp ≡ true) name
unfolding unmarshal_binary
unmarshal_binary_inv wire name h =
    let ((list, rest), p, q) = >>=-eq-ok (elements wire) _ h in
    let (name', r, u) = >>=-eq-ok (unmarshal_comps list) _ q in
    let (empty, same) = at_end rest name name' u in
    let (c, v) = unmarshal_comps_inv list name' r in
    (
      list,
      p ∙ ap (λ t. ok (list, t)) empty,
      c ∙ same,
      subst (All (λ comp. valid comp ≡ true)) same v,
    )
