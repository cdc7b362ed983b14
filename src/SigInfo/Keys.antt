-- ===== src/SigInfo/Keys.antt =====
-- ndn/sig-info.go: KeyLocator on the wire.
use containernet_ndn_dpdk.Shared.{
  ℕ, ◌^◌, ◌<◌, ◌≡◌, refl, ◌⊎◌, inl, inr, false, ◌&&◌, not, List, [], ◌∷◌, arith, if◌then◌else◌,
  length, is_empty, ok, incomplete,
}
use containernet_ndn_dpdk.Tlv.Element.{Element}
use containernet_ndn_dpdk.Tlv.Element.Wire.{IsElement}
use containernet_ndn_dpdk.Tlv.Decode.Splits.{element_nil}
use containernet_ndn_dpdk.Tlv.Decode.RoundTrip.{
  encoding_of, decoding_of, elements-encoding_of, err_unless_eof-nil,
}
use containernet_ndn_dpdk.Tlv.Decode.Each.{decode_each, decode_each-cons, decode_each-nil}
use containernet_ndn_dpdk.Tlv.Encode.{nil, one, tlv_bytes, tlv_from}
use containernet_ndn_dpdk.Tlv.Encode.Writes.{
  tlv_of, Makes, Joins-nil, Joins-cons, Makes-tlv, Makes-tlv_from, Makes-tlv_bytes,
  tlv_of-IsElement,
}
use containernet_ndn_dpdk.Name
use containernet_ndn_dpdk.Name.{Name}
use containernet_ndn_dpdk.Name.Codec.{IsName}
use containernet_ndn_dpdk.Name.Wire.{name_value, Makes-name, unmarshal_binary-name_value}
use containernet_ndn_dpdk.SigInfo.{KeyLocator, no_key, key_field, key_step, unmarshal_key}

-- The element in a KeyLocator, and the value of the KeyLocator.
abbrev pub key_elem : KeyLocator → Element
key_elem kl =
    if not (is_empty kl.digest) then tlv_of 0x1d kl.digest else tlv_of 0x07 (name_value kl.name)

abbrev pub key_value : KeyLocator → List ℕ
key_value kl = encoding_of (key_elem kl ∷ []) []

abbrev pub key_of : Name → List ℕ → KeyLocator
key_of name digest = record { name = name; digest = digest }

-- A KeyLocator with at most one of its fields, which are valid and short.
pub record IsKeyLocator (kl : KeyLocator) : Type 0 where
  pub one_field : (kl.name ≡ []) ⊎ (kl.digest ≡ [])
  pub name_good : IsName kl.name
  pub name_short : length (name_value kl.name) < 2 ^ 63
  pub digest_short : length kl.digest < 2 ^ 63
  pub value_short : length (key_value kl) < 2 ^ 63

Makes-key_name :
    (name : Name)
    → IsName name
    → Makes (tlv_from 0x1c (one (Name.field name))) (tlv_of 0x1c (key_value (key_of name [])))
Makes-key_name name good =
    Makes-tlv_from 0x1c (one (Name.field name)) _ refl
      (Joins-cons (Name.field name) nil _ [] (Makes-name name good) Joins-nil)

pub Makes-key :
    (name : Name) (digest : List ℕ)
    → IsKeyLocator (key_of name digest)
    → Makes (key_field (key_of name digest)) (tlv_of 0x1c (key_value (key_of name digest)))
unfolding key_field
Makes-key [] [] h = Makes-key_name [] h.name_good
Makes-key (c ∷ name) [] h = Makes-key_name (c ∷ name) h.name_good
Makes-key [] (x ∷ digest) h = Makes-tlv 0x1c (one (tlv_bytes 0x1d (x ∷ digest))) _ refl (
    Joins-cons (tlv_bytes 0x1d (x ∷ digest)) nil _ [] (Makes-tlv_bytes 0x1d (x ∷ digest) refl)
      Joins-nil)
Makes-key (c ∷ name) (x ∷ digest) h = elim h.one_field [ inl e ↦ cc | inr e ↦ cc ]

-- The loop on the one element.
key_loop :
    (name : Name) (digest : List ℕ)
    → IsKeyLocator (key_of name digest)
    → decode_each key_step no_key (decoding_of (key_elem (key_of name digest) ∷ []) [])
      ≡ ok (key_of name digest)
key_loop name [] h =
    decode_each-cons key_step no_key _ _ _ []
      (rw (unmarshal_binary-name_value name h.name_good) refl) (decode_each-nil key_step _)
key_loop [] (x ∷ digest) h =
    decode_each-cons key_step no_key _ _ _ [] refl (decode_each-nil key_step _)
key_loop (c ∷ name) (x ∷ digest) h = elim h.one_field [ inl e ↦ cc | inr e ↦ cc ]

key_elem-IsElement :
    (name : Name) (digest : List ℕ)
    → IsKeyLocator (key_of name digest)
    → IsElement (key_elem (key_of name digest))
key_elem-IsElement name [] h = tlv_of-IsElement 0x07 (name_value name) refl h.name_short
key_elem-IsElement name (x ∷ digest) h = tlv_of-IsElement 0x1d (x ∷ digest) refl h.digest_short

not_both :
    (kl : KeyLocator)
    → IsKeyLocator kl
    → (not (is_empty kl.name) && not (is_empty kl.digest)) ≡ false
not_both kl h = elim h.one_field [ inl e ↦ rw e | inr e ↦ rw e (ground arith) ]

pub unmarshal_key-key_value :
    (kl : KeyLocator) → IsKeyLocator kl → unmarshal_key (key_value kl) ≡ ok kl
unfolding unmarshal_key
unmarshal_key-key_value kl h = rw (
  elements-encoding_of (key_elem kl ∷ []) [] incomplete (key_elem-IsElement kl.name kl.digest h, tt)
      element_nil,
  key_loop kl.name kl.digest h,
  not_both kl h,
  err_unless_eof-nil,
)
