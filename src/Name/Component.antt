-- ===== src/Name/Component.antt =====
-- ndn/name-component.go: name components, their validity and canonical order.
pub mod Order
pub mod Codec
use containernet_ndn_dpdk.Shared.{
  [], ℕ, Bool, false, ◌&&◌, not, List, ◌∷◌, ltb, leb, ◌==◌, if◌then◌else◌, length, Result, ok, err,
  panic, component_type,
}
use containernet_ndn_dpdk.Shared.Int.{ℤ, pos, negsuc, sub_ℕ}
use containernet_ndn_dpdk.Tlv.Element.{Element}
use containernet_ndn_dpdk.Tlv.Encode.{Field, failure, element_field, encode}

-- A NameComponent embeds a tlv.Element and nothing else.
abbrev pub NameComponent : Type 0
NameComponent = Element

-- The zero value.
abbrev pub invalid : NameComponent
invalid = record { typ = 0; value = [] }

abbrev pub is_valid_name_component_type : ℕ → Bool
is_valid_name_component_type typ = leb 1 typ && leb typ 65535

-- Valid
unfoldable pub valid : NameComponent → Bool
valid comp = is_valid_name_component_type comp.typ

abbrev pub is_zero : ℤ → Bool
is_zero (pos n) = n == 0
is_zero (negsuc n) = false

-- bytes.Compare: the first difference decides, and a proper prefix comes first.
unfoldable pub bytes_compare : List ℕ → List ℕ → ℤ
bytes_compare [] [] = pos 0
bytes_compare [] (b ∷ ys) = negsuc 0
bytes_compare (a ∷ xs) [] = pos 1
bytes_compare (a ∷ xs) (b ∷ ys) =
    let rest = bytes_compare xs ys in if ltb a b then negsuc 0 else if ltb b a then pos 1 else rest

-- Compare: by TLV-TYPE, then TLV-LENGTH, then TLV-VALUE.
unfoldable pub compare : NameComponent → NameComponent → ℤ
compare comp other =
    let d = sub_ℕ comp.typ other.typ in
    let e = sub_ℕ (length comp.value) (length other.value) in
    if not (is_zero d)
    then d
    else if not (is_zero e)
    then e
    else bytes_compare comp.value other.value

-- Equal
pub equal : NameComponent → NameComponent → Bool
unfolding compare
equal comp other = is_zero (compare comp other)

-- Field
unfoldable pub field : NameComponent → Field
unfolding valid
field comp = if not (valid comp) then failure component_type else element_field comp

-- UnmarshalTLV, with the component that it sets.
unfoldable pub unmarshal_tlv : ℕ → List ℕ → Result NameComponent
unfolding valid
unmarshal_tlv typ value =
    let comp : NameComponent = record { typ = typ; value = value } in
    if not (valid comp) then err component_type else ok comp

-- NameComponentFrom, of a Fielder by its Field.
unfoldable pub name_component_from : ℕ → Field → NameComponent
name_component_from typ value = elim (encode value []) [
  | ok v ↦ record { typ = typ; value = v }
  | err e ↦ invalid
  | panic ↦ invalid
]
