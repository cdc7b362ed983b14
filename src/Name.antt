-- ===== src/Name.antt =====
-- ndn/name.go: names, which are sequences of components.
pub mod Component
pub mod Order
pub mod Slices
pub mod Codec
pub mod Wire
pub mod Uri
use containernet_ndn_dpdk.Shared.{
  ◌>>=◌, [], ℕ, ◌+◌, ◌-◌, Bool, false, ◌||◌, not, List, ◌∷◌, ◌++◌, leb, if◌then◌else◌, length,
  get_or, take, drop, Result, ok, panic,
}
use containernet_ndn_dpdk.Shared.Int.{ℤ, pos, pos_part, sub_ℕ, ◌+ℤ◌, ltb_ℤ, leb_ℤ}
use containernet_ndn_dpdk.Tlv.Element
use containernet_ndn_dpdk.Tlv.Decode.{DecodingElement, elements, err_unless_eof}
use containernet_ndn_dpdk.Tlv.Encode.{Field, Fields, nil, cons, tlv, encode_value_only}
use Component.{NameComponent, invalid, is_zero}

abbrev pub Name : Type 0
Name = List NameComponent

-- an.TtName
abbrev pub tt_name : ℕ
tt_name = 0x07

-- Name.Length: the TLV-LENGTH.
unfoldable pub tlv_length : Name → ℕ
tlv_length [] = 0
tlv_length (comp ∷ name) = Element.size comp + tlv_length name

-- `if i < 0 { i += len(name) }`
abbrev from_end : Name → ℤ → ℤ
from_end name i = if ltb_ℤ i (pos 0) then i +ℤ pos (length name) else i

-- Get
unfoldable pub get : Name → ℤ → NameComponent
get name i =
    let k = from_end name i in
    if ltb_ℤ k (pos 0) || leb_ℤ (pos (length name)) k
    then invalid
    else get_or name (pos_part k) invalid

-- Slice. The variable arguments are a list, of which more than one is a panic.
pub slice : Name → ℤ → List ℤ → Result Name
slice name i [] =
    let k = from_end name i in
    if ltb_ℤ k (pos 0) || leb_ℤ (pos (length name)) k then ok [] else ok (drop (pos_part k) name)
slice name i (j ∷ []) =
    let k = from_end name i in
    let m = from_end name j in
    if ltb_ℤ k (pos 0) || leb_ℤ m k || ltb_ℤ (pos (length name)) m
    then ok []
    else ok (take (pos_part m - pos_part k) (drop (pos_part k) name))
slice name i (j ∷ j' ∷ js) = panic

-- GetPrefix
pub get_prefix : Name → ℤ → Result Name
unfolding slice
get_prefix name i = slice name (pos 0) (i ∷ [])

-- Append
unfoldable pub append : Name → List NameComponent → Name
append name comps = name ++ comps

-- compareCommonPrefix: the first difference within the shorter length.
unfoldable pub compare_common_prefix : Name → Name → ℤ
compare_common_prefix [] other = pos 0
compare_common_prefix (x ∷ name) [] = pos 0
compare_common_prefix (x ∷ name) (y ∷ other) =
    let rest = compare_common_prefix name other in
    let d = Component.compare x y in if not (is_zero d) then d else rest

-- Compare
unfoldable pub compare : Name → Name → ℤ
compare name other =
    let d = compare_common_prefix name other in
    if not (is_zero d) then d else sub_ℕ (length name) (length other)

-- Equal
pub equal : Name → Name → Bool
unfolding compare
equal name other = is_zero (compare name other)

-- IsPrefixOf
pub is_prefix_of : Name → Name → Bool
is_prefix_of name other =
    if not (is_zero (compare_common_prefix name other))
    then false
    else leb (length name) (length other)

-- The loop of Field over the components.
pub comp_fields : Name → Fields
comp_fields [] = nil
comp_fields (comp ∷ name) = cons (Component.field comp) (comp_fields name)

-- Field
pub field : Name → Field
unfolding comp_fields
field name = tlv tt_name (comp_fields name)

-- MarshalBinary
pub marshal_binary : Name → Result (List ℕ)
unfolding field
marshal_binary name = encode_value_only (field name)

-- The loop of UnmarshalBinary over the elements.
unfoldable pub unmarshal_comps : List DecodingElement → Result Name
unmarshal_comps [] = ok []
unmarshal_comps (de ∷ list) = do
  comp ← Component.unmarshal_tlv de.typ de.value
  name ← unmarshal_comps list
  ok (comp ∷ name)

-- UnmarshalBinary, with the name that it sets.
unfoldable pub unmarshal_binary : List ℕ → Result Name
unfolding unmarshal_comps
unmarshal_binary wire = do
  (list, rest) ← elements wire
  name ← unmarshal_comps list
  _ ← err_unless_eof rest
  ok name
