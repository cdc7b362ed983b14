-- ===== src/Tests/Names.antt =====
-- Names on concrete components.
use containernet_ndn_dpdk.Shared.{[], ℕ, ◌≡◌, refl, ◌↔◌, List, ◌∷◌, arith, length, ok}
use containernet_ndn_dpdk.Shared.Int.{negsuc, ◌+ℤ◌}
use containernet_ndn_dpdk.Tlv.VarNum
use containernet_ndn_dpdk.Tlv.Element
use containernet_ndn_dpdk.Tlv.Decode.{elements, element, elements_loop, err_unless_eof}
use containernet_ndn_dpdk.Name.Component
use containernet_ndn_dpdk.Name.Component.{NameComponent, valid}
use containernet_ndn_dpdk.Name.Component.Order.{sign, flip, less, same}
use containernet_ndn_dpdk.Name.{
  Name, tlv_length, get, compare, compare_common_prefix, marshal_binary, unmarshal_binary,
  unmarshal_comps,
}
use containernet_ndn_dpdk.Name.Order.{compare_total}
use containernet_ndn_dpdk.Name.Codec.{IsName, unmarshal_binary-marshal_binary}

-- /A/B, and its components.
abbrev comp_a : NameComponent
comp_a = record { typ = 8; value = 65 ∷ [] }

abbrev comp_b : NameComponent
comp_b = record { typ = 8; value = 66 ∷ [] }

abbrev name_ab : Name
name_ab = comp_a ∷ comp_b ∷ []

abbrev wire_ab : List ℕ
wire_ab = 8 ∷ 1 ∷ 65 ∷ 8 ∷ 1 ∷ 66 ∷ []

name_ab-IsName : IsName name_ab
unfolding valid
name_ab-IsName =
    (record { good = refl; fits = omega arith }, (record { good = refl; fits = omega arith }, tt))

unmarshal_ab : unmarshal_binary wire_ab ≡ ok name_ab
unfolding unmarshal_binary unmarshal_comps Component.unmarshal_tlv elements elements_loop element
    Element.decode VarNum.decode err_unless_eof
unmarshal_ab = refl

last_component : get name_ab (negsuc 0) ≡ comp_b
unfolding get ◌+ℤ◌
last_component = refl

shorter_first : sign (compare (comp_b ∷ []) (record { typ = 8; value = 65 ∷ 65 ∷ [] } ∷ [])) ≡ less
unfolding compare Component.compare compare_common_prefix
shorter_first = refl

unmarshal_binary-marshal_binary_example :
    (wire : List ℕ) × (marshal_binary name_ab ≡ ok wire)
    × (unmarshal_binary wire ≡ ok name_ab)
    × (length wire ≡ tlv_length name_ab)
unmarshal_binary-marshal_binary_example = unmarshal_binary-marshal_binary name_ab name_ab-IsName

compare_total_example :
    ((sign (compare [] name_ab) ≡ same) ↔ ([] ≡ name_ab))
    × (sign (compare name_ab []) ≡ flip (sign (compare [] name_ab)))
compare_total_example = compare_total [] name_ab
