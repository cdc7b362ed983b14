-- ===== src/Name/Wire.antt =====
-- ndn/name.go: a Name inside a packet.
use containernet_ndn_dpdk.Shared.{ℕ, ◌≡◌, refl, List, [], ok, incomplete}
use containernet_ndn_dpdk.Tlv.Decode.Splits.{element_nil}
use containernet_ndn_dpdk.Tlv.Decode.RoundTrip.{
  encoding_of, elements-encoding_of, err_unless_eof-nil,
}
use containernet_ndn_dpdk.Tlv.Encode.Writes.{tlv_of, Makes, Makes-tlv}
use containernet_ndn_dpdk.Name.{Name, field, tt_name, comp_fields, unmarshal_binary}
use containernet_ndn_dpdk.Name.Codec.{
  IsName, IsName-elements, comp_fields-wires, unmarshal_comps-decoding_of,
}

-- The bytes of the value of a Name.
abbrev pub name_value : Name → List ℕ
name_value name = encoding_of name []

pub Makes-name : (name : Name) → IsName name → Makes (field name) (tlv_of tt_name (name_value name))
unfolding field
Makes-name name h =
    Makes-tlv tt_name (comp_fields name) (name_value name) refl (comp_fields-wires name h)

pub unmarshal_binary-name_value :
    (name : Name) → IsName name → unmarshal_binary (name_value name) ≡ ok name
unfolding unmarshal_binary
unmarshal_binary-name_value name h = rw (
  elements-encoding_of name [] incomplete (IsName-elements name h) element_nil,
  unmarshal_comps-decoding_of name h,
  err_unless_eof-nil,
)
