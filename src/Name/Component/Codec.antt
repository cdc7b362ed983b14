-- ===== src/Name/Component/Codec.antt =====
-- Components on the wire.
use containernet_ndn_dpdk.Shared.{
  [], ◌^◌, ◌<◌, ◌≡◌, true, false, arith, if◌then◌else◌, length, ok, err, component_type,
}
use containernet_ndn_dpdk.Tlv.Element.Wire.{wire_of, IsElement}
use containernet_ndn_dpdk.Tlv.Encode.{encode}
use containernet_ndn_dpdk.Tlv.Encode.Wire.{encode-element_field}
use containernet_ndn_dpdk.Tlv.Encode.Buffer.{encode-failure}
use containernet_ndn_dpdk.Name.Component.{NameComponent, valid, field, unmarshal_tlv}

-- A component that can stand on the wire: a valid TLV-TYPE, and a value that is a Go slice.
pub record IsComponent (comp : NameComponent) : Type 0 where
  pub good : valid comp ≡ true
  pub fits : length comp.value < 2 ^ 63

pub component-IsElement : (comp : NameComponent) → IsComponent comp → IsElement comp
unfolding valid
component-IsElement comp h = record {
  typ_low = ground (arith, h.good);
  typ_high = ground (arith, h.good);
  fits = h.fits;
}

pub encode-field :
    (comp : NameComponent) → IsComponent comp → encode (field comp) [] ≡ ok (wire_of comp)
unfolding field
encode-field comp h = rw h.good (encode-element_field comp (component-IsElement comp h))

pub encode-field_invalid :
    (comp : NameComponent) → valid comp ≡ false → encode (field comp) [] ≡ err component_type
unfolding field
encode-field_invalid comp h = rw h (encode-failure component_type [])

pub unmarshal_tlv_lem :
    (comp : NameComponent)
    → unmarshal_tlv comp.typ comp.value ≡ (if valid comp then ok comp else err component_type)
unfolding unmarshal_tlv
unmarshal_tlv_lem comp = ground arith
