-- ===== src/Tests/Encoding.antt =====
-- ndn/tlv on concrete bytes.
use containernet_ndn_dpdk.Shared.{
  [], ℕ, ◌^◌, ◌≤◌, ◌≡◌, refl, ◌↔◌, List, ◌∷◌, arith, All, ok, err, panic, incomplete, type_range,
}
use containernet_ndn_dpdk.Tlv.VarNum
use containernet_ndn_dpdk.Tlv.VarNum.{bytes8}
use containernet_ndn_dpdk.Tlv.Element
use containernet_ndn_dpdk.Tlv.Element.{Element}
use containernet_ndn_dpdk.Tlv.Element.Wire.{IsElement, decode_panics}
use containernet_ndn_dpdk.Tlv.Decode.{element, elements, elements_loop}
use containernet_ndn_dpdk.Tlv.Decode.Splits.{element_nil}
use containernet_ndn_dpdk.Tlv.Decode.RoundTrip.{encoding_of, decoding_of, elements-encoding_of}
use containernet_ndn_dpdk.Tlv.Encode.{bytes, one, encode, encode_tlv_finish, tlv}

-- A TLV-LENGTH of 2 ^ 63 behind the TLV-TYPE 8, with nothing behind it.
abbrev long_length : List ℕ
long_length = 0xff ∷ bytes8 (2 ^ 63)

decode_panics_run : Element.decode (8 ∷ long_length) ≡ panic
unfolding Element.decode VarNum.decode
decode_panics_run = refl

decode_short : Element.decode (8 ∷ 5 ∷ 1 ∷ []) ≡ err incomplete
unfolding Element.decode VarNum.decode
decode_short = refl

decode_zero_type : Element.decode (0 ∷ 0 ∷ []) ≡ err type_range
unfolding Element.decode VarNum.decode
decode_zero_type = refl

elements_run :
    elements (8 ∷ 1 ∷ 65 ∷ 9 ∷ [])
    ≡ ok (
      record { elem = record { typ = 8; value = 65 ∷ [] }; wire = 8 ∷ 1 ∷ 65 ∷ []; after = 9 ∷ [] }
          ∷ [],
      9 ∷ [],
    )
unfolding elements element elements_loop Element.decode VarNum.decode
elements_run = refl

encode_nested :
    encode (tlv 7 (one (tlv 8 (one (bytes (65 ∷ [])))))) [] ≡ ok (7 ∷ 3 ∷ 8 ∷ 1 ∷ 65 ∷ [])
unfolding encode tlv VarNum.encode encode_tlv_finish
encode_nested = refl

decode_panics_example : (Element.decode (8 ∷ long_length) ≡ panic) ↔ (2 ^ 63 ≤ 2 ^ 63)
decode_panics_example =
    decode_panics (8 ∷ long_length) long_length [] 8 (2 ^ 63) type_read refl length_read
      (omega arith)
  where
    type_read : VarNum.decode (8 ∷ long_length) ≡ ok (8, long_length)
    type_read = unfold VarNum.decode in refl

    length_read : VarNum.decode long_length ≡ ok (2 ^ 63, [])
    length_read = unfold VarNum.decode in refl

abbrev two_elements : List Element
two_elements = record { typ = 8; value = 65 ∷ [] } ∷ record { typ = 300; value = [] } ∷ []

two_valid : All IsElement two_elements
two_valid = omega arith

elements-encoding_of_example :
    elements (encoding_of two_elements []) ≡ ok (decoding_of two_elements [], [])
elements-encoding_of_example = elements-encoding_of two_elements [] incomplete two_valid element_nil

abbrev one_and_a_byte : List ℕ
one_and_a_byte = 8 ∷ 1 ∷ 65 ∷ 9 ∷ []
