-- ===== src/Data.antt =====
-- ndn/data.go: Data packets. A time.Duration is a signed number of nanoseconds. Of the Packet that a Data
-- points to there are the fields that this file reads: the cached type, value and digest.
pub mod Checks
pub mod Meta
pub mod RoundTrip
pub mod Signing
pub mod Satisfy
use containernet_ndn_dpdk.Shared.{
  ℕ, ◌-◌, ◌*◌, ◌/◌, Bool, true, false, ◌&&◌, not, Option, none, some, List, [], ◌∷◌, ◌++◌, ltb,
  ◌==◌, if◌then◌else◌, length, is_empty, Result, ok, err, panic, range_error, error_field, l3_type,
  component_type, ◌>>=◌,
}
use containernet_ndn_dpdk.Shared.Int.{ℤ, pos, negsuc, pos_part, ltb_ℤ}
use containernet_ndn_dpdk.Tlv.Nni
use containernet_ndn_dpdk.Tlv.Element
use containernet_ndn_dpdk.Tlv.Decode.{DecodingElement, err_unless_eof, unmarshal_nni}
use containernet_ndn_dpdk.Tlv.Decode.Each.{decode_fields}
use containernet_ndn_dpdk.Tlv.Encode.{
  max_u64, Field, Fields, nil, cons, one, bytes, field_error, tlv, tlv_from, tlv_bytes, tlv_nni,
  encode_all,
}
use containernet_ndn_dpdk.Tlv.Encode.Writes.{put_field}
use containernet_ndn_dpdk.Name
use containernet_ndn_dpdk.Name.{Name, get}
use containernet_ndn_dpdk.Name.Component
use containernet_ndn_dpdk.Name.Component.{NameComponent, valid, invalid}
use containernet_ndn_dpdk.Lp.{LpL3, no_lp, inherit_from}
use containernet_ndn_dpdk.SigInfo.{SigInfo, skip, unmarshal_info, encode_as}
use containernet_ndn_dpdk.Interest.Parts.{millisecond}
use containernet_ndn_dpdk.Interest.{Interest, max_milliseconds}

-- The fields of a Packet that belong to its Data.
pub record Origin : Type 0 where
  pub l3_type : ℕ
  pub l3_value : List ℕ
  pub l3_digest : Option (List ℕ)

abbrev pub no_origin : Origin
no_origin = record { l3_type = 0; l3_value = []; l3_digest = none }

pub record Data : Type 0 where
  pub origin : Option Origin
  pub sig_value_offset : ℕ
  pub name : Name
  pub content_type : ℕ
  pub freshness : ℤ
  pub final_block : NameComponent
  pub content : List ℕ
  pub sig_info : Option SigInfo
  pub signature : List ℕ

abbrev pub no_data : Data
no_data = record {
  origin = none;
  sig_value_offset = 0;
  name = [];
  content_type = 0;
  freshness = pos 0;
  final_block = invalid;
  content = [];
  sig_info = none;
  signature = [];
}

-- The arguments of MakeData; a string is given by the name that it is parsed to, and an Interest with
-- the header of its Packet, if it has one.
pub data DataArg : Type 0 where
  with_name : Name → DataArg
  with_content_type : ℕ → DataArg
  with_freshness : ℤ → DataArg
  with_final_block : NameComponent → DataArg
  with_final_block_flag : DataArg
  with_content : List ℕ → DataArg
  with_lp : LpL3 → DataArg
  with_interest : Interest → Option LpL3 → DataArg

-- The Data that is made, the header of its Packet, and hasFinalBlockFlag.
pub record Making : Type 0 where
  pub data_made : Data
  pub lp : LpL3
  pub flag : Bool

abbrev pub inherit_if : LpL3 → Option LpL3 → LpL3
inherit_if lp none = lp
inherit_if lp (some src) = inherit_from lp src

-- handleInterestArg
abbrev pub answer : Data → Interest → Data
answer d a = record d {
  name = a.name;
  freshness = if a.must_be_fresh then pos millisecond else d.freshness;
}

abbrev pub take_arg : Making → DataArg → Making
take_arg m (with_name a) = record m { data_made = record m.data_made { name = a } }
take_arg m (with_content_type a) = record m { data_made = record m.data_made { content_type = a } }
take_arg m (with_freshness a) = record m { data_made = record m.data_made { freshness = a } }
take_arg m (with_final_block a) = record m { data_made = record m.data_made { final_block = a } }
take_arg m with_final_block_flag = record m { flag = true }
take_arg m (with_content a) = record m { data_made = record m.data_made { content = a } }
take_arg m (with_lp a) = record m { lp = inherit_from m.lp a }
take_arg m (with_interest a lp) = record m {
  data_made = answer m.data_made a;
  lp = inherit_if m.lp lp;
}

-- The loop of MakeData.
unfoldable pub take_args : Making → List DataArg → Making
take_args m [] = m
take_args m (arg ∷ args) = take_args (take_arg m arg) args

-- MakeData, with the header of the Packet.
unfoldable pub make_data : List DataArg → Data × LpL3
make_data args =
    let start = record no_data { origin = some no_origin } in
    let m = take_args (record { data_made = start; lp = no_lp; flag = false }) args in
    let d = m.data_made in
    (
      if m.flag && not (is_empty d.name)
          then record d { final_block = get d.name (negsuc 0) }
          else d,
      m.lp,
    )

-- ContentType.Field
abbrev pub content_type_field : ℕ → Field
content_type_field ct = tlv_nni 0x18 ct

-- The fields of the MetaInfo in encodeSignedPortion.
unfoldable pub meta_fields : Data → Fields
meta_fields d = put_field (ltb 0 d.content_type) (content_type_field d.content_type) (
    put_field (ltb_ℤ (pos 0) d.freshness) (tlv_nni 0x19 (pos_part d.freshness / millisecond))
      (put_field (valid d.final_block) (tlv_from 0x1a (one (Component.field d.final_block))) nil))

abbrev pub has_fields : Fields → Bool
has_fields nil = false
has_fields (cons f fs) = true

pub signed_fields : Data → Fields
signed_fields d = cons (Name.field d.name) (
    put_field (has_fields (meta_fields d)) (tlv 0x14 (meta_fields d)) (
      put_field (not (is_empty d.content)) (tlv_bytes 0x15 d.content)
        (one (encode_as d.sig_info 0x16))))

-- encodeSignedPortion
pub signed_portion : Data → Result (List ℕ)
signed_portion d = encode_all (signed_fields d)

-- Field
pub data_field : Data → Field
data_field d = elim (signed_portion d) [
  | ok portion ↦ tlv 0x06 (cons (bytes portion) (one (tlv_bytes 0x17 d.signature)))
  | err e ↦ field_error e
  | panic ↦ field_error error_field
]

-- ContentType.UnmarshalBinary
pub unmarshal_content_type : List ℕ → Result ℕ
unmarshal_content_type wire = Nni.unmarshal_binary wire

-- The FinalBlock in decodeMetaInfo; its Decode is that of the Element.
pub unmarshal_final_block : List ℕ → Result NameComponent
unmarshal_final_block wire = do
  (comp, rest) ← Element.decode wire
  if not (valid comp) then err component_type else (err_unless_eof rest >>= λ _. ok comp)

-- The loop of decodeMetaInfo.
abbrev pub meta_step : Data → DecodingElement → Result Data
meta_step d de =
    if de.typ == 0x18
    then (unmarshal_nni de.value max_u64 range_error >>= λ v. ok (record d { content_type = v }))
    else if de.typ == 0x19
    then (unmarshal_nni de.value max_milliseconds range_error >>= λ v.
        ok (record d { freshness = pos (v * millisecond) }))
    else if de.typ == 0x1a
    then (unmarshal_final_block de.value >>= λ v. ok (record d { final_block = v }))
    else skip d de

-- decodeMetaInfo
pub decode_meta_info : Data → List ℕ → Result Data
decode_meta_info d value = decode_fields meta_step d value

-- The loop of UnmarshalBinary; `total` is the length of the value.
abbrev pub data_step : (ℕ → Bool) → ℕ → Data → DecodingElement → Result Data
data_step known total d de =
    if de.typ == 0x07
    then (Name.unmarshal_binary de.value >>= λ v. ok (record d { name = v }))
    else if de.typ == 0x14
    then decode_meta_info d de.value
    else if de.typ == 0x15
    then ok (record d { content = de.value })
    else if de.typ == 0x16
    then (unmarshal_info known de.value >>= λ v. ok (record d { sig_info = some v }))
    else if de.typ == 0x17
    then ok
        (record d { signature = de.value; sig_value_offset = total - length (de.wire ++ de.after) })
    else skip d de

-- UnmarshalBinary
pub unmarshal_data : (ℕ → Bool) → List ℕ → Result Data
unmarshal_data known value = decode_fields (data_step known (length value)) no_data value
