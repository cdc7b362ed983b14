-- ===== src/Data/RoundTrip.antt =====
-- ndn/data.go: a Data on the wire, and what a receiver verifies of it.
use containernet_ndn_dpdk.Shared.{
  ℕ, ◌-◌, ◌≡◌, refl, sym, ap, ◌∙◌, Bool, not, Option, none, some, List, [], ◌∷◌, ◌++◌, arith,
  length, is_empty, All, length-append, ok,
}
use containernet_ndn_dpdk.Tlv.Element.{Element}
use containernet_ndn_dpdk.Tlv.Element.Wire.{wire_of, IsElement}
use containernet_ndn_dpdk.Tlv.Decode.RoundTrip.{encoding_of, decoding_of}
use containernet_ndn_dpdk.Tlv.Decode.Each.{
  decode_each, decode_fields-encoding_of, put_elem, IsElement-put_elem, decode_each-cons,
  decode_each-put_elem, decode_each-nil,
}
use containernet_ndn_dpdk.Tlv.Encode.{nil, cons, one, bytes, tlv_bytes, encode, encode_value_only}
use containernet_ndn_dpdk.Tlv.Encode.Writes.{
  tlv_of, Makes, Joins-nil, Joins-cons, Joins-put_field, Makes-tlv, Makes-tlv_bytes,
  tlv_of-IsElement, encode_all-Joins, value-Joins, encode-bytes, encoding_of-put_elem,
  encoding_of-cons,
}
use containernet_ndn_dpdk.Name
use containernet_ndn_dpdk.Name.{Name}
use containernet_ndn_dpdk.Name.Wire.{name_value, Makes-name, unmarshal_binary-name_value}
use containernet_ndn_dpdk.SigInfo.{SigInfo, info_fields, encode_as, info_or_null, new_null_sig_info}
use containernet_ndn_dpdk.SigInfo.RoundTrip.{
  IsSigInfo, info_value, nil_of, Makes-info, unmarshal_info-info_value,
}
use containernet_ndn_dpdk.Data.{
  Data, no_data, meta_fields, has_fields, signed_fields, signed_portion, data_field, data_step,
  unmarshal_data,
}
use containernet_ndn_dpdk.Data.Meta.{
  meta_value, IsData, Joins-meta, whole, block_or_invalid, with_meta, decode_meta_info-meta_value,
  with_meta-nil,
}

-- The elements of a Data, with `more` behind the signature information.
abbrev pub data_elems : Data → List Element → List Element
data_elems d more =
    tlv_of 0x07 (name_value d.name)
    ∷ (put_elem (has_fields (meta_fields d)) (tlv_of 0x14 (meta_value d)) (
        put_elem (not (is_empty d.content)) (tlv_of 0x15 d.content)
          (tlv_of 0x16 (info_value (info_or_null d.sig_info)) ∷ more)))

-- The bytes that are signed, and the value of the Data.
abbrev pub portion_of : Data → List ℕ
portion_of d = encoding_of (data_elems d []) []

abbrev pub value_elems : Data → List Element
value_elems d = data_elems d (tlv_of 0x17 d.signature ∷ [])

abbrev pub data_value : Data → List ℕ
data_value d = encoding_of (value_elems d) []

pub data_value_lem :
    (d : Data) → data_value d ≡ portion_of d ++ encoding_of (tlv_of 0x17 d.signature ∷ []) []
data_value_lem d = encoding_of-cons _ _ _ _ (
    encoding_of-put_elem (has_fields (meta_fields d)) _ _ _ _ (
      encoding_of-put_elem (not (is_empty d.content)) _ _ _ _ (
        encoding_of-cons (tlv_of 0x16 (info_value (info_or_null d.sig_info))) []
          (tlv_of 0x17 d.signature ∷ []) _ refl)))

encode_as-none : encode_as none 0x16 ≡ encode_as (some new_null_sig_info) 0x16
unfolding encode_as info_fields
encode_as-none = refl

Makes-info_or_null :
    (known : ℕ → Bool) (info : Option SigInfo)
    → IsSigInfo known (info_or_null info)
    → Makes (encode_as info 0x16) (tlv_of 0x16 (info_value (info_or_null info)))
Makes-info_or_null known (some si) h = Makes-info known si 0x16 h refl
Makes-info_or_null known none h =
    ap (λ f. encode f []) encode_as-none ∙ Makes-info known new_null_sig_info 0x16 h refl

pub signed_portion_lem :
    (known : ℕ → Bool) (d : Data) → IsData known d → signed_portion d ≡ ok (portion_of d)
unfolding signed_portion signed_fields
signed_portion_lem known d h = encode_all-Joins _ _ (
    Joins-cons (Name.field d.name) _ _ _ (Makes-name d.name h.name_good) (
      Joins-put_field (has_fields (meta_fields d)) _ _ _ _
        (λ _. Makes-tlv 0x14 (meta_fields d) (meta_value d) refl (Joins-meta known d h))
        (Joins-put_field (not (is_empty d.content)) _ _ _ _
          (λ _. Makes-tlv_bytes 0x15 d.content refl)
          (Joins-cons (encode_as d.sig_info 0x16) nil _ []
            (Makes-info_or_null known d.sig_info h.info_good) Joins-nil))))

pub data_field_lem :
    (known : ℕ → Bool) (d : Data)
    → IsData known d
    → encode_value_only (data_field d) ≡ ok (data_value d)
unfolding data_field
data_field_lem known d h =
    rw (signed_portion_lem known d h, data_field)
      (value-Joins 0x06 (cons (bytes (portion_of d)) (one (tlv_bytes 0x17 d.signature))) _ refl (
        Joins-cons (bytes (portion_of d)) (one (tlv_bytes 0x17 d.signature)) (portion_of d) _
          (encode-bytes (portion_of d))
          (Joins-cons (tlv_bytes 0x17 d.signature) nil _ [] (Makes-tlv_bytes 0x17 d.signature refl)
            Joins-nil)))
    ∙ ap ok (sym (data_value_lem d))

pub encode-data_field :
    (known : ℕ → Bool) (d : Data)
    → IsData known d
    → Makes (data_field d) (tlv_of 0x06 (data_value d))
unfolding data_field
encode-data_field known d h =
    rw (signed_portion_lem known d h, data_field, data_value_lem d)
      (Makes-tlv 0x06 (cons (bytes (portion_of d)) (one (tlv_bytes 0x17 d.signature))) _ refl (
        Joins-cons (bytes (portion_of d)) (one (tlv_bytes 0x17 d.signature)) (portion_of d) _
          (encode-bytes (portion_of d))
          (Joins-cons (tlv_bytes 0x17 d.signature) nil _ [] (Makes-tlv_bytes 0x17 d.signature refl)
            Joins-nil)))

-- What a receiver makes of a Data.
abbrev pub received : Data → Data
received d = record d {
  origin = none;
  sig_value_offset = length (portion_of d);
  freshness = whole d.freshness;
  final_block = block_or_invalid d.final_block;
  sig_info = some (info_or_null d.sig_info);
}

value_elems-IsElement :
    (known : ℕ → Bool) (d : Data) → IsData known d → All IsElement (value_elems d)
value_elems-IsElement known d h = (
  tlv_of-IsElement 0x07 (name_value d.name) refl h.name_short,
  IsElement-put_elem (has_fields (meta_fields d)) _ _
      (λ _. tlv_of-IsElement 0x14 (meta_value d) refl h.meta_short)
      (IsElement-put_elem (not (is_empty d.content)) _ _
        (λ _. tlv_of-IsElement 0x15 d.content refl h.content_short)
        (
          tlv_of-IsElement 0x16 _ refl h.info_good.value_short,
          (tlv_of-IsElement 0x17 d.signature refl h.signature_short, tt),
        )),
)

offset_lem :
    (d : Data)
    → length (data_value d) - length (wire_of (tlv_of 0x17 d.signature) ++ [])
      ≡ length (portion_of d)
offset_lem d =
    ap (λ v. length v - length (wire_of (tlv_of 0x17 d.signature) ++ [])) (data_value_lem d)
    ∙ omega (arith, length-append (portion_of d) (wire_of (tlv_of 0x17 d.signature) ++ []))

-- The loop of UnmarshalBinary on what was written of a Data.
data_loop :
    (known : ℕ → Bool) (d : Data)
    → IsData known d
    → decode_each (data_step known (length (data_value d))) no_data (decoding_of (value_elems d) [])
      ≡ ok (received d)
data_loop known d h =
    let step = data_step known (length (data_value d)) in
    let s1 = record no_data { name = d.name } in
    let s2 = with_meta s1 d in
    let s3 = record s2 { content = d.content } in
    let s4 = record s3 { sig_info = some (info_or_null d.sig_info) } in
    decode_each-cons step no_data s1 (received d) _ _
      (rw (unmarshal_binary-name_value d.name h.name_good) refl)
      (decode_each-put_elem step s1 s2 (received d) _ _ _
        (λ _. decode_meta_info-meta_value known s1 d h refl refl refl)
        (λ e. with_meta-nil known s1 d h refl refl refl e)
        (decode_each-put_elem step s2 s3 (received d) _ _ _ (λ _. refl)
          (λ e. ap (λ c. record s2 { content = c }) (sym (nil_of d.content e)))
          (decode_each-cons step s3 s4 (received d) _ (tlv_of 0x17 d.signature ∷ [])
            (rw (unmarshal_info-info_value known (info_or_null d.sig_info) h.info_good) refl)
            (decode_each-cons step s4 (received d) (received d) (tlv_of 0x17 d.signature) []
              (ap (λ n. ok (record s4 { signature = d.signature; sig_value_offset = n }))
                (offset_lem d))
              (decode_each-nil step (received d))))))

pub unmarshal-data_value :
    (known : ℕ → Bool) (d : Data)
    → IsData known d
    → unmarshal_data known (data_value d) ≡ ok (received d)
unfolding unmarshal_data
unmarshal-data_value known d h =
    decode_fields-encoding_of (data_step known (length (data_value d))) no_data (received d)
      (value_elems d) (value_elems-IsElement known d h) (data_loop known d h)

-- A Data whose parts can be encoded is read back by UnmarshalBinary from the value that Field makes; what
-- is lost are the fractions of milliseconds of the freshness, a freshness below 0, a final block that is
-- not valid and the difference of no signature information and that of type null. The offset of the
-- signature value is that of the bytes that SignWith signs.
pub unmarshal-data_field :
    (known : ℕ → Bool) (d : Data)
    → IsData known d
    → (portion value : List ℕ) × (signed_portion d ≡ ok portion)
      × (encode_value_only (data_field d) ≡ ok value)
      × (unmarshal_data known value
          ≡ ok (record (received d) { sig_value_offset = length portion }))
unmarshal-data_field known d h = (
  portion_of d,
  data_value d,
  signed_portion_lem known d h,
  data_field_lem known d h,
  unmarshal-data_value known d h,
)
