-- ===== src/Data/Meta.antt =====
-- ndn/data.go: the MetaInfo of a Data on the wire.
use containernet_ndn_dpdk.Shared.{
  ℕ, ◌*◌, ◌/◌, ◌^◌, ◌≤◌, ◌<◌, ◌≡◌, refl, sym, ap, ◌∙◌, Bool, true, false, List, [], ◌∷◌, arith, ltb,
  if◌then◌else◌, length, All, ok-injective, ok, range_error,
}
use containernet_ndn_dpdk.Shared.Int.{ℤ, pos, pos_part, ltb_ℤ}
use containernet_ndn_dpdk.Tlv.Element.{Element}
use containernet_ndn_dpdk.Tlv.Element.Wire.{IsElement, decode-wire_of}
use containernet_ndn_dpdk.Tlv.Decode.RoundTrip.{encoding_of, decoding_of, err_unless_eof-nil}
use containernet_ndn_dpdk.Tlv.Decode.Each.{
  decode_each, decode_fields-encoding_of, put_elem, IsElement-put_elem, decode_each-put_elem,
  decode_each-nil,
}
use containernet_ndn_dpdk.Tlv.Encode.{Field, nil, one, max_u64}
use containernet_ndn_dpdk.Tlv.Encode.Writes.{
  tlv_of, nni_of, Joins, Joins-nil, Joins-cons, Joins-put_field, Makes-tlv_from, Makes-tlv_nni,
  nni_of-IsElement, tlv_of-IsElement, put_field,
}
use containernet_ndn_dpdk.Name.Codec.{IsName}
use containernet_ndn_dpdk.Name.Wire.{name_value}
use containernet_ndn_dpdk.Name.Component
use containernet_ndn_dpdk.Name.Component.{NameComponent, valid, invalid}
use containernet_ndn_dpdk.Name.Component.Codec.{IsComponent, encode-field, component-IsElement}
use containernet_ndn_dpdk.SigInfo.{info_or_null}
use containernet_ndn_dpdk.SigInfo.RoundTrip.{IsSigInfo, nni_step}
use containernet_ndn_dpdk.Interest.Parts.{millisecond}
use containernet_ndn_dpdk.Interest.{max_milliseconds}
use containernet_ndn_dpdk.Data.{
  Data, meta_fields, has_fields, unmarshal_final_block, meta_step, decode_meta_info,
}

-- A duration in whole milliseconds, as a field has it.
abbrev pub milliseconds : ℤ → ℕ
milliseconds t = pos_part t / millisecond

-- The elements of the MetaInfo.
abbrev pub block_elems : Data → List Element
block_elems d =
    put_elem (valid d.final_block) (tlv_of 0x1a (encoding_of (d.final_block ∷ []) [])) []

abbrev pub freshness_elems : Data → List Element
freshness_elems d =
    put_elem (ltb_ℤ (pos 0) d.freshness) (nni_of 0x19 (milliseconds d.freshness)) (block_elems d)

abbrev pub meta_elems : Data → List Element
meta_elems d = put_elem (ltb 0 d.content_type) (nni_of 0x18 d.content_type) (freshness_elems d)

abbrev pub meta_value : Data → List ℕ
meta_value d = encoding_of (meta_elems d) []

-- A Data whose parts can be encoded: a valid name, valid signature information, numbers and durations
-- within their types, and all values shorter than 2 ^ 63 bytes.
pub record IsData (known : ℕ → Bool) (d : Data) : Type 0 where
  pub name_good : IsName d.name
  pub name_short : length (name_value d.name) < 2 ^ 63
  pub type_bound : d.content_type < 2 ^ 64
  pub freshness_bound : pos_part d.freshness < 2 ^ 63
  pub block_good : valid d.final_block ≡ true → IsComponent d.final_block
  pub block_short : length (encoding_of (d.final_block ∷ []) []) < 2 ^ 63
  pub meta_short : length (meta_value d) < 2 ^ 63
  pub content_short : length d.content < 2 ^ 63
  pub info_good : IsSigInfo known (info_or_null d.sig_info)
  pub signature_short : length d.signature < 2 ^ 63

pub Joins-meta :
    (known : ℕ → Bool) (d : Data) → IsData known d → Joins (meta_fields d) (meta_value d)
unfolding meta_fields
Joins-meta known d h =
    Joins-put_field (ltb 0 d.content_type) _ _ _ _ (λ _. Makes-tlv_nni 0x18 d.content_type refl)
      (Joins-put_field (ltb_ℤ (pos 0) d.freshness) _ _ _ _
        (λ _. Makes-tlv_nni 0x19 (milliseconds d.freshness) refl)
        (Joins-put_field (valid d.final_block) _ _ _ _
          (λ good. Makes-tlv_from 0x1a (one (Component.field d.final_block)) _ refl (
            Joins-cons (Component.field d.final_block) nil _ []
              (encode-field d.final_block (h.block_good good)) Joins-nil))
          Joins-nil))

meta_elems-IsElement : (known : ℕ → Bool) (d : Data) → IsData known d → All IsElement (meta_elems d)
meta_elems-IsElement known d h =
    IsElement-put_elem (ltb 0 d.content_type) _ _ (λ _. nni_of-IsElement 0x18 d.content_type refl)
      (IsElement-put_elem (ltb_ℤ (pos 0) d.freshness) _ _
        (λ _. nni_of-IsElement 0x19 (milliseconds d.freshness) refl)
        (IsElement-put_elem (valid d.final_block) _ _
          (λ _. tlv_of-IsElement 0x1a _ refl h.block_short) tt))

-- The freshness and the final block that a receiver gets.
abbrev pub whole : ℤ → ℤ
whole t = if ltb_ℤ (pos 0) t then pos (milliseconds t * millisecond) else pos 0

abbrev pub block_or_invalid : NameComponent → NameComponent
block_or_invalid comp = if valid comp then comp else invalid

abbrev pub with_meta : Data → Data → Data
with_meta s d = record s {
  content_type = d.content_type;
  freshness = whole d.freshness;
  final_block = block_or_invalid d.final_block;
}

unmarshal_final_block-wire :
    (comp : NameComponent)
    → valid comp ≡ true
    → IsComponent comp
    → unmarshal_final_block (encoding_of (comp ∷ []) []) ≡ ok comp
unfolding unmarshal_final_block
unmarshal_final_block-wire comp good h =
    rw (decode-wire_of comp [] (component-IsElement comp h), good, err_unless_eof-nil)

milliseconds_bound : (t : ℤ) → pos_part t < 2 ^ 63 → milliseconds t ≤ max_milliseconds
milliseconds_bound t h = omega (arith, h)

-- The loop of decodeMetaInfo on the MetaInfo, on a Data without such fields.
meta_loop :
    (known : ℕ → Bool) (s d : Data)
    → IsData known d
    → s.content_type ≡ 0
    → s.freshness ≡ pos 0
    → s.final_block ≡ invalid
    → decode_each meta_step s (decoding_of (meta_elems d) []) ≡ ok (with_meta s d)
meta_loop known s d h no_type no_fresh no_block =
    let s1 = record s { content_type = d.content_type } in
    let s2 = record s1 { freshness = whole d.freshness } in
    let small = milliseconds_bound d.freshness h.freshness_bound in
    decode_each-put_elem meta_step s s1 (with_meta s d) (ltb 0 d.content_type)
      (nni_of 0x18 d.content_type) (freshness_elems d)
      (λ _.
        rw (nni_step d.content_type max_u64 range_error h.type_bound (omega (arith, h.type_bound)))
          refl)
      (λ e. ap (λ t. record s { content_type = t }) (no_type ∙ ground (arith, e)))
      (decode_each-put_elem meta_step s1 s2 (with_meta s d) (ltb_ℤ (pos 0) d.freshness)
        (nni_of 0x19 (milliseconds d.freshness)) (block_elems d)
        (λ e.
          rw
            (
              nni_step (milliseconds d.freshness) max_milliseconds range_error
                  (omega (arith, small)) small,
              e,
            )
            refl)
        (λ e. ap (λ t. record s1 { freshness = t }) (no_fresh ∙ rw e))
        (decode_each-put_elem meta_step s2 (with_meta s d) (with_meta s d) (valid d.final_block)
          (tlv_of 0x1a (encoding_of (d.final_block ∷ []) [])) []
          (λ good.
            rw (unmarshal_final_block-wire d.final_block good (h.block_good good), good) refl)
          (λ bad. ap (λ t. record s2 { final_block = t }) (no_block ∙ rw bad))
          (decode_each-nil meta_step (with_meta s d))))

no_elems :
    (b1 b2 b3 : Bool) (f1 f2 f3 : Field) (e1 e2 e3 : Element)
    → has_fields (put_field b1 f1 (put_field b2 f2 (put_field b3 f3 nil))) ≡ false
    → put_elem b1 e1 (put_elem b2 e2 (put_elem b3 e3 [])) ≡ []
no_elems true b2 b3 f1 f2 f3 e1 e2 e3 h = cc
no_elems false true b3 f1 f2 f3 e1 e2 e3 h = cc
no_elems false false true f1 f2 f3 e1 e2 e3 h = cc
no_elems false false false f1 f2 f3 e1 e2 e3 h = refl

no_meta : (d : Data) → has_fields (meta_fields d) ≡ false → meta_elems d ≡ []
unfolding meta_fields
no_meta d h =
    no_elems (ltb 0 d.content_type) (ltb_ℤ (pos 0) d.freshness) (valid d.final_block) _ _ _ _ _ _ h

pub decode_meta_info-meta_value :
    (known : ℕ → Bool) (s d : Data)
    → IsData known d
    → s.content_type ≡ 0
    → s.freshness ≡ pos 0
    → s.final_block ≡ invalid
    → decode_meta_info s (meta_value d) ≡ ok (with_meta s d)
unfolding decode_meta_info
decode_meta_info-meta_value known s d h no_type no_fresh no_block =
    decode_fields-encoding_of meta_step s (with_meta s d) (meta_elems d)
      (meta_elems-IsElement known d h) (meta_loop known s d h no_type no_fresh no_block)

-- Without a MetaInfo there is nothing of it to read.
pub with_meta-nil :
    (known : ℕ → Bool) (s d : Data)
    → IsData known d
    → s.content_type ≡ 0
    → s.freshness ≡ pos 0
    → s.final_block ≡ invalid
    → has_fields (meta_fields d) ≡ false
    → s ≡ with_meta s d
with_meta-nil known s d h no_type no_fresh no_block e = ok-injective (
    sym (decode_each-nil meta_step s)
    ∙ ap (λ es. decode_each meta_step s (decoding_of es [])) (sym (no_meta d e))
    ∙ meta_loop known s d h no_type no_fresh no_block)
