-- ===== src/Segmented/Segments.antt =====
-- ndn/segmented/serve.go: the segment number that a name carries.
use containernet_ndn_dpdk.Shared.{
  ℕ, suc, ◌^◌, ◌<◌, ◌≡◌, refl, ◌∙◌, some, [], ◌∷◌, ◌++◌, arith, length, get_or, length-append,
}
use containernet_ndn_dpdk.Shared.Int.{negsuc}
use containernet_ndn_dpdk.Tlv.Nni
use containernet_ndn_dpdk.Tlv.Nni.RoundTrip.{unmarshal_binary-encode}
use containernet_ndn_dpdk.Tlv.Encode.{encode}
use containernet_ndn_dpdk.Name.{Name, get, append}
use containernet_ndn_dpdk.Name.Slices.{get_from_end}
use containernet_ndn_dpdk.Name.Component.{NameComponent, invalid, name_component_from}
use containernet_ndn_dpdk.Segmented.{
  tt_segment, make_segment_name_component, extract_segment, segment_name,
}

get_or-append :
    (prefix : Name) (comp : NameComponent)
    → get_or (prefix ++ (comp ∷ [])) (length prefix) invalid ≡ comp
get_or-append [] comp = refl
get_or-append (c ∷ prefix) comp = get_or-append prefix comp

get-last : (prefix : Name) (comp : NameComponent) → get (prefix ++ (comp ∷ [])) (negsuc 0) ≡ comp
get-last prefix comp =
    get_from_end (prefix ++ (comp ∷ [])) 0 (omega (arith, length-append prefix (comp ∷ [])))
    ∙ (unfold get in
        rw (length-append prefix (comp ∷ [])) (ground (arith, get_or-append prefix comp)))

made :
    (seg : ℕ)
    → make_segment_name_component seg ≡ record { typ = tt_segment; value = Nni.encode seg [] }
unfolding make_segment_name_component name_component_from encode
made seg = refl

-- The name of a segment's Interest carries the segment number, for every 64-bit number.
pub extract_segment-segment_name :
    (prefix : Name) (seg : ℕ)
    → seg < 2 ^ 64
    → extract_segment (segment_name prefix seg) (length prefix) ≡ some seg
unfolding extract_segment segment_name append
extract_segment-segment_name prefix seg h =
    let len : length (prefix ++ (make_segment_name_component seg ∷ [])) ≡ suc (length prefix) =
      omega (arith, length-append prefix (make_segment_name_component seg ∷ [])) in
    rw
      (
        len,
        get-last prefix (make_segment_name_component seg),
        made seg,
        unmarshal_binary-encode seg h,
      )
      (ground arith)

pub get-segment_name :
    (prefix : Name) (seg : ℕ)
    → get (segment_name prefix seg) (negsuc 0) ≡ make_segment_name_component seg
unfolding segment_name append
get-segment_name prefix seg = get-last prefix (make_segment_name_component seg)
