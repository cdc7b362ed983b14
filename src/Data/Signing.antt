-- ===== src/Data/Signing.antt =====
-- ndn/data.go and ndn/signing.go: what VerifyWith checks of a Data that was sent, and of one that
-- DigestSigning has signed.
use containernet_ndn_dpdk.Shared.{
  ℕ, ◌≡◌, refl, ◌∙◌, ◌⊎◌, inl, inr, Bool, true, none, some, List, [], arith, ltb, if◌then◌else◌,
  lt→ltb, Option-cases, length, length-append, take-append, ok, err,
}
use containernet_ndn_dpdk.Shared.Outcome.{sig_value}
use containernet_ndn_dpdk.Shared.Assoc.{beq_bytes, beq_bytes_iff}
use containernet_ndn_dpdk.Tlv.VarNum
use containernet_ndn_dpdk.Tlv.VarNum.Shape
use containernet_ndn_dpdk.Tlv.Element.Wire.{wire_of}
use containernet_ndn_dpdk.Tlv.Encode.{encode_value_only}
use containernet_ndn_dpdk.Tlv.Encode.Writes.{tlv_of}
use containernet_ndn_dpdk.Name.Wire.{name_value}
use containernet_ndn_dpdk.SigInfo.{
  SigInfo, info_or_null, Verifier, digest_signer, digest_verifier, sig_sha256, no_key,
}
use containernet_ndn_dpdk.Data.Checks.{verified_portion, verify_data, sign_data}
use containernet_ndn_dpdk.Data.{
  Data, signed_portion, signed_fields, meta_fields, data_field, unmarshal_data,
}
use containernet_ndn_dpdk.Data.Meta.{IsData}
use containernet_ndn_dpdk.Data.RoundTrip.{
  portion_of, data_value, data_value_lem, received, signed_portion_lem, data_field_lem,
  unmarshal-data_value,
}

-- A Data that was not decoded from a packet, so that its own encoding is verified.
abbrev pub IsConstructed : Data → Type 0
IsConstructed d = (d.origin ≡ none) ⊎ (d.sig_value_offset ≡ 0)

verified_portion_own : (d : Data) → IsConstructed d → verified_portion d ≡ signed_portion d
unfolding verified_portion
verified_portion_own d (inl e) = rw e
verified_portion_own d (inr e) = elim (Option-cases d.origin) [
  | inl absent ↦ rw absent
  | inr (o, there) ↦ rw (there, e)
]

portion_is_there : (d : Data) → ltb 0 (length (portion_of d)) ≡ true
unfolding VarNum.size
portion_is_there d =
    let e = tlv_of 0x07 (name_value d.name) in
    lt→ltb 0 _ (
      omega (
        arith,
        length-append (wire_of e) _,
        length-append (VarNum.encode 7 []) _,
        Shape.length-encode 7,
      ))

-- A Data as it comes out of a packet with this value.
abbrev pub in_packet : List ℕ → Data → Data
in_packet value d = record d {
  origin = some (record { l3_type = 0x06; l3_value = value; l3_digest = none });
}

verified_portion-received :
    (d : Data) → verified_portion (in_packet (data_value d) (received d)) ≡ ok (portion_of d)
unfolding verified_portion
verified_portion-received d =
    rw (portion_is_there d, data_value_lem d, take-append (portion_of d) _)

-- Every verifier says of a Data that was encoded, decoded from a packet and then verified on the bytes of
-- the packet what it says of the Data that the sender constructed; the parts of this Data can be encoded.
pub verify_data-received :
    (known : ℕ → Bool) (d : Data) (verifier : Verifier)
    → IsData known d
    → IsConstructed d
    → (value : List ℕ) × (d' : Data) × (encode_value_only (data_field d) ≡ ok value)
      × (unmarshal_data known value ≡ ok d')
      × (verify_data (in_packet value d') verifier ≡ verify_data d verifier)
unfolding verify_data
verify_data-received known d verifier h own = (
  data_value d,
  received d,
  data_field_lem known d h,
  unmarshal-data_value known d h,
  rw (verified_portion-received d, verified_portion_own d own, signed_portion_lem known d h),
)

-- The SigInfo and the Data that DigestSigning makes.
abbrev pub digest_info : Data → SigInfo
digest_info d = record (info_or_null d.sig_info) { sig_type = sig_sha256; key_locator = no_key }

abbrev pub digest_signed : (List ℕ → List ℕ) → List ℕ → Data → Data
digest_signed sha256 portion d = record d {
  sig_info = some (digest_info d);
  signature = sha256 portion;
}

signature_not_signed :
    (d : Data) (sig : List ℕ) → signed_portion (record d { signature = sig }) ≡ signed_portion d
unfolding signed_portion signed_fields meta_fields
signature_not_signed d sig = refl

verify_signature :
    (sha256 : List ℕ → List ℕ) (d : Data) (portion sig : List ℕ)
    → IsConstructed d
    → signed_portion (record d { sig_info = some (digest_info d) }) ≡ ok portion
    → verify_data
        (record (digest_signed sha256 portion d) { signature = sig })
        (digest_verifier sha256)
      ≡ (if beq_bytes sig (sha256 portion) then ok tt else err sig_value)
unfolding verify_data digest_verifier
verify_signature sha256 d portion sig own e =
    let signed = record (digest_signed sha256 portion d) { signature = sig } in
    rw (
      verified_portion_own signed own,
      signature_not_signed (record d { sig_info = some (digest_info d) }) sig,
      e,
    )

-- DigestSigning signs a constructed Data whose signed portion can be encoded with the digest of that
-- portion; its verifier accepts the Data with this signature, and with another signature it returns
-- ErrSigValue.
pub verify-sign_digest :
    (sha256 : List ℕ → List ℕ) (d : Data) (portion sig : List ℕ)
    → IsConstructed d
    → signed_portion (record d { sig_info = some (digest_info d) }) ≡ ok portion
    → (d' : Data) × (sign_data d (digest_signer sha256) ≡ ok d')
      × (verify_data d' (digest_verifier sha256) ≡ ok tt)
      × (verify_data (record d' { signature = sig }) (digest_verifier sha256)
          ≡ (if beq_bytes sig (sha256 portion) then ok tt else err sig_value))
unfolding sign_data digest_signer
verify-sign_digest sha256 d portion sig own e = (
  digest_signed sha256 portion d,
  rw e,
  verify_signature sha256 d portion (sha256 portion) own e
      ∙ rw ((beq_bytes_iff (sha256 portion) (sha256 portion)).1 refl),
  verify_signature sha256 d portion sig own e,
)
