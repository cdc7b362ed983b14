-- ===== src/SigInfo.antt =====
-- ndn/sig-info.go and ndn/signing.go: the signature information of a packet, and the signers that need
-- no key.

pub mod Keys
pub mod RoundTrip
use containernet_ndn_dpdk.Shared.{
  ℕ, Bool, ◌&&◌, ◌||◌, not, Option, none, some, List, [], ◌∷◌, ◌++◌, ltb, ◌==◌, if◌then◌else◌,
  is_empty, Result, ok, err, critical, range_error, ◌>>=◌,
}
use containernet_ndn_dpdk.Shared.Outcome.{sig_type, key_locator, sig_nonce, sig_value}
use containernet_ndn_dpdk.Shared.Assoc.{beq_bytes}
use containernet_ndn_dpdk.Tlv.Element.{Element}
use containernet_ndn_dpdk.Tlv.Decode.{
  DecodingElement, elements, err_unless_eof, is_critical_type, unmarshal_nni,
}
use containernet_ndn_dpdk.Tlv.Decode.Each.{decode_each, decode_fields}
use containernet_ndn_dpdk.Tlv.Encode.{
  max_u64, Field, Fields, nil, cons, one, field_error, tlv, tlv_from, tlv_bytes, tlv_nni,
  element_field,
}
use containernet_ndn_dpdk.Tlv.Encode.Writes.{put_field}
use containernet_ndn_dpdk.Tlv.VarNum.{max_u32}
use containernet_ndn_dpdk.Name
use containernet_ndn_dpdk.Name.{Name}

pub record KeyLocator : Type 0 where
  pub name : Name
  pub digest : List ℕ

abbrev pub no_key : KeyLocator
no_key = record { name = []; digest = [] }

-- KeyLocator.Empty
abbrev pub key_empty : KeyLocator → Bool
key_empty kl = is_empty kl.name && is_empty kl.digest

-- KeyLocator.Field
pub key_field : KeyLocator → Field
key_field kl =
    if not (is_empty kl.name) && not (is_empty kl.digest)
    then field_error key_locator
    else if not (is_empty kl.digest)
    then tlv 0x1c (one (tlv_bytes 0x1d kl.digest))
    else tlv_from 0x1c (one (Name.field kl.name))

-- The default of a switch on the TLV-TYPE: an element of an unknown type is an error if it is critical.
abbrev pub skip {ℓ} : {S : Type ℓ} → S → DecodingElement → Result S
skip s de = if is_critical_type de.typ then err critical else ok s

-- The loop of KeyLocator.UnmarshalBinary.
abbrev pub key_step : KeyLocator → DecodingElement → Result KeyLocator
key_step kl de =
    if de.typ == 0x07
    then (Name.unmarshal_binary de.value >>= λ name. ok (record kl { name = name }))
    else if de.typ == 0x1d
    then ok (record kl { digest = de.value })
    else skip kl de

-- KeyLocator.UnmarshalBinary; the test on both fields is in front of that on the end of the buffer.
pub unmarshal_key : List ℕ → Result KeyLocator
unmarshal_key wire = do
  (list, rest) ← elements wire
  kl ← decode_each key_step no_key list
  if not (is_empty kl.name) && not (is_empty kl.digest)
      then err key_locator
      else (err_unless_eof rest >>= λ _. ok kl)

-- `sig_time` and `seq_num` are uint64.
pub record SigInfo : Type 0 where
  pub sig_type : ℕ
  pub key_locator : KeyLocator
  pub nonce : List ℕ
  pub sig_time : ℕ
  pub seq_num : ℕ
  pub extensions : List Element

abbrev pub no_info : SigInfo
no_info = record {
  sig_type = 0;
  key_locator = no_key;
  nonce = [];
  sig_time = 0;
  seq_num = 0;
  extensions = [];
}

-- FindExtension
unfoldable pub find_extension : List Element → ℕ → Option Element
find_extension [] typ = none
find_extension (ext ∷ exts) typ = if ext.typ == typ then some ext else find_extension exts typ

-- The loop of SigInfo.UnmarshalBinary; `known` is sigInfoExtensionTypes, which other packages fill.
abbrev pub info_step : (ℕ → Bool) → SigInfo → DecodingElement → Result SigInfo
info_step known si de =
    if de.typ == 0x1b
    then (unmarshal_nni de.value max_u32 sig_type >>= λ v. ok (record si { sig_type = v }))
    else if de.typ == 0x1c
    then (unmarshal_key de.value >>= λ kl. ok (record si { key_locator = kl }))
    else if de.typ == 0x26
    then (if is_empty de.value then err sig_nonce else ok (record si { nonce = de.value }))
    else if de.typ == 0x28
    then (unmarshal_nni de.value max_u64 range_error >>= λ v. ok (record si { sig_time = v }))
    else if de.typ == 0x2a
    then (unmarshal_nni de.value max_u64 range_error >>= λ v. ok (record si { seq_num = v }))
    else if known de.typ
    then ok (record si { extensions = si.extensions ++ (de.elem ∷ []) })
    else skip si de

-- SigInfo.UnmarshalBinary
pub unmarshal_info : (ℕ → Bool) → List ℕ → Result SigInfo
unmarshal_info known wire = decode_fields (info_step known) no_info wire

-- an.SigSha256 and an.SigNull
abbrev pub sig_sha256 : ℕ
sig_sha256 = 0x00

abbrev pub sig_null : ℕ
sig_null = 0xc8

abbrev pub extension_fields : List Element → Fields
extension_fields [] = nil
extension_fields (ext ∷ exts) = cons (element_field ext) (extension_fields exts)

-- The fields of a SigInfo in sigInfoFielder.Field.
unfoldable pub info_fields : SigInfo → Fields
info_fields si = cons (tlv_nni 0x1b si.sig_type) (
    put_field (not (key_empty si.key_locator)) (key_field si.key_locator) (
      put_field (ltb 0 si.sig_time) (tlv_nni 0x28 si.sig_time) (
        put_field (not (is_empty si.nonce)) (tlv_bytes 0x26 si.nonce) (
          put_field (ltb 0 si.seq_num) (tlv_nni 0x2a si.seq_num)
            (extension_fields si.extensions)))))

abbrev pub fields_unless_nil : Option SigInfo → Fields
fields_unless_nil none = one (tlv_nni 0x1b sig_null)
fields_unless_nil (some si) = info_fields si

-- EncodeAs with sigInfoFielder.Field; a nil SigInfo is none.
unfoldable pub encode_as : Option SigInfo → ℕ → Field
encode_as si typ = tlv_from typ (fields_unless_nil si)

-- newNullSigInfo
abbrev pub new_null_sig_info : SigInfo
new_null_sig_info = record no_info { sig_type = sig_null }

abbrev pub info_or_null : Option SigInfo → SigInfo
info_or_null none = new_null_sig_info
info_or_null (some si) = si

-- LLSign and LLVerify; a signer also changes the SigInfo that it is given.
abbrev pub LlSign : Type 0
LlSign = List ℕ → Result (List ℕ)

abbrev pub LlVerify : Type 0
LlVerify = List ℕ → List ℕ → Result (Unit {0})

abbrev pub Signer : Type 0
Signer = Name → SigInfo → Result (SigInfo × LlSign)

abbrev pub Verifier : Type 0
Verifier = Name → SigInfo → Result LlVerify

-- The signer of digestSigning.Sign, with SHA-256 as an argument.
unfoldable pub digest_signer : (List ℕ → List ℕ) → Signer
digest_signer sha256 name si =
    ok (record si { sig_type = sig_sha256; key_locator = no_key }, λ input. ok (sha256 input))

abbrev pub compare_digest : (List ℕ → List ℕ) → LlVerify
compare_digest sha256 input sig = if beq_bytes sig (sha256 input) then ok tt else err sig_value

-- The verifier of digestSigning.Verify.
unfoldable pub digest_verifier : (List ℕ → List ℕ) → Verifier
digest_verifier sha256 name si =
    if not (si.sig_type == sig_sha256) then err sig_type else ok (compare_digest sha256)

-- The signer of nullSigner.Sign
unfoldable pub null_signer : Signer
null_signer name si = ok (record si { sig_type = sig_null; key_locator = no_key }, λ input. ok [])

-- RegisterSigInfoExtension, with the types that are known then.
pub register_sig_info_extension : (ℕ → Bool) → ℕ → ℕ → Bool
register_sig_info_extension known typ t = t == typ || known t
