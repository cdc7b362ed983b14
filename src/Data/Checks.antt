-- ===== src/Data/Checks.antt =====
-- ndn/data.go: the digest and the full name of a Data, what it satisfies, and signing.
use containernet_ndn_dpdk.Shared.{
  ℕ, Bool, false, ◌&&◌, Option, none, some, List, [], ◌∷◌, ltb, ◌==◌, if◌then◌else◌, is_empty, take,
  Result, ok, err, panic, ◌>>=◌,
}
use containernet_ndn_dpdk.Shared.Int.{pos, negsuc, leb_ℤ}
use containernet_ndn_dpdk.Tlv.Encode.{one, tlv_bytes, encode_all, encode_value_only}
use containernet_ndn_dpdk.Name
use containernet_ndn_dpdk.Name.{Name, get, append, is_prefix_of}
use containernet_ndn_dpdk.Name.Component
use containernet_ndn_dpdk.Name.Component.{valid}
use containernet_ndn_dpdk.SigInfo.{info_or_null, Signer, Verifier}
use containernet_ndn_dpdk.Interest.{Interest}
use containernet_ndn_dpdk.Data.{Origin, no_origin, Data, signed_portion, data_field}

-- IsFinalBlock
pub is_final_block : Data → Bool
is_final_block d = valid d.final_block && Component.equal d.final_block (get d.name (negsuc 0))

-- The value of the Packet that ComputeDigest reads, encoded where the Packet does not have it.
abbrev pub l3_cached : Data → Origin → Result Origin
l3_cached d o =
    if o.l3_type == 0x06
    then ok o
    else (encode_value_only (data_field d) >>= λ v. ok (record o { l3_type = 0x06; l3_value = v }))

abbrev pub digest_of : (List ℕ → List ℕ) → Origin → List ℕ × Origin
digest_of sha256 o = elim o.l3_digest [
  | some digest ↦ (digest, o)
  | none ↦ elim (encode_all (one (tlv_bytes 0x06 o.l3_value))) [
    | ok wire ↦ (sha256 wire, record o { l3_digest = some (sha256 wire) })
    | err e ↦ ([], o)
    | panic ↦ ([], o)
  ]
]

abbrev pub the_origin : Option Origin → Origin
the_origin none = no_origin
the_origin (some o) = o

-- ComputeDigest, with the fields of the Packet that it leaves; the digest of an error is empty. Where the
-- Data has no Packet, the one that is left belongs to a copy of the Data.
unfoldable pub compute_digest : (List ℕ → List ℕ) → Data → List ℕ × Origin
compute_digest sha256 d =
    let start = the_origin d.origin in
    elim (l3_cached d start) [
      | ok o ↦ digest_of sha256 o
      | err e ↦ ([], record start { l3_value = [] })
      | panic ↦ ([], record start { l3_value = [] })
    ]

-- FullName; the component is an an.TtImplicitSha256DigestComponent.
abbrev pub tt_implicit_digest : ℕ
tt_implicit_digest = 0x01

unfoldable pub full_name : (List ℕ → List ℕ) → Data → Name
full_name sha256 d =
    append d.name (record { typ = tt_implicit_digest; value = (compute_digest sha256 d).0 } ∷ [])

-- CanSatisfy
unfoldable pub can_satisfy : (List ℕ → List ℕ) → Data → Interest → Bool
can_satisfy sha256 d i =
    if is_empty i.name
    then false
    else if i.must_be_fresh && leb_ℤ d.freshness (pos 0)
    then false
    else if (get i.name (negsuc 0)).typ == tt_implicit_digest
    then Name.equal i.name (full_name sha256 d)
    else if i.can_be_prefix
    then is_prefix_of i.name d.name
    else Name.equal i.name d.name

-- SignWith, with the Data that it leaves if there is no error.
unfoldable pub sign_data : Data → Signer → Result Data
sign_data d signer = do
  (si, ll_sign) ← signer d.name (info_or_null d.sig_info)
  portion ← signed_portion (record d { sig_info = some si })
  sig ← ll_sign portion
  ok (record d { sig_info = some si; signature = sig })

-- The bytes that VerifyWith checks: those that came from the wire, if the Data was decoded.
unfoldable pub verified_portion : Data → Result (List ℕ)
verified_portion d = elim d.origin [
  | none ↦ signed_portion d
  | some o ↦
      if ltb 0 d.sig_value_offset then ok (take d.sig_value_offset o.l3_value) else signed_portion d
]

-- VerifyWith
unfoldable pub verify_data : Data → Verifier → Result (Unit {0})
verify_data d verifier = do
  ll_verify ← verifier d.name (info_or_null d.sig_info)
  portion ← verified_portion d
  ll_verify portion d.signature
