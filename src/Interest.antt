-- ===== src/Interest.antt =====
-- ndn/interest.go: Interest packets. A time.Duration is a signed number of nanoseconds. The pointer of an
-- Interest to its Packet is left out, but for the header that MakeInterest sets there.
pub mod Parts
pub mod Elements
pub mod RoundTrip
pub mod Digest
use containernet_ndn_dpdk.Shared.{
  ℕ, suc, ◌*◌, ◌/◌, Bool, true, false, ◌&&◌, not, Option, none, some, List, [], ◌∷◌, ◌++◌, ◌==◌,
  if◌then◌else◌, is_empty, Result, ok, err, panic, ◌>>=◌,
}
use containernet_ndn_dpdk.Shared.Outcome.{lifetime, params_digest}
use containernet_ndn_dpdk.Shared.Assoc.{beq_bytes}
use containernet_ndn_dpdk.Shared.Int.{ℤ, pos, negsuc, pos_part, ltb_ℤ}
use containernet_ndn_dpdk.Tlv.Decode.{DecodingElement, elements, err_unless_eof, unmarshal_nni}
use containernet_ndn_dpdk.Tlv.Decode.Each.{decode_each}
use containernet_ndn_dpdk.Tlv.Encode.{
  Field, Fields, nil, cons, one, field_error, tlv, tlv_from, tlv_bytes, tlv_nni, encode_all,
}
use containernet_ndn_dpdk.Tlv.Encode.Writes.{put_field}
use containernet_ndn_dpdk.Name
use containernet_ndn_dpdk.Name.{Name, get, get_prefix}
use containernet_ndn_dpdk.Name.Component
use containernet_ndn_dpdk.Name.Component.{NameComponent}
use containernet_ndn_dpdk.Lp.{LpL3, no_lp, inherit_from}
use containernet_ndn_dpdk.SigInfo.{
  SigInfo, skip, unmarshal_info, encode_as, info_or_null, Signer, Verifier,
}
use containernet_ndn_dpdk.Interest.Parts.{
  millisecond, default_interest_lifetime, min_interest_lifetime, same_ℤ, Nonce, nonce_is_zero,
  nonce_field, unmarshal_nonce, unmarshal_hop_limit, hint_field, unmarshal_hint, nonce,
}

pub record Interest : Type 0 where
  pub name : Name
  pub can_be_prefix : Bool
  pub must_be_fresh : Bool
  pub forwarding_hint : List Name
  pub nonce_of : Nonce
  pub interest_lifetime : ℤ
  pub hops : ℕ
  pub app_parameters : List ℕ
  pub sig_info : Option SigInfo
  pub signature : List ℕ

abbrev pub no_interest : Interest
no_interest = record {
  name = [];
  can_be_prefix = false;
  must_be_fresh = false;
  forwarding_hint = [];
  nonce_of = nonce 0 0 0 0;
  interest_lifetime = pos 0;
  hops = 0;
  app_parameters = [];
  sig_info = none;
  signature = [];
}

-- The arguments of MakeInterest; a string is given by the name that it is parsed to.
pub data InterestArg : Type 0 where
  with_name : Name → InterestArg
  with_can_be_prefix with_must_be_fresh : InterestArg
  with_hint : List Name → InterestArg
  with_nonce : Nonce → InterestArg
  with_lifetime : ℤ → InterestArg
  with_hop_limit : ℕ → InterestArg
  with_parameters : List ℕ → InterestArg
  with_lp : LpL3 → InterestArg

abbrev pub take_arg : Interest × LpL3 → InterestArg → Interest × LpL3
take_arg (i, lp) (with_name a) = (record i { name = a }, lp)
take_arg (i, lp) with_can_be_prefix = (record i { can_be_prefix = true }, lp)
take_arg (i, lp) with_must_be_fresh = (record i { must_be_fresh = true }, lp)
take_arg (i, lp) (with_hint a) = (record i { forwarding_hint = a }, lp)
take_arg (i, lp) (with_nonce a) = (record i { nonce_of = a }, lp)
take_arg (i, lp) (with_lifetime a) = (record i { interest_lifetime = a }, lp)
take_arg (i, lp) (with_hop_limit a) = (record i { hops = a }, lp)
take_arg (i, lp) (with_parameters a) = (record i { app_parameters = a }, lp)
take_arg (i, lp) (with_lp a) = (i, inherit_from lp a)

-- The loop of MakeInterest, and MakeInterest with the header of the Packet.
unfoldable pub take_args : Interest × LpL3 → List InterestArg → Interest × LpL3
take_args made [] = made
take_args made (arg ∷ args) = take_args (take_arg made arg) args

pub make_interest : List InterestArg → Interest × LpL3
make_interest args = take_args (no_interest, no_lp) args

-- ApplyDefaultLifetime
pub apply_default_lifetime : Interest → Interest
apply_default_lifetime i =
    if same_ℤ i.interest_lifetime (pos 0)
    then record i { interest_lifetime = default_interest_lifetime }
    else i

-- encodeParamsPortion
pub params_fields : Interest → Fields
params_fields i = elim i.sig_info [
  | none ↦ put_field (not (is_empty i.app_parameters)) (tlv_bytes 0x24 i.app_parameters) nil
  | some si ↦
      cons (tlv_bytes 0x24 i.app_parameters)
        (cons (encode_as (some si) 0x2c) (one (tlv_bytes 0x2e i.signature)))
]

-- an.TtParametersSha256DigestComponent
abbrev pub tt_params_digest : ℕ
tt_params_digest = 0x02

-- The loop of UpdateParamsDigest: the name, and whether a component was replaced.
pub replace_digest : NameComponent → Name → Name × Bool
replace_digest digest [] = ([], false)
replace_digest digest (comp ∷ name) =
    let (rest, replaced) = replace_digest digest name in
    if comp.typ == tt_params_digest then (digest ∷ rest, true) else (comp ∷ rest, replaced)

abbrev pub digest_or_append : NameComponent → Name × Bool → Name
digest_or_append digest (name, replaced) = if replaced then name else name ++ (digest ∷ [])

abbrev pub digest_comp : (List ℕ → List ℕ) → List ℕ → NameComponent
digest_comp sha256 portion = record { typ = tt_params_digest; value = sha256 portion }

-- UpdateParamsDigest, which gives up where the parameters cannot be encoded.
pub update_params_digest : (List ℕ → List ℕ) → Interest → Interest
update_params_digest sha256 i = elim (encode_all (params_fields i)) [
  | ok portion ↦
      if is_empty portion
      then i
      else let digest = digest_comp sha256 portion in
        record i { name = digest_or_append digest (replace_digest digest i.name) }
  | err e ↦ i
  | panic ↦ i
]

-- The fields of the components, in front of others.
unfoldable pub comps_then : Name → Fields → Fields
comps_then [] fs = fs
comps_then (comp ∷ name) fs = cons (Component.field comp) (comps_then name fs)

-- encodeSignedPortion
unfoldable pub interest_signed_portion : Interest → Result (List ℕ)
interest_signed_portion i = do
  name ←
      (if (get i.name (negsuc 0)).typ == tt_params_digest
        then get_prefix i.name (negsuc 0)
        else ok i.name)
  encode_all
      (comps_then name (cons (tlv_bytes 0x24 i.app_parameters) (one (encode_as i.sig_info 0x2c))))

-- SignWith, with the Interest that it leaves if there is no error.
unfoldable pub sign_interest : (List ℕ → List ℕ) → Interest → Signer → Result Interest
sign_interest sha256 i signer = do
  (si, ll_sign) ← signer i.name (info_or_null i.sig_info)
  portion ← interest_signed_portion (record i { sig_info = some si })
  sig ← ll_sign portion
  ok (update_params_digest sha256 (record i { sig_info = some si; signature = sig }))

-- VerifyWith
unfoldable pub verify_interest : Interest → Verifier → Result (Unit {0})
verify_interest i verifier = do
  ll_verify ← verifier i.name (info_or_null i.sig_info)
  portion ← interest_signed_portion i
  ll_verify portion i.signature

abbrev pub lifetime_is_set : ℤ → Bool
lifetime_is_set t = not (same_ℤ t (pos 0)) && not (same_ℤ t default_interest_lifetime)

-- The fields in Field, with the Nonce that NewNonce draws.
pub interest_fields : Nonce → Interest → Fields
interest_fields draw i = cons (Name.field i.name) (
    put_field i.can_be_prefix (tlv 0x21 nil) (
      put_field i.must_be_fresh (tlv 0x12 nil) (
        put_field (not (is_empty i.forwarding_hint)) (hint_field i.forwarding_hint) (
          cons (nonce_field (if nonce_is_zero i.nonce_of then draw else i.nonce_of)) (
            put_field (lifetime_is_set i.interest_lifetime)
              (tlv_nni 0x0c (pos_part i.interest_lifetime / millisecond))
              (put_field (not (i.hops == 0)) (tlv_nni 0x22 i.hops) (params_fields i)))))))

-- Field
pub interest_field : Nonce → Interest → Field
interest_field draw i =
    if lifetime_is_set i.interest_lifetime && ltb_ℤ i.interest_lifetime min_interest_lifetime
    then field_error lifetime
    else tlv_from 0x05 (interest_fields draw i)

-- `uint64(math.MaxInt64/time.Millisecond)`
abbrev pub max_milliseconds : ℕ
max_milliseconds = 9223372036854

-- The loop of UnmarshalBinary: the Interest, and the bytes of the parameters.
abbrev pub interest_step :
    (ℕ → Bool) → Interest × List ℕ → DecodingElement → Result (Interest × List ℕ)
interest_step known (i, params) de =
    if de.typ == 0x07
    then (Name.unmarshal_binary de.value >>= λ v. ok (record i { name = v }, params))
    else if de.typ == 0x21
    then ok (record i { can_be_prefix = true }, params)
    else if de.typ == 0x12
    then ok (record i { must_be_fresh = true }, params)
    else if de.typ == 0x1e
    then (unmarshal_hint i.forwarding_hint de.value >>= λ v.
        ok (record i { forwarding_hint = v }, params))
    else if de.typ == 0x0a
    then (unmarshal_nonce de.value >>= λ v. ok (record i { nonce_of = v }, params))
    else if de.typ == 0x0c
    then (unmarshal_nni de.value max_milliseconds lifetime >>= λ v.
        ok (record i { interest_lifetime = pos (v * millisecond) }, params))
    else if de.typ == 0x22
    then (unmarshal_hop_limit de.value >>= λ v. ok (record i { hops = v }, params))
    else if de.typ == 0x24
    then ok (record i { app_parameters = de.value }, de.wire ++ de.after)
    else if de.typ == 0x2c
    then (unmarshal_info known de.value >>= λ v. ok (record i { sig_info = some v }, params))
    else if de.typ == 0x2e
    then ok (record i { signature = de.value }, params)
    else skip (i, params) de

abbrev pub is_some {ℓ} : {A : Type ℓ} → Option A → Bool
is_some none = false
is_some (some a) = true

-- The loop over the components of the name, with the number of digests that it has found.
unfoldable pub count_digests : List ℕ → Bool → Name → Result ℕ
count_digests digest signed [] = ok 0
count_digests digest signed (comp ∷ name) =
    let rest = count_digests digest signed name in
    if not (comp.typ == tt_params_digest)
    then rest
    else if signed && not (is_empty name)
    then err params_digest
    else if not (beq_bytes digest comp.value)
    then err params_digest
    else (rest >>= λ n. ok (suc n))

unfoldable pub check_digest : (List ℕ → List ℕ) → List ℕ → Interest → Result (Unit {0})
check_digest sha256 params i =
    if is_empty params
    then ok tt
    else (count_digests (sha256 params) (is_some i.sig_info) i.name >>= λ found.
        if found == 1 then ok tt else err params_digest)

-- UnmarshalBinary
pub unmarshal_interest : (List ℕ → List ℕ) → (ℕ → Bool) → List ℕ → Result Interest
unmarshal_interest sha256 known wire = do
  (list, rest) ← elements wire
  (i, params) ← decode_each (interest_step known) (no_interest, []) list
  _ ← check_digest sha256 params i
  _ ← err_unless_eof rest
  ok i
