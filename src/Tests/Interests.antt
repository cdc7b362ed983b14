-- ===== src/Tests/Interests.antt =====
-- ndn/interest.go on an Interest with parameters. SHA-256 is a parameter of the model; here it is a
-- function that keeps the first byte.
use containernet_ndn_dpdk.Shared.{
  ℕ, ◌≡◌, refl, Bool, true, false, List, [], ◌∷◌, arith, is_empty, take, ok,
}
use containernet_ndn_dpdk.Shared.Int.{pos}
use containernet_ndn_dpdk.Tlv.VarNum
use containernet_ndn_dpdk.Tlv.Encode.{encode_value_only}
use containernet_ndn_dpdk.Name.Component.{NameComponent, valid}
use containernet_ndn_dpdk.Interest.Parts.{nonce}
use containernet_ndn_dpdk.Interest.{
  Interest, no_interest, interest_field, unmarshal_interest, update_params_digest, check_digest,
  count_digests, digest_comp,
}
use containernet_ndn_dpdk.Interest.Elements.{IsInterest, IsShortName, params_portion}
use containernet_ndn_dpdk.Interest.RoundTrip.{received, unmarshal-interest_field}
use containernet_ndn_dpdk.Interest.Digest.{check_digest-update}

abbrev first_byte : List ℕ → List ℕ
first_byte input = take 1 input

abbrev unknown : ℕ → Bool
unknown typ = false

abbrev g_comp : NameComponent
g_comp = record { typ = 8; value = 71 ∷ [] }

abbrev no_digest : Interest
no_digest = record no_interest {
  name = g_comp ∷ [];
  must_be_fresh = true;
  forwarding_hint = (g_comp ∷ []) ∷ [];
  interest_lifetime = pos 2000000;
  hops = 9;
  app_parameters = 5 ∷ [];
}

abbrev with_digest : Interest
with_digest = record no_digest { name = g_comp ∷ digest_comp first_byte (36 ∷ []) ∷ [] }

g_name-IsShortName : IsShortName (g_comp ∷ [])
unfolding valid VarNum.encode
g_name-IsShortName = record {
  good = (record { good = refl; fits = omega arith }, tt);
  short = omega arith;
}

no_digest-IsInterest : IsInterest unknown no_digest
unfolding VarNum.encode
no_digest-IsInterest = record {
  name_good = g_name-IsShortName;
  hint_good = (g_name-IsShortName, tt);
  hint_short = omega arith;
  lifetime_good = refl;
  lifetime_bound = omega arith;
  hops_bound = omega arith;
  params_short = omega arith;
  info_good = tt;
  signature_short = omega arith;
}

with_digest-IsInterest : IsInterest unknown with_digest
unfolding valid VarNum.encode
with_digest-IsInterest = record {
  name_good = record {
    good = (
      record { good = refl; fits = omega arith },
      (record { good = refl; fits = omega arith }, tt),
    );
    short = omega arith;
  };
  hint_good = (g_name-IsShortName, tt);
  hint_short = omega arith;
  lifetime_good = refl;
  lifetime_bound = omega arith;
  hops_bound = omega arith;
  params_short = omega arith;
  info_good = tt;
  signature_short = omega arith;
}

digest_accepted : check_digest first_byte (params_portion with_digest) with_digest ≡ ok tt
unfolding check_digest count_digests VarNum.encode
digest_accepted = refl

unmarshal-interest_field_example :
    (value : List ℕ) × (encode_value_only (interest_field (nonce 1 2 3 4) with_digest) ≡ ok value)
    × (unmarshal_interest first_byte unknown value ≡ ok (received (nonce 1 2 3 4) with_digest))
unmarshal-interest_field_example =
    unmarshal-interest_field first_byte unknown (nonce 1 2 3 4) with_digest with_digest-IsInterest
      digest_accepted

params_there : is_empty (params_portion no_digest) ≡ false
unfolding VarNum.encode
params_there = refl

check_digest-update_example :
    let i' = update_params_digest first_byte no_digest in
    (i'.name ≡ g_comp ∷ digest_comp first_byte (params_portion no_digest) ∷ [])
    × (check_digest first_byte (params_portion i') i' ≡ ok tt)
check_digest-update_example =
    check_digest-update first_byte unknown no_digest no_digest-IsInterest (refl, tt) params_there
