-- ===== src/Tests/Packets.antt =====
-- ndn/data.go and the reassembly of ndn/lp.go on small packets. SHA-256 is a parameter of
-- the model; here it is a function that keeps the first byte.
use containernet_ndn_dpdk.Shared.{
  ℕ, ◌≡◌, refl, ◌≢◌, ◌↔◌, inl, Bool, true, false, some, List, [], ◌∷◌, arith, if◌then◌else◌, length,
  take, ok, err,
}
use containernet_ndn_dpdk.Shared.Outcome.{sig_value}
use containernet_ndn_dpdk.Shared.Int.{pos}
use containernet_ndn_dpdk.Shared.Assoc.{beq_bytes}
use containernet_ndn_dpdk.Tlv.VarNum
use containernet_ndn_dpdk.Tlv.Nni
use containernet_ndn_dpdk.Tlv.Encode.{encode_value_only}
use containernet_ndn_dpdk.Name.{Name}
use containernet_ndn_dpdk.Name.Codec.{IsName}
use containernet_ndn_dpdk.Name.Component.{NameComponent, valid}
use containernet_ndn_dpdk.Lp.{no_lp}
use containernet_ndn_dpdk.SigInfo.{no_info, sig_null, digest_signer, digest_verifier}
use containernet_ndn_dpdk.SigInfo.RoundTrip.{IsSigInfo}
use containernet_ndn_dpdk.Interest.{Interest, no_interest}
use containernet_ndn_dpdk.Data.Checks.{sign_data, verify_data, can_satisfy}
use containernet_ndn_dpdk.Data.{Data, no_data, signed_portion, data_field, unmarshal_data}
use containernet_ndn_dpdk.Data.Meta.{IsData}
use containernet_ndn_dpdk.Data.RoundTrip.{
  received, portion_of, signed_portion_lem, unmarshal-data_field,
}
use containernet_ndn_dpdk.Data.Signing.{
  in_packet, digest_info, verify_data-received, verify-sign_digest,
}
use containernet_ndn_dpdk.Data.Satisfy.{IsFreshFor, IsNameFor, can_satisfy_iff}
use containernet_ndn_dpdk.Reassembler.{no_partial}
use containernet_ndn_dpdk.Reassembler.Complete.{accept_all, verdicts, accept_all_reassembles}

abbrev pub first_byte : List ℕ → List ℕ
first_byte input = take 1 input

abbrev pub unknown : ℕ → Bool
unknown typ = false

abbrev a_comp : NameComponent
a_comp = record { typ = 8; value = 65 ∷ [] }

abbrev pub a_name : Name
a_name = a_comp ∷ []

a_name-IsName : IsName a_name
unfolding valid
a_name-IsName = (record { good = refl; fits = omega arith }, tt)

null_info : IsSigInfo unknown (record no_info { sig_type = sig_null })
unfolding VarNum.encode Nni.encode
null_info = record {
  type_bound = omega arith;
  key_good = record {
    one_field = inl refl;
    name_good = tt;
    name_short = omega arith;
    digest_short = omega arith;
    value_short = omega arith;
  };
  nonce_short = omega arith;
  time_bound = omega arith;
  seq_bound = omega arith;
  extensions_good = tt;
  value_short = omega arith;
}

abbrev pub some_data : Data
some_data = record no_data {
  name = a_name;
  freshness = pos 5500000;
  final_block = a_comp;
  content = 1 ∷ 2 ∷ [];
}

pub some_data-IsData : IsData unknown some_data
unfolding valid VarNum.encode Nni.encode
some_data-IsData = record {
  name_good = a_name-IsName;
  name_short = omega arith;
  type_bound = omega arith;
  freshness_bound = omega arith;
  block_good = λ _. record { good = refl; fits = omega arith };
  block_short = omega arith;
  meta_short = omega arith;
  content_short = omega arith;
  info_good = null_info;
  signature_short = omega arith;
}

unmarshal-data_field_example :
    (portion value : List ℕ) × (signed_portion some_data ≡ ok portion)
    × (encode_value_only (data_field some_data) ≡ ok value)
    × (unmarshal_data unknown value
        ≡ ok (record (received some_data) { sig_value_offset = length portion }))
unmarshal-data_field_example = unmarshal-data_field unknown some_data some_data-IsData

verify_data-received_example :
    (value : List ℕ) × (d' : Data) × (encode_value_only (data_field some_data) ≡ ok value)
    × (unmarshal_data unknown value ≡ ok d')
    × (verify_data (in_packet value d') (digest_verifier first_byte)
        ≡ verify_data some_data (digest_verifier first_byte))
verify_data-received_example =
    verify_data-received unknown some_data (digest_verifier first_byte) some_data-IsData (inl refl)

accept_all_reassembles_example :
    accept_all first_byte unknown no_lp
      ((1 ∷ 2 ∷ []) ∷ (3 ∷ []) ∷ (4 ∷ []) ∷ [])
      7
      no_partial
      (2 ∷ 0 ∷ 1 ∷ [])
    ≡ verdicts first_byte unknown no_lp ((1 ∷ 2 ∷ []) ∷ (3 ∷ []) ∷ (4 ∷ []) ∷ []) 7 2
accept_all_reassembles_example =
    accept_all_reassembles first_byte unknown no_lp ((1 ∷ 2 ∷ []) ∷ (3 ∷ []) ∷ (4 ∷ []) ∷ []) 7
      (2 ∷ 0 ∷ 1 ∷ []) (omega arith) (refl, (refl, (refl, refl)))

abbrev to_sign : Data
to_sign = record some_data { sig_info = some (digest_info some_data) }

digest_info_good : IsSigInfo unknown (digest_info some_data)
unfolding VarNum.encode Nni.encode
digest_info_good = record {
  type_bound = omega arith;
  key_good = null_info.key_good;
  nonce_short = omega arith;
  time_bound = omega arith;
  seq_bound = omega arith;
  extensions_good = tt;
  value_short = omega arith;
}

to_sign-IsData : IsData unknown to_sign
unfolding valid VarNum.encode Nni.encode
to_sign-IsData = record {
  name_good = a_name-IsName;
  name_short = omega arith;
  type_bound = omega arith;
  freshness_bound = omega arith;
  block_good = λ _. record { good = refl; fits = omega arith };
  block_short = omega arith;
  meta_short = omega arith;
  content_short = omega arith;
  info_good = digest_info_good;
  signature_short = omega arith;
}

verify-sign_digest_example :
    (d' : Data) × (sign_data some_data (digest_signer first_byte) ≡ ok d')
    × (verify_data d' (digest_verifier first_byte) ≡ ok tt)
    × (verify_data (record d' { signature = 8 ∷ [] }) (digest_verifier first_byte)
        ≡ (if beq_bytes (8 ∷ []) (first_byte (portion_of to_sign)) then ok tt else err sig_value))
verify-sign_digest_example =
    verify-sign_digest first_byte some_data (portion_of to_sign) (8 ∷ []) (inl refl)
      (signed_portion_lem unknown to_sign to_sign-IsData)

abbrev pub for_prefix : Interest
for_prefix = record no_interest { name = a_name; can_be_prefix = true; must_be_fresh = true }

can_satisfy_iff_example :
    (can_satisfy first_byte some_data for_prefix ≡ true)
    ↔ ((a_name ≢ []) × IsFreshFor some_data for_prefix × IsNameFor first_byte some_data for_prefix)
can_satisfy_iff_example = can_satisfy_iff first_byte some_data for_prefix
