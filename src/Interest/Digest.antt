-- ===== src/Interest/Digest.antt =====
-- ndn/interest.go: the digest of the parameters, which UpdateParamsDigest puts into the name and
-- UnmarshalBinary checks.
use containernet_ndn_dpdk.Shared.{
  ℕ, ◌≡◌, refl, Bool, false, List, [], ◌∷◌, ◌++◌, arith, ◌==◌, is_empty, All, ok,
}
use containernet_ndn_dpdk.Shared.Assoc.{beq_bytes_iff}
use containernet_ndn_dpdk.Tlv.Encode.Writes.{encode_all-Joins}
use containernet_ndn_dpdk.Name.{Name}
use containernet_ndn_dpdk.Name.Component.{NameComponent}
use containernet_ndn_dpdk.Interest.{
  Interest, tt_params_digest, digest_comp, replace_digest, update_params_digest, count_digests,
  check_digest, is_some,
}
use containernet_ndn_dpdk.Interest.Elements.{IsInterest, params_portion, Joins-params}

-- The name has no digest.
abbrev pub IsPlain : Name → Type 0
IsPlain = All (λ comp. (comp.typ == tt_params_digest) ≡ false)

replace_digest-plain :
    (digest : NameComponent) (name : Name)
    → IsPlain name
    → replace_digest digest name ≡ (name, false)
unfolding replace_digest
replace_digest-plain digest [] h = refl
replace_digest-plain digest (comp ∷ name) (h, hs) = rw (replace_digest-plain digest name hs, h)

module _ (digest : List ℕ) (signed : Bool) where
  count_digests-plain :
      (name : Name)
      → IsPlain name
      → count_digests digest signed
          (name ++ (record { typ = tt_params_digest; value = digest } ∷ []))
        ≡ ok 1
  unfolding count_digests
  count_digests-plain [] h = rw ((beq_bytes_iff digest digest).1 refl) (ground arith)
  count_digests-plain (comp ∷ name) (h, hs) = rw h (count_digests-plain name hs)

-- UpdateParamsDigest on an Interest with parameters and without a digest appends to the name the digest of
-- the parameters, and UnmarshalBinary then accepts the name.
pub check_digest-update :
    (sha256 : List ℕ → List ℕ) (known : ℕ → Bool) (i : Interest)
    → IsInterest known i
    → IsPlain i.name
    → is_empty (params_portion i) ≡ false
    → (let i' = update_params_digest sha256 i in
        (i'.name ≡ i.name ++ (digest_comp sha256 (params_portion i) ∷ []))
        × (check_digest sha256 (params_portion i') i' ≡ ok tt))
unfolding update_params_digest check_digest
check_digest-update sha256 known i h plain some_params =
    let portion = encode_all-Joins _ _ (Joins-params known i h) in
    let digest = digest_comp sha256 (params_portion i) in
    let replaced = replace_digest-plain digest i.name plain in
    rw (portion, some_params, replaced, update_params_digest)
      (
        refl,
        rw (
          some_params,
          count_digests-plain (sha256 (params_portion i)) (is_some i.sig_info) i.name plain,
        ),
      )
