-- ===== src/Interest/RoundTrip.antt =====
-- ndn/interest.go: an Interest on the wire.
use containernet_ndn_dpdk.Shared.{
  ℕ, ◌*◌, ◌^◌, ◌≤◌, ◌<◌, ◌≡◌, refl, sym, ap, subst, inl, inr, Bool, true, false, not, Option, none,
  some, List, [], ◌∷◌, arith, ◌==◌, if◌then◌else◌, Option-cases, length, is_empty, All, ok,
  incomplete,
}
use containernet_ndn_dpdk.Shared.Outcome.{lifetime}
use containernet_ndn_dpdk.Shared.Int.{ℤ, pos, pos_part}
use containernet_ndn_dpdk.Tlv.Nni
use containernet_ndn_dpdk.Tlv.Element.Wire.{IsElement}
use containernet_ndn_dpdk.Tlv.Decode.Splits.{element_nil}
use containernet_ndn_dpdk.Tlv.Decode.RoundTrip.{
  encoding_of, decoding_of, elements-encoding_of, err_unless_eof-nil,
}
use containernet_ndn_dpdk.Tlv.Decode.Each.{
  decode_each, put_elem, IsElement-put_elem, decode_each-cons, decode_each-put_elem,
  decode_each-nil,
}
use containernet_ndn_dpdk.Tlv.Encode.{encode_value_only}
use containernet_ndn_dpdk.Tlv.Encode.Writes.{
  tlv_of, nni_of, nni_of-IsElement, tlv_of-IsElement, value_from-Joins,
}
use containernet_ndn_dpdk.Name.{Name}
use containernet_ndn_dpdk.Name.Wire.{name_value, unmarshal_binary-name_value}
use containernet_ndn_dpdk.SigInfo.{SigInfo}
use containernet_ndn_dpdk.SigInfo.RoundTrip.{
  IsSigInfo, info_value, nni_step, unmarshal_info-info_value,
}
use containernet_ndn_dpdk.Interest.Parts.{
  Nonce, nonce, nonce_bytes, unmarshal_nonce, unmarshal_hop_limit, millisecond,
}
use containernet_ndn_dpdk.Interest.{
  Interest, no_interest, lifetime_is_set, max_milliseconds, interest_fields, interest_field,
  interest_step, check_digest, unmarshal_interest,
}
use containernet_ndn_dpdk.Interest.Elements.{
  hint_value, unmarshal_hint-hint_value, params_elems_of, params_elems, params_portion,
  milliseconds, sent_nonce, hops_on, tail_elems, nonce_on, hint_on, interest_elems, interest_value,
  IsInfo, IsInterest, Joins-interest,
}

params_elems-IsElement :
    (known : ℕ → Bool) (i : Interest) → IsInterest known i → All IsElement (params_elems i)
params_elems-IsElement known i h = elim (Option-cases i.sig_info) [
  | inl absent ↦ rw absent (
      IsElement-put_elem (not (is_empty i.app_parameters)) _ _
        (λ _. tlv_of-IsElement 0x24 i.app_parameters refl h.params_short) tt)
  | inr (si, there) ↦
      let good : IsSigInfo known si = subst (IsInfo known) there h.info_good in
      rw there (
        tlv_of-IsElement 0x24 i.app_parameters refl h.params_short,
        (
          tlv_of-IsElement 0x2c (info_value si) refl good.value_short,
          (tlv_of-IsElement 0x2e i.signature refl h.signature_short, tt),
        ),
      )
]

nonce_short : (n : Nonce) → length (nonce_bytes n) < 2 ^ 63
nonce_short (nonce a b c d) = omega arith

interest_elems-IsElement :
    (known : ℕ → Bool) (draw : Nonce) (i : Interest)
    → IsInterest known i
    → All IsElement (interest_elems draw i)
interest_elems-IsElement known draw i h = (
  tlv_of-IsElement 0x07 (name_value i.name) refl h.name_good.short,
  IsElement-put_elem i.can_be_prefix _ _ (λ _. tlv_of-IsElement 0x21 [] refl (omega arith))
      (IsElement-put_elem i.must_be_fresh _ _ (λ _. tlv_of-IsElement 0x12 [] refl (omega arith))
        (IsElement-put_elem (not (is_empty i.forwarding_hint)) _ _
          (λ _. tlv_of-IsElement 0x1e _ refl h.hint_short)
          (
            tlv_of-IsElement 0x0a _ refl (nonce_short (sent_nonce draw i)),
            IsElement-put_elem (lifetime_is_set i.interest_lifetime) _ _
                (λ _. nni_of-IsElement 0x0c (milliseconds i.interest_lifetime) refl)
                (IsElement-put_elem (not (i.hops == 0)) _ _ (λ _. nni_of-IsElement 0x22 i.hops refl)
                  (params_elems-IsElement known i h)),
          ))),
)

-- The lifetime that a receiver gets, and the Interest.
abbrev pub whole_lifetime : ℤ → ℤ
whole_lifetime t = if lifetime_is_set t then pos (milliseconds t * millisecond) else pos 0

-- The fields of the parameters, of an Interest without signature information the application parameters.
abbrev pub received_signature : Option SigInfo → List ℕ → List ℕ
received_signature none sig = []
received_signature (some si) sig = sig

abbrev pub received : Nonce → Interest → Interest
received draw i = record i {
  nonce_of = sent_nonce draw i;
  interest_lifetime = whole_lifetime i.interest_lifetime;
  signature = received_signature i.sig_info i.signature;
}

unmarshal_nonce-nonce_bytes : (n : Nonce) → unmarshal_nonce (nonce_bytes n) ≡ ok n
unfolding unmarshal_nonce
unmarshal_nonce-nonce_bytes (nonce a b c d) = refl

unmarshal_hop_limit-encode : (n : ℕ) → n < 256 → unmarshal_hop_limit (Nni.encode n []) ≡ ok n
unfolding unmarshal_hop_limit Nni.encode
unmarshal_hop_limit-encode n h = ground (arith, h)

lifetime_bounded : (t : ℤ) → pos_part t < 2 ^ 63 → milliseconds t ≤ max_milliseconds
lifetime_bounded t h = omega (arith, h)

-- The loop on the parameters, on an Interest without these, with the bytes that it keeps for the digest.
abbrev with_params : Interest → Option SigInfo → List ℕ → List ℕ → Interest
with_params s si app sig = record s { app_parameters = app; sig_info = si; signature = sig }

params_loop :
    (known : ℕ → Bool) (s : Interest) (si : Option SigInfo) (app sig : List ℕ)
    → IsInfo known si
    → decode_each
        (interest_step known)
        (with_params s none [] [], [])
        (decoding_of (params_elems_of si app sig) [])
      ≡ ok (
        with_params s si app (received_signature si sig),
        encoding_of (params_elems_of si app sig) [],
      )
params_loop known s none [] sig h = decode_each-nil (interest_step known) _
params_loop known s none (x ∷ app) sig h =
    decode_each-cons (interest_step known) _ _ _ (tlv_of 0x24 (x ∷ app)) [] refl
      (decode_each-nil (interest_step known) _)
params_loop known s (some si) app sig h =
    let value_elems = tlv_of 0x2e sig ∷ [] in
    let portion = encoding_of (params_elems_of (some si) app sig) [] in
    decode_each-cons (interest_step known) _ (with_params s none app [], portion) _
      (tlv_of 0x24 app) (tlv_of 0x2c (info_value si) ∷ value_elems) refl
      (decode_each-cons (interest_step known) _ (with_params s (some si) app [], portion) _
        (tlv_of 0x2c (info_value si)) value_elems (rw (unmarshal_info-info_value known si h) refl)
        (decode_each-cons (interest_step known) _ (with_params s (some si) app sig, portion) _
          (tlv_of 0x2e sig) [] refl (decode_each-nil (interest_step known) _)))

no_names : (fh : List Name) → not (is_empty fh) ≡ false → fh ≡ []
no_names [] h = refl
no_names (x ∷ fh) h = cc

not_set : (b : Bool) → not b ≡ false → b ≡ true
not_set true h = refl
not_set false h = cc

interest_loop :
    (known : ℕ → Bool) (draw : Nonce) (i : Interest)
    → IsInterest known i
    → decode_each (interest_step known) (no_interest, []) (decoding_of (interest_elems draw i) [])
      ≡ ok (received draw i, params_portion i)
interest_loop known draw i h =
    let step = interest_step known in
    let end : Interest × List ℕ = (received draw i, params_portion i) in
    let s1 = record no_interest { name = i.name } in
    let s2 = record s1 { can_be_prefix = i.can_be_prefix } in
    let s3 = record s2 { must_be_fresh = i.must_be_fresh } in
    let s4 = record s3 { forwarding_hint = i.forwarding_hint } in
    let s5 = record s4 { nonce_of = sent_nonce draw i } in
    let s6 = record s5 { interest_lifetime = whole_lifetime i.interest_lifetime } in
    let s7 = record s6 { hops = i.hops } in
    let small = lifetime_bounded i.interest_lifetime h.lifetime_bound in
    decode_each-cons step (no_interest, []) (s1, []) end _ _
      (rw (unmarshal_binary-name_value i.name h.name_good.good) refl)
      (decode_each-put_elem step (s1, []) (s2, []) end i.can_be_prefix (tlv_of 0x21 [])
        (put_elem i.must_be_fresh (tlv_of 0x12 []) (hint_on draw i))
        (λ e. ap (λ b. ok (record s1 { can_be_prefix = b }, [])) (sym e))
        (λ e. ap (λ b. (record s1 { can_be_prefix = b }, [])) (sym e))
        (decode_each-put_elem step (s2, []) (s3, []) end i.must_be_fresh (tlv_of 0x12 [])
          (hint_on draw i) (λ e. ap (λ b. ok (record s2 { must_be_fresh = b }, [])) (sym e))
          (λ e. ap (λ b. (record s2 { must_be_fresh = b }, [])) (sym e))
          (decode_each-put_elem step (s3, []) (s4, []) end (not (is_empty i.forwarding_hint))
            (tlv_of 0x1e (hint_value i.forwarding_hint)) (nonce_on draw i)
            (λ _. rw (unmarshal_hint-hint_value i.forwarding_hint h.hint_good) refl)
            (λ e.
              ap (λ fh. (record s3 { forwarding_hint = fh }, []))
                (sym (no_names i.forwarding_hint e)))
            (decode_each-cons step (s4, []) (s5, []) end
              (tlv_of 0x0a (nonce_bytes (sent_nonce draw i))) (tail_elems i)
              (rw (unmarshal_nonce-nonce_bytes (sent_nonce draw i)) refl)
              (decode_each-put_elem step (s5, []) (s6, []) end (lifetime_is_set i.interest_lifetime)
                (nni_of 0x0c (milliseconds i.interest_lifetime)) (hops_on i)
                (λ e.
                  rw
                    (
                      nni_step (milliseconds i.interest_lifetime) max_milliseconds lifetime
                          (omega (arith, small)) small,
                      e,
                    )
                    refl)
                (λ e. ap (λ t. (record s5 { interest_lifetime = t }, [])) (rw e refl))
                (decode_each-put_elem step (s6, []) (s7, []) end (not (i.hops == 0))
                  (nni_of 0x22 i.hops) (params_elems i)
                  (λ _. rw (unmarshal_hop_limit-encode i.hops h.hops_bound) refl)
                  (λ e. ap (λ n. (record s6 { hops = n }, [])) (ground (arith, e)))
                  (params_loop known s7 i.sig_info i.app_parameters i.signature h.info_good)))))))

interest_field_lem :
    (known : ℕ → Bool) (draw : Nonce) (i : Interest)
    → IsInterest known i
    → encode_value_only (interest_field draw i) ≡ ok (interest_value draw i)
unfolding interest_field
interest_field_lem known draw i h = rw h.lifetime_good (
    value_from-Joins 0x05 (interest_fields draw i) (interest_value draw i) refl
      (Joins-interest known draw i h))

-- An Interest whose parts can be encoded, and whose name has the digest of its parameters if it has any,
-- is read back by UnmarshalBinary from the value that Field makes. The Nonce is the one that was drawn if
-- it was zero; a lifetime is cut to milliseconds, and that of the default is left out; a signature value
-- without signature information is not sent.
pub unmarshal-interest_field :
    (sha256 : List ℕ → List ℕ) (known : ℕ → Bool) (draw : Nonce) (i : Interest)
    → IsInterest known i
    → check_digest sha256 (params_portion i) i ≡ ok tt
    → (value : List ℕ) × (encode_value_only (interest_field draw i) ≡ ok value)
      × (unmarshal_interest sha256 known value ≡ ok (received draw i))
unfolding unmarshal_interest check_digest
unmarshal-interest_field sha256 known draw i h digest = (
  interest_value draw i,
  interest_field_lem known draw i h,
  rw (
    elements-encoding_of (interest_elems draw i) [] incomplete
        (interest_elems-IsElement known draw i h) element_nil,
    interest_loop known draw i h,
    digest,
    err_unless_eof-nil,
  ),
)
