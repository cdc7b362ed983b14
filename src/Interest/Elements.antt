-- ===== src/Interest/Elements.antt =====
-- ndn/interest.go: forwarding hints on the wire, and the elements that the fields of an Interest are encoded to.
use containernet_ndn_dpdk.Shared.{
  ℕ, ◌/◌, ◌^◌, ◌<◌, ◌≡◌, refl, sym, ap, ◌∙◌, subst, inl, inr, Bool, false, ◌&&◌, not, Option, none,
  some, List, [], ◌∷◌, ◌++◌, append-nil, append_assoc, ◌==◌, if◌then◌else◌, Option-cases, length,
  is_empty, All, ok,
}
use containernet_ndn_dpdk.Shared.Int.{ℤ, pos_part, ltb_ℤ}
use containernet_ndn_dpdk.Tlv.Element.{Element}
use containernet_ndn_dpdk.Tlv.Element.Wire.{IsElement}
use containernet_ndn_dpdk.Tlv.Decode.RoundTrip.{encoding_of, decoding_of}
use containernet_ndn_dpdk.Tlv.Decode.Each.{
  decode_each, decode_fields-encoding_of, put_elem, decode_each-cons, decode_each-nil,
}
use containernet_ndn_dpdk.Tlv.Encode.{nil, tlv_bytes}
use containernet_ndn_dpdk.Tlv.Encode.Writes.{
  tlv_of, nni_of, Joins, Joins-nil, Joins-cons, Joins-put_field, Makes-tlv, Makes-tlv_nni,
  Makes-tlv_bytes, tlv_of-IsElement,
}
use containernet_ndn_dpdk.Name
use containernet_ndn_dpdk.Name.{Name}
use containernet_ndn_dpdk.Name.Codec.{IsName}
use containernet_ndn_dpdk.Name.Wire.{name_value, Makes-name, unmarshal_binary-name_value}
use containernet_ndn_dpdk.SigInfo.{SigInfo}
use containernet_ndn_dpdk.SigInfo.RoundTrip.{IsSigInfo, info_value, Makes-info}
use containernet_ndn_dpdk.Interest.Parts.{
  Nonce, nonce_bytes, nonce_is_zero, name_fields, hint_step, unmarshal_hint, min_interest_lifetime,
  millisecond,
}
use containernet_ndn_dpdk.Interest.{Interest, params_fields, lifetime_is_set, interest_fields}

-- The elements of a forwarding hint.
abbrev pub hint_elems : List Name → List Element
hint_elems [] = []
hint_elems (del ∷ fh) = tlv_of 0x07 (name_value del) ∷ hint_elems fh

abbrev pub hint_value : List Name → List ℕ
hint_value fh = encoding_of (hint_elems fh) []

-- A name that is valid and short.
pub record IsShortName (name : Name) : Type 0 where
  pub good : IsName name
  pub short : length (name_value name) < 2 ^ 63

Joins-hint : (fh : List Name) → All IsShortName fh → Joins (name_fields fh) (hint_value fh)
Joins-hint [] h = Joins-nil
Joins-hint (del ∷ fh) (h, hs) =
    Joins-cons (Name.field del) (name_fields fh) _ _ (Makes-name del h.good) (Joins-hint fh hs)

hint_elems-IsElement : (fh : List Name) → All IsShortName fh → All IsElement (hint_elems fh)
hint_elems-IsElement [] h = tt
hint_elems-IsElement (del ∷ fh) (h, hs) =
    (tlv_of-IsElement 0x07 (name_value del) refl h.short, hint_elems-IsElement fh hs)

hint_loop :
    (before fh : List Name)
    → All IsShortName fh
    → decode_each hint_step before (decoding_of (hint_elems fh) []) ≡ ok (before ++ fh)
hint_loop before [] h = decode_each-nil hint_step before ∙ ap ok (sym (append-nil before))
hint_loop before (del ∷ fh) (h, hs) =
    decode_each-cons hint_step before (before ++ (del ∷ [])) _ _ _
      (rw (unmarshal_binary-name_value del h.good) refl)
      (hint_loop (before ++ (del ∷ [])) fh hs ∙ ap ok (append_assoc before (del ∷ []) fh))

pub unmarshal_hint-hint_value :
    (fh : List Name) → All IsShortName fh → unmarshal_hint [] (hint_value fh) ≡ ok fh
unfolding unmarshal_hint
unmarshal_hint-hint_value fh h =
    decode_fields-encoding_of hint_step [] fh (hint_elems fh) (hint_elems-IsElement fh h)
      (hint_loop [] fh h)

-- The elements of the parameters, and their bytes, which the digest is of.
abbrev pub params_elems_of : Option SigInfo → List ℕ → List ℕ → List Element
params_elems_of none app sig = put_elem (not (is_empty app)) (tlv_of 0x24 app) []
params_elems_of (some si) app sig =
    tlv_of 0x24 app ∷ tlv_of 0x2c (info_value si) ∷ tlv_of 0x2e sig ∷ []

abbrev pub params_elems : Interest → List Element
params_elems i = params_elems_of i.sig_info i.app_parameters i.signature

abbrev pub params_portion : Interest → List ℕ
params_portion i = encoding_of (params_elems i) []

abbrev pub milliseconds : ℤ → ℕ
milliseconds t = pos_part t / millisecond

abbrev pub sent_nonce : Nonce → Interest → Nonce
sent_nonce draw i = if nonce_is_zero i.nonce_of then draw else i.nonce_of

-- The elements of an Interest.
abbrev pub hops_on : Interest → List Element
hops_on i = put_elem (not (i.hops == 0)) (nni_of 0x22 i.hops) (params_elems i)

abbrev pub tail_elems : Interest → List Element
tail_elems i =
    put_elem (lifetime_is_set i.interest_lifetime) (nni_of 0x0c (milliseconds i.interest_lifetime))
      (hops_on i)

abbrev pub nonce_on : Nonce → Interest → List Element
nonce_on draw i = tlv_of 0x0a (nonce_bytes (sent_nonce draw i)) ∷ tail_elems i

abbrev pub hint_on : Nonce → Interest → List Element
hint_on draw i =
    put_elem (not (is_empty i.forwarding_hint)) (tlv_of 0x1e (hint_value i.forwarding_hint))
      (nonce_on draw i)

abbrev pub interest_elems : Nonce → Interest → List Element
interest_elems draw i =
    tlv_of 0x07 (name_value i.name)
    ∷ (put_elem i.can_be_prefix (tlv_of 0x21 [])
        (put_elem i.must_be_fresh (tlv_of 0x12 []) (hint_on draw i)))

abbrev pub interest_value : Nonce → Interest → List ℕ
interest_value draw i = encoding_of (interest_elems draw i) []

abbrev pub IsInfo : (ℕ → Bool) → Option SigInfo → Type 0
IsInfo known none = Unit {0}
IsInfo known (some si) = IsSigInfo known si

-- An Interest whose parts can be encoded: a valid name and hint, valid signature information, a lifetime
-- that Field accepts, numbers within their types, and all values shorter than 2 ^ 63 bytes.
pub record IsInterest (known : ℕ → Bool) (i : Interest) : Type 0 where
  pub name_good : IsShortName i.name
  pub hint_good : All IsShortName i.forwarding_hint
  pub hint_short : length (hint_value i.forwarding_hint) < 2 ^ 63
  pub lifetime_good :
      (lifetime_is_set i.interest_lifetime && ltb_ℤ i.interest_lifetime min_interest_lifetime)
      ≡ false
  pub lifetime_bound : pos_part i.interest_lifetime < 2 ^ 63
  pub hops_bound : i.hops < 256
  pub params_short : length i.app_parameters < 2 ^ 63
  pub info_good : IsInfo known i.sig_info
  pub signature_short : length i.signature < 2 ^ 63

pub Joins-params :
    (known : ℕ → Bool) (i : Interest)
    → IsInterest known i
    → Joins (params_fields i) (params_portion i)
unfolding params_fields
Joins-params known i h = elim (Option-cases i.sig_info) [
  | inl absent ↦ rw absent (
      Joins-put_field (not (is_empty i.app_parameters)) _ _ _ _
        (λ _. Makes-tlv_bytes 0x24 i.app_parameters refl) Joins-nil)
  | inr (si, there) ↦
      let good : IsSigInfo known si = subst (IsInfo known) there h.info_good in
      rw there (
        Joins-cons _ _ _ _ (Makes-tlv_bytes 0x24 i.app_parameters refl) (
          Joins-cons _ _ _ _ (Makes-info known si 0x2c good refl) (
            Joins-cons (tlv_bytes 0x2e i.signature) nil _ [] (Makes-tlv_bytes 0x2e i.signature refl)
              Joins-nil)))
]

pub Joins-interest :
    (known : ℕ → Bool) (draw : Nonce) (i : Interest)
    → IsInterest known i
    → Joins (interest_fields draw i) (interest_value draw i)
unfolding interest_fields
Joins-interest known draw i h = Joins-cons _ _ _ _ (Makes-name i.name h.name_good.good) (
    Joins-put_field i.can_be_prefix _ _ _ _ (λ _. Makes-tlv 0x21 nil [] refl Joins-nil)
      (Joins-put_field i.must_be_fresh _ _ _ _ (λ _. Makes-tlv 0x12 nil [] refl Joins-nil)
        (Joins-put_field (not (is_empty i.forwarding_hint)) _ _ _ _
          (λ _.
            Makes-tlv 0x1e (name_fields i.forwarding_hint) _ refl
              (Joins-hint i.forwarding_hint h.hint_good))
          (Joins-cons _ _ _ _ (Makes-tlv_bytes 0x0a (nonce_bytes (sent_nonce draw i)) refl) (
            Joins-put_field (lifetime_is_set i.interest_lifetime) _ _ _ _
              (λ _. Makes-tlv_nni 0x0c (milliseconds i.interest_lifetime) refl)
              (Joins-put_field (not (i.hops == 0)) _ _ _ _ (λ _. Makes-tlv_nni 0x22 i.hops refl)
                (Joins-params known i h)))))))
