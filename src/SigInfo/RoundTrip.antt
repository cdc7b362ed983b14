-- ===== src/SigInfo/RoundTrip.antt =====
-- ndn/sig-info.go: SignatureInfo and KeyLocator on the wire.
use containernet_ndn_dpdk.Shared.{
  ℕ, ◌^◌, ◌≤◌, ◌<◌, ◌≡◌, refl, sym, ap, ◌∙◌, Bool, true, false, not, some, List, [], ◌∷◌, ◌++◌,
  append-nil, append_assoc, arith, ltb, le→ltb, length, is_empty, All, Error, ok, range_error,
}
use containernet_ndn_dpdk.Shared.Outcome
use containernet_ndn_dpdk.Tlv.Nni
use containernet_ndn_dpdk.Tlv.VarNum.{max_u32}
use containernet_ndn_dpdk.Tlv.Element.{Element, bad_type}
use containernet_ndn_dpdk.Tlv.Element.Wire.{IsElement}
use containernet_ndn_dpdk.Tlv.Decode.{unmarshal_nni}
use containernet_ndn_dpdk.Tlv.Decode.RoundTrip.{encoding_of, decoding_of, unmarshal_nni-encode}
use containernet_ndn_dpdk.Tlv.Decode.Each.{
  decode_each, decode_fields-encoding_of, put_elem, IsElement-put_elem, decode_each-cons,
  decode_each-put_elem, decode_each-nil,
}
use containernet_ndn_dpdk.Tlv.Encode.{max_u64, element_field}
use containernet_ndn_dpdk.Tlv.Encode.Wire.{encode-element_field}
use containernet_ndn_dpdk.Tlv.Encode.Writes.{
  tlv_of, nni_of, Makes, Joins, Joins-nil, Joins-cons, Joins-put_field, Makes-tlv_from,
  Makes-tlv_nni, Makes-tlv_bytes, nni_of-IsElement, tlv_of-IsElement,
}
use containernet_ndn_dpdk.Name.{Name}
use containernet_ndn_dpdk.SigInfo.{
  no_key, key_empty, SigInfo, no_info, info_step, unmarshal_info, extension_fields, info_fields,
  encode_as,
}
use containernet_ndn_dpdk.SigInfo.Keys.{
  key_value, key_of, IsKeyLocator, Makes-key, unmarshal_key-key_value,
}

-- The elements of a SigInfo, in the order of its fields.
abbrev pub info_elems : SigInfo → List Element
info_elems si =
    nni_of 0x1b si.sig_type
    ∷ (put_elem (not (key_empty si.key_locator)) (tlv_of 0x1c (key_value si.key_locator)) (
        put_elem (ltb 0 si.sig_time) (nni_of 0x28 si.sig_time) (
          put_elem (not (is_empty si.nonce)) (tlv_of 0x26 si.nonce)
            (put_elem (ltb 0 si.seq_num) (nni_of 0x2a si.seq_num) si.extensions))))

abbrev pub info_value : SigInfo → List ℕ
info_value si = encoding_of (info_elems si) []

-- An extension that was registered, and whose type is not that of a field.
pub record IsExtension (known : ℕ → Bool) (ext : Element) : Type 0 where
  pub good : IsElement ext
  pub registered : known ext.typ ≡ true
  pub own_type : 0x2a < ext.typ

pub record IsSigInfo (known : ℕ → Bool) (si : SigInfo) : Type 0 where
  pub type_bound : si.sig_type ≤ max_u32
  pub key_good : IsKeyLocator si.key_locator
  pub nonce_short : length si.nonce < 2 ^ 63
  pub time_bound : si.sig_time < 2 ^ 64
  pub seq_bound : si.seq_num < 2 ^ 64
  pub extensions_good : All (IsExtension known) si.extensions
  pub value_short : length (info_value si) < 2 ^ 63

extensions-IsElement :
    (known : ℕ → Bool) (exts : List Element) → All (IsExtension known) exts → All IsElement exts
extensions-IsElement known [] h = tt
extensions-IsElement known (ext ∷ exts) (h, hs) = (h.good, extensions-IsElement known exts hs)

Joins-extensions :
    (known : ℕ → Bool) (exts : List Element)
    → All (IsExtension known) exts
    → Joins (extension_fields exts) (encoding_of exts [])
Joins-extensions known [] h = Joins-nil
Joins-extensions known (ext ∷ exts) (h, hs) =
    Joins-cons (element_field ext) (extension_fields exts) _ _ (encode-element_field ext h.good)
      (Joins-extensions known exts hs)

-- The fields of a SigInfo are encoded to its elements.
Joins-info :
    (known : ℕ → Bool) (si : SigInfo) → IsSigInfo known si → Joins (info_fields si) (info_value si)
unfolding info_fields
Joins-info known si h = Joins-cons _ _ _ _ (Makes-tlv_nni 0x1b si.sig_type refl) (
    Joins-put_field (not (key_empty si.key_locator)) _ _ _ _
      (λ _. Makes-key si.key_locator.name si.key_locator.digest h.key_good)
      (Joins-put_field (ltb 0 si.sig_time) _ _ _ _ (λ _. Makes-tlv_nni 0x28 si.sig_time refl)
        (Joins-put_field (not (is_empty si.nonce)) _ _ _ _ (λ _. Makes-tlv_bytes 0x26 si.nonce refl)
          (Joins-put_field (ltb 0 si.seq_num) _ _ _ _ (λ _. Makes-tlv_nni 0x2a si.seq_num refl)
            (Joins-extensions known si.extensions h.extensions_good)))))

pub Makes-info :
    (known : ℕ → Bool) (si : SigInfo) (typ : ℕ)
    → IsSigInfo known si
    → bad_type typ ≡ false
    → Makes (encode_as (some si) typ) (tlv_of typ (info_value si))
unfolding encode_as
Makes-info known si typ h good =
    Makes-tlv_from typ (info_fields si) (info_value si) good (Joins-info known si h)

info_elems-IsElement :
    (known : ℕ → Bool) (si : SigInfo) → IsSigInfo known si → All IsElement (info_elems si)
info_elems-IsElement known si h = (
  nni_of-IsElement 0x1b si.sig_type refl,
  IsElement-put_elem (not (key_empty si.key_locator)) _ _
      (λ _. tlv_of-IsElement 0x1c _ refl h.key_good.value_short)
      (IsElement-put_elem (ltb 0 si.sig_time) _ _ (λ _. nni_of-IsElement 0x28 si.sig_time refl)
        (IsElement-put_elem (not (is_empty si.nonce)) _ _
          (λ _. tlv_of-IsElement 0x26 si.nonce refl h.nonce_short)
          (IsElement-put_elem (ltb 0 si.seq_num) _ _ (λ _. nni_of-IsElement 0x2a si.seq_num refl)
            (extensions-IsElement known si.extensions h.extensions_good)))),
)

-- The loop on the extensions, behind some that it has already.
extension_loop :
    (known : ℕ → Bool) (si : SigInfo) (before exts : List Element)
    → All (IsExtension known) exts
    → decode_each (info_step known) (record si { extensions = before }) (decoding_of exts [])
      ≡ ok (record si { extensions = before ++ exts })
extension_loop known si before [] h =
    decode_each-nil (info_step known) _
    ∙ ap (λ e. ok (record si { extensions = e })) (sym (append-nil before))
extension_loop known si before (ext ∷ exts) (h, hs) =
    decode_each-cons (info_step known) _ (record si { extensions = before ++ (ext ∷ []) }) _ ext
      exts (ground (arith, h.own_type, h.registered))
      (extension_loop known si (before ++ (ext ∷ [])) exts hs
        ∙ ap (λ e. ok (record si { extensions = e })) (append_assoc before (ext ∷ []) exts))

-- One NNI field of the loop.
pub nni_step :
    (n bound : ℕ) (range : Error)
    → n < 2 ^ 64
    → n ≤ bound
    → unmarshal_nni (Nni.encode n []) bound range ≡ ok n
nni_step n bound range h k = unmarshal_nni-encode n bound range h ∙ rw (le→ltb _ _ k)

zero_of : (n : ℕ) → ltb 0 n ≡ false → n ≡ 0
zero_of n h = ground (arith, h)

pub nil_of : (xs : List ℕ) → not (is_empty xs) ≡ false → xs ≡ []
nil_of [] h = refl
nil_of (x ∷ xs) h = cc

not-is_empty : (xs : List ℕ) → not (is_empty xs) ≡ true → is_empty xs ≡ false
not-is_empty [] h = cc
not-is_empty (x ∷ xs) h = refl

no_key_of :
    (name : Name) (digest : List ℕ)
    → not (key_empty (key_of name digest)) ≡ false
    → no_key ≡ key_of name digest
no_key_of [] [] h = refl
no_key_of [] (x ∷ digest) h = cc
no_key_of (c ∷ name) digest h = cc

info_loop :
    (known : ℕ → Bool) (si : SigInfo)
    → IsSigInfo known si
    → decode_each (info_step known) no_info (decoding_of (info_elems si) []) ≡ ok si
info_loop known si h =
    let s1 = record no_info { sig_type = si.sig_type } in
    let s2 = record s1 { key_locator = si.key_locator } in
    let s3 = record s2 { sig_time = si.sig_time } in
    let s4 = record s3 { nonce = si.nonce } in
    let s5 = record s4 { seq_num = si.seq_num } in
    decode_each-cons (info_step known) no_info s1 si _ _
      (rw (nni_step si.sig_type max_u32 Outcome.sig_type (omega (arith, h.type_bound)) h.type_bound)
        refl)
      (decode_each-put_elem (info_step known) s1 s2 si _ _ _
        (λ _. rw (unmarshal_key-key_value si.key_locator h.key_good) refl)
        (λ e.
          ap (λ k. record s1 { key_locator = k })
            (no_key_of si.key_locator.name si.key_locator.digest e))
        (decode_each-put_elem (info_step known) s2 s3 si _ _ _
          (λ _.
            rw (nni_step si.sig_time max_u64 range_error h.time_bound (omega (arith, h.time_bound)))
              refl)
          (λ e. ap (λ t. record s2 { sig_time = t }) (sym (zero_of si.sig_time e)))
          (decode_each-put_elem (info_step known) s3 s4 si _ _ _
            (λ e. rw (not-is_empty si.nonce e) refl)
            (λ e. ap (λ n. record s3 { nonce = n }) (sym (nil_of si.nonce e)))
            (decode_each-put_elem (info_step known) s4 s5 si _ _ _
              (λ _.
                rw
                  (nni_step si.seq_num max_u64 range_error h.seq_bound (omega (arith, h.seq_bound)))
                  refl)
              (λ e. ap (λ t. record s4 { seq_num = t }) (sym (zero_of si.seq_num e)))
              (extension_loop known s5 [] si.extensions h.extensions_good)))))

-- What is written of a valid SigInfo is read back as that SigInfo.
pub unmarshal_info-info_value :
    (known : ℕ → Bool) (si : SigInfo)
    → IsSigInfo known si
    → unmarshal_info known (info_value si) ≡ ok si
unfolding unmarshal_info
unmarshal_info-info_value known si h =
    decode_fields-encoding_of (info_step known) no_info si (info_elems si)
      (info_elems-IsElement known si h) (info_loop known si h)
