-- ===== src/Name/Uri/Components.antt =====
-- ndn/name-component.go: ParseNameComponent on the URI form of a component, and on periods.
use containernet_ndn_dpdk.Shared.{
  ℕ, zero, suc, ◌+◌, ◌≤◌, ◌<◌, ◌≡◌, refl, ap, ◌∙◌, inl, inr, true, false, List, [], ◌∷◌, ◌++◌,
  append-nil, arith, ◌==◌, ==_iff, Bool-cases, length, is_empty, drop, replicate, All,
  length-append, length-replicate, ok, panic,
}
use containernet_ndn_dpdk.Name.Component.{NameComponent, valid, is_valid_name_component_type}
use containernet_ndn_dpdk.Name.Uri.{
  itoa, escape, non_periods, three_periods, comp_string, before_equals, unescape, trim_periods,
  type_or_generic, type_at, parse_value, parse_name_component,
}
use containernet_ndn_dpdk.Name.Uri.Chars.{
  parse_dec-digits, All-digits, is_empty-digits, parse_uint32_lem, before_equals-append,
  trim_periods-equals, escape-periods, trim_periods-periods, trim_periods-escape, unescape-escape,
}

-- A component whose type and bytes are what they should be.
pub record IsText (comp : NameComponent) : Type 0 where
  pub good : valid comp ≡ true
  pub all_bytes : All (λ b. b < 256) comp.value

itoa_type :
    (typ : ℕ) (rest : List ℕ)
    → is_valid_name_component_type typ ≡ true
    → type_at (before_equals (itoa typ ++ (61 ∷ rest))) ≡ (typ, suc (length (itoa typ)))
itoa_type typ rest h =
    let small : typ < 65536 = ground (arith, h) in
    ap type_at (before_equals-append (itoa typ) rest (All-digits 10 typ))
    ∙ ap (type_or_generic (suc (length (itoa typ)))) (
        parse_uint32_lem (itoa typ) typ (is_empty-digits 9 typ)
          (parse_dec-digits 9 typ (omega (arith, small))) (omega (arith, small)))
    ∙ rw h

one_more : (n : ℕ) → 1 + n ≡ suc n
one_more n = omega arith

drop_past : (xs ys : List ℕ) (k : ℕ) → drop (suc (length xs) + k) (xs ++ (61 ∷ ys)) ≡ drop k ys
drop_past [] ys k = ap (λ n. drop n (61 ∷ ys)) (one_more k)
drop_past (x ∷ xs) ys k =
    ap (λ n. drop n (x ∷ (xs ++ (61 ∷ ys)))) (suc_out (length xs)) ∙ drop_past xs ys k
  where
    suc_out : (n : ℕ) → suc (suc n) + k ≡ suc (suc n + k)
    suc_out n = omega arith

drop_head : (xs ys : List ℕ) → drop (suc (length xs)) (xs ++ (61 ∷ ys)) ≡ ys
drop_head [] ys = refl
drop_head (x ∷ xs) ys = drop_head xs ys

periods_around :
    (value : List ℕ) → non_periods value ≡ 0 → value ++ three_periods ≡ three_periods ++ value
unfolding non_periods
periods_around [] h = refl
periods_around (b ∷ value) h = elim (Bool-cases (b == 46)) [
  | inl period ↦
      let same : b ≡ 46 = (==_iff b 46).0 period in
      rw (same, periods_around value (rw period at h)) refl
  | inr other ↦ cc (rw other at h)
]

-- The value behind the equals sign, of periods and of others.
value_of_periods :
    (xs value : List ℕ)
    → non_periods value ≡ 0
    → parse_value (suc (length xs)) (xs ++ (61 ∷ (escape value ++ three_periods))) ≡ ok value
value_of_periods xs value h =
    let tail = value ++ three_periods in
    let trimmed : length (trim_periods (xs ++ (61 ∷ tail))) ≡ suc (length xs) =
      ap length
        (trim_periods-equals xs tail ∙ ap (λ t. xs ++ (61 ∷ t)) (trim_periods-periods value h))
      ∙ omega (arith, length-append xs (61 ∷ [])) in
    let size : length (xs ++ (61 ∷ tail)) ≡ length xs + (4 + length value) =
      omega (arith, length-append xs (61 ∷ tail), length-append value three_periods) in
    let dropped : drop (suc (length xs) + 3) (xs ++ (61 ∷ tail)) ≡ value =
      drop_past xs tail 3 ∙ ap (drop 3) (periods_around value h) in
    rw (escape-periods value h) (ground (arith, trimmed, size, dropped))

value_of_others :
    (xs value : List ℕ)
    → (non_periods value == 0) ≡ false
    → All (λ b. b < 256) value
    → parse_value (suc (length xs)) (xs ++ (61 ∷ (escape value ++ []))) ≡ ok value
value_of_others xs value h bs =
    let tail = escape value ++ [] in
    let longer : length (trim_periods (xs ++ (61 ∷ tail)))
        ≡ length xs + suc (length (trim_periods tail)) =
      ap length (trim_periods-equals xs tail) ∙ length-append xs (61 ∷ trim_periods tail) in
    let some_left : 0 < length (trim_periods tail) =
      length_pos (trim_periods tail) (trim_periods-escape value h) in
    let kept : unescape (drop (suc (length xs)) (xs ++ (61 ∷ tail))) ≡ value =
      ap unescape (drop_head xs tail ∙ append-nil (escape value)) ∙ unescape-escape value bs in
    ground (arith, longer, some_left, kept)
  where
    length_pos : (ys : List ℕ) → is_empty ys ≡ false → 0 < length ys
    length_pos [] e = cc
    length_pos (y ∷ ys) e = omega arith

-- A component with a valid TLV-TYPE is read back by ParseNameComponent from its URI form.
pub parse_name_component-comp_string :
    (comp : NameComponent) → IsText comp → parse_name_component (comp_string comp) ≡ ok comp
unfolding parse_name_component comp_string valid
parse_name_component-comp_string comp h = elim (Bool-cases (non_periods comp.value == 0)) [
  | inl periods ↦
      let none : non_periods comp.value ≡ 0 = (==_iff (non_periods comp.value) 0).0 periods in
      rw (periods, itoa_type comp.typ (escape comp.value ++ three_periods) h.good)
        (rw (value_of_periods (itoa comp.typ) comp.value none) refl)
  | inr others ↦
      rw (others, itoa_type comp.typ (escape comp.value ++ []) h.good)
        (rw (value_of_others (itoa comp.typ) comp.value others h.all_bytes) refl)
]

trim_periods-replicate : (n : ℕ) → trim_periods (replicate n 46) ≡ []
unfolding trim_periods
trim_periods-replicate zero = refl
trim_periods-replicate (suc n) = rw (trim_periods-replicate n) refl

value_panics :
    (xs : List ℕ) (n : ℕ)
    → is_empty xs ≡ false
    → 1 ≤ n
    → n ≤ 2
    → parse_value (suc (length xs)) (xs ++ (61 ∷ replicate n 46)) ≡ panic
value_panics [] n there low high = cc
value_panics (x ∷ xs) n there low high =
    let all = x ∷ xs in
    let trimmed : length (trim_periods (all ++ (61 ∷ replicate n 46))) ≡ suc (length all) =
      ap length (
        trim_periods-equals all (replicate n 46)
        ∙ ap (λ t. all ++ (61 ∷ t)) (trim_periods-replicate n))
      ∙ omega (arith, length-append all (61 ∷ [])) in
    let size : length (all ++ (61 ∷ replicate n 46)) ≡ length all + suc n =
      omega (arith, length-append all (61 ∷ replicate n 46), length-replicate {A = ℕ} n 46) in
    ground (arith, trimmed, size, low, high)

-- Of two or one periods behind a TLV-TYPE and an equals sign, ParseNameComponent slices past the end of the
-- input and panics; the TLV-TYPE is valid.
pub parse_panics :
    (typ n : ℕ)
    → is_valid_name_component_type typ ≡ true
    → 1 ≤ n
    → n ≤ 2
    → parse_name_component (itoa typ ++ (61 ∷ replicate n 46)) ≡ panic
unfolding parse_name_component
parse_panics typ n h low high =
    rw (itoa_type typ (replicate n 46) h)
      (rw (value_panics (itoa typ) n (is_empty-digits 9 typ) low high) refl)
