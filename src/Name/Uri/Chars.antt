-- ===== src/Name/Uri/Chars.antt =====
-- ndn/name-component.go: numbers, escapes and periods in a URI.
use containernet_ndn_dpdk.Shared.{
  ℕ, zero, suc, ◌+◌, ◌-◌, ◌*◌, ◌/◌, ◌%◌, ◌^◌, ◌<◌, ◌≡◌, refl, ap, ◌∙◌, inl, inr, true, false, ◌&&◌,
  some, List, [], ◌∷◌, ◌++◌, arith, ◌==◌, if◌then◌else◌, lt→ltb, ==_iff, Bool-cases, is_empty, All,
  All-append, shr,
}
use containernet_ndn_dpdk.Name.Uri.{
  is_digit, unescaped_char, hex_char, digits, escape, non_periods, three_periods, before_equals,
  parse_dec, parse_uint32, hex_value, two_digits, escaped, unescape, trim_periods,
}

-- The powers of ten.
abbrev pub tens : ℕ → ℕ
tens zero = 1
tens (suc f) = 10 * tens f

parse_dec-append :
    (xs : List ℕ) (m v c : ℕ)
    → parse_dec m xs ≡ some v
    → is_digit c ≡ true
    → parse_dec m (xs ++ (c ∷ [])) ≡ some (v * 10 + (c - 48))
unfolding parse_dec
parse_dec-append [] m v c h good = ground (arith, h, good)
parse_dec-append (x ∷ xs) m v c h good = elim (Bool-cases (is_digit x)) [
  | inl digit ↦ rw digit (parse_dec-append xs (m * 10 + (x - 48)) v c (rw digit at h) good)
  | inr other ↦ cc (rw other at h)
]

pub parse_dec-digits : (f n : ℕ) → n < tens f → parse_dec 0 (digits (suc f) n) ≡ some n
unfolding digits parse_dec
parse_dec-digits zero n h = ground (arith, h)
parse_dec-digits (suc f) n h = elim (Bool-cases (n / 10 == 0)) [
  | inl small ↦ rw small (ground (arith, small))
  | inr large ↦ rw large (
      parse_dec-append (digits (suc f) (n / 10)) 0 (n / 10) (48 + n % 10)
        (parse_dec-digits f (n / 10) (omega (arith, h))) (ground arith)
      ∙ ap some (omega arith))
]

-- A test that holds of the digits holds of a number.
pub All-digits : (f n : ℕ) → All (λ c. is_digit c ≡ true) (digits f n)
unfolding digits
All-digits zero n = tt
All-digits (suc f) n = elim (Bool-cases (n / 10 == 0)) [
  | inl small ↦ rw small (ground arith, tt)
  | inr large ↦ rw large (
      All-append (λ c. is_digit c ≡ true) (digits f (n / 10)) _ (All-digits f (n / 10))
        (ground arith, tt))
]

some_digit : (xs : List ℕ) (c : ℕ) → is_empty (xs ++ (c ∷ [])) ≡ false
some_digit [] c = refl
some_digit (x ∷ xs) c = refl

pub is_empty-digits : (f n : ℕ) → is_empty (digits (suc f) n) ≡ false
unfolding digits
is_empty-digits f n = some_digit (if n / 10 == 0 then [] else digits f (n / 10)) (48 + n % 10)

pub parse_uint32_lem :
    (xs : List ℕ) (n : ℕ)
    → is_empty xs ≡ false
    → parse_dec 0 xs ≡ some n
    → n < 2 ^ 32
    → parse_uint32 xs ≡ some n
unfolding parse_uint32
parse_uint32_lem [] n there h small = cc
parse_uint32_lem (x ∷ xs) n there h small = rw (h, lt→ltb n (2 ^ 32) small, parse_uint32)

-- What stands in front of the first equals sign.
pub before_equals-append :
    (xs rest : List ℕ)
    → All (λ c. is_digit c ≡ true) xs
    → before_equals (xs ++ (61 ∷ rest)) ≡ some xs
unfolding before_equals
before_equals-append [] rest h = refl
before_equals-append (x ∷ xs) rest (h, hs) =
    rw (before_equals-append xs rest hs) (ground (arith, h))

-- The periods at the end.
pub trim_periods-equals :
    (xs rest : List ℕ) → trim_periods (xs ++ (61 ∷ rest)) ≡ xs ++ (61 ∷ trim_periods rest)
unfolding trim_periods
trim_periods-equals [] rest = ground arith
trim_periods-equals (x ∷ xs) rest = rw (trim_periods-equals xs rest) (not_all x xs)
  where
    not_all :
        (x : ℕ) (xs : List ℕ)
        → (if is_empty (xs ++ (61 ∷ trim_periods rest)) && x == 46
            then []
            else x ∷ (xs ++ (61 ∷ trim_periods rest)))
          ≡ x ∷ (xs ++ (61 ∷ trim_periods rest))
    not_all x [] = refl
    not_all x (y ∷ xs) = refl

-- A value of periods is its own escape, and all of it is trimmed.
pub escape-periods : (value : List ℕ) → non_periods value ≡ 0 → escape value ≡ value
unfolding escape non_periods
escape-periods [] h = refl
escape-periods (b ∷ value) h = elim (Bool-cases (b == 46)) [
  | inl period ↦
      let same : b ≡ 46 = (==_iff b 46).0 period in
      rw (escape-periods value (rw period at h), same) refl
  | inr other ↦ cc (rw other at h)
]

pub trim_periods-periods :
    (value : List ℕ) → non_periods value ≡ 0 → trim_periods (value ++ three_periods) ≡ []
unfolding trim_periods non_periods
trim_periods-periods [] h = refl
trim_periods-periods (b ∷ value) h = elim (Bool-cases (b == 46)) [
  | inl period ↦ rw (trim_periods-periods value (rw period at h), period) refl
  | inr other ↦ cc (rw other at h)
]

-- Another value keeps a character that is no period.
trimmed-cons :
    (c : ℕ) (xs : List ℕ)
    → is_empty (trim_periods xs) ≡ false
    → is_empty (trim_periods (c ∷ xs)) ≡ false
unfolding trim_periods
trimmed-cons c xs h = rw (h, trim_periods) refl

trimmed-start : (c : ℕ) (xs : List ℕ) → (c == 46) ≡ false → is_empty (trim_periods (c ∷ xs)) ≡ false
unfolding trim_periods
trimmed-start c xs h = elim (Bool-cases (is_empty (trim_periods xs))) [
  | inl none_left ↦ rw (none_left, h, trim_periods) refl
  | inr left ↦ trimmed-cons c xs left
]

pub trim_periods-escape :
    (value : List ℕ)
    → (non_periods value == 0) ≡ false
    → is_empty (trim_periods (escape value ++ [])) ≡ false
unfolding escape non_periods
trim_periods-escape [] h = cc
trim_periods-escape (b ∷ value) h = elim (Bool-cases (unescaped_char b)) [
  | inl plain ↦ elim (Bool-cases (b == 46)) [
    | inl period ↦
        rw (plain, escape)
          (trimmed-cons b (escape value ++ []) (trim_periods-escape value (rw period at h)))
    | inr other ↦ rw (plain, escape) (trimmed-start b (escape value ++ []) other)
  ]
  | inr special ↦ rw (special, escape) (trimmed-start 37 _ refl)
]

-- A byte that is no percent sign stands for itself.
unescape-plain : (c : ℕ) (xs : List ℕ) → (c == 37) ≡ false → unescape (c ∷ xs) ≡ c ∷ unescape xs
unfolding unescape
unescape-plain c [] h = refl
unescape-plain c (a ∷ []) h = refl
unescape-plain c (a ∷ b ∷ xs) h = rw (h, unescape) refl

hex_value-hex_char : (n : ℕ) → n < 16 → hex_value (hex_char n) ≡ some n
hex_value-hex_char n h = ground (arith, h)

unescape-some :
    (c a b v : ℕ) (xs : List ℕ)
    → escaped c a b ≡ some v
    → unescape (c ∷ a ∷ b ∷ xs) ≡ v ∷ unescape xs
unfolding unescape
unescape-some c a b v xs h = rw (h, unescape) refl

unescape-special :
    (b : ℕ) (xs : List ℕ)
    → b < 256
    → unescape (37 ∷ hex_char (shr b 4) ∷ hex_char (b % 16) ∷ xs) ≡ b ∷ unescape xs
unescape-special b xs h =
    let high : hex_value (hex_char (shr b 4)) ≡ some (shr b 4) =
      hex_value-hex_char (shr b 4) (omega (arith, h)) in
    let low : hex_value (hex_char (b % 16)) ≡ some (b % 16) =
      hex_value-hex_char (b % 16) (omega arith) in
    unescape-some 37 (hex_char (shr b 4)) (hex_char (b % 16)) b xs (
      ap (λ x. two_digits x (hex_value (hex_char (b % 16)))) high
      ∙ ap (λ y. two_digits (some (shr b 4)) y) low
      ∙ ap some (omega arith))

plain_not_percent : (b : ℕ) → unescaped_char b ≡ true → (b == 37) ≡ false
plain_not_percent b h = ground (arith, h)

pub unescape-escape : (value : List ℕ) → All (λ b. b < 256) value → unescape (escape value) ≡ value
unfolding escape
unescape-escape [] h = unfold unescape in refl
unescape-escape (b ∷ value) (h, hs) = elim (Bool-cases (unescaped_char b)) [
  | inl plain ↦
      rw (plain, escape)
        (unescape-plain b (escape value) (plain_not_percent b plain)
          ∙ ap (λ v. b ∷ v) (unescape-escape value hs))
  | inr special ↦
      rw (special, escape)
        (unescape-special b (escape value) h ∙ ap (λ v. b ∷ v) (unescape-escape value hs))
]
