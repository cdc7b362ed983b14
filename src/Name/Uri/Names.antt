-- ===== src/Name/Uri/Names.antt =====
-- ndn/name.go: ParseName on the URI form of a name.
use containernet_ndn_dpdk.Shared.{
  ℕ, ◌%◌, ◌≡◌, refl, ap, ◌∙◌, inl, inr, Bool, true, false, List, [], ◌∷◌, ◌++◌, append-nil, arith,
  ◌==◌, if◌then◌else◌, Bool-cases, is_empty, All, All-append, shr, ok,
}
use containernet_ndn_dpdk.Name.{Name}
use containernet_ndn_dpdk.Name.Component.{NameComponent}
use containernet_ndn_dpdk.Name.Uri.{
  is_digit, unescaped_char, hex_char, itoa, escape, non_periods, three_periods, comp_string,
  comp_strings, name_string, trim_scheme, add_char, split_slashes, parse_tokens, parse_name,
}
use containernet_ndn_dpdk.Name.Uri.Chars.{All-digits, is_empty-digits}
use containernet_ndn_dpdk.Name.Uri.Components.{IsText, parse_name_component-comp_string}

-- Strings without a slash.
abbrev pub IsToken : List ℕ → Type 0
IsToken = All (λ c. (c == 47) ≡ false)

digits-IsToken : (xs : List ℕ) → All (λ c. is_digit c ≡ true) xs → IsToken xs
digits-IsToken [] h = tt
digits-IsToken (x ∷ xs) (h, hs) = (ground (arith, h), digits-IsToken xs hs)

hex_char-IsToken : (n : ℕ) → (hex_char n == 47) ≡ false
hex_char-IsToken n = ground arith

escape-IsToken : (value : List ℕ) → IsToken (escape value)
unfolding escape
escape-IsToken [] = tt
escape-IsToken (b ∷ value) = elim (Bool-cases (unescaped_char b)) [
  | inl plain ↦ rw (plain, escape) (ground (arith, plain), escape-IsToken value)
  | inr special ↦
      rw (special, escape)
        (refl, (hex_char-IsToken (shr b 4), (hex_char-IsToken (b % 16), escape-IsToken value)))
]

comp_string-IsToken : (comp : NameComponent) → IsToken (comp_string comp)
unfolding comp_string
comp_string-IsToken comp =
    All-append (λ c. (c == 47) ≡ false) (itoa comp.typ) _
      (digits-IsToken (itoa comp.typ) (All-digits 10 comp.typ))
      (
        refl,
        All-append (λ c. (c == 47) ≡ false) (escape comp.value) _ (escape-IsToken comp.value)
            (dots (non_periods comp.value == 0)),
      )
  where
    dots : (b : Bool) → IsToken (if b then three_periods else [])
    dots true = (refl, (refl, (refl, tt)))
    dots false = tt

comp_string-is_empty : (comp : NameComponent) → is_empty (comp_string comp) ≡ false
unfolding comp_string
comp_string-is_empty comp = in_front (itoa comp.typ) _ (is_empty-digits 9 comp.typ)
  where
    in_front : (xs ys : List ℕ) → is_empty xs ≡ false → is_empty (xs ++ ys) ≡ false
    in_front [] ys h = cc
    in_front (x ∷ xs) ys h = refl

-- A token in front of others.
split_slashes-append :
    (token rest : List ℕ)
    → IsToken token
    → split_slashes (token ++ rest) ≡ (token ++ (split_slashes rest).0, (split_slashes rest).1)
unfolding split_slashes
split_slashes-append [] rest h = refl
split_slashes-append (c ∷ token) rest (h, hs) = rw (split_slashes-append token rest hs, h) refl

-- The tokens of a name behind its first slash.
abbrev tokens_of : Name → List (List ℕ)
tokens_of [] = []
tokens_of (comp ∷ name) = comp_string comp ∷ tokens_of name

split_slashes-comp_strings :
    (name : Name) → split_slashes (comp_strings name) ≡ ([], tokens_of name)
unfolding split_slashes comp_strings
split_slashes-comp_strings [] = refl
split_slashes-comp_strings (comp ∷ name) = ap (add_char 47) (
    split_slashes-append (comp_string comp) (comp_strings name) (comp_string-IsToken comp)
    ∙ rw (split_slashes-comp_strings name, append-nil (comp_string comp)))

parse_tokens-tokens_of : (name : Name) → All IsText name → parse_tokens (tokens_of name) ≡ ok name
unfolding parse_tokens
parse_tokens-tokens_of [] h = refl
parse_tokens-tokens_of (comp ∷ name) (h, hs) = rw (
  comp_string-is_empty comp,
  parse_name_component-comp_string comp h,
  parse_tokens-tokens_of name hs,
)

trim_scheme-slash : (xs : List ℕ) → trim_scheme (47 ∷ xs) ≡ 47 ∷ xs
unfolding trim_scheme
trim_scheme-slash [] = refl
trim_scheme-slash (a ∷ []) = refl
trim_scheme-slash (a ∷ b ∷ []) = refl
trim_scheme-slash (a ∷ b ∷ c ∷ xs) = refl

-- A name whose components have valid TLV-TYPEs is read back by ParseName from its URI form, whatever the
-- bytes in its components are.
pub parse_name-name_string :
    (name : Name) → All IsText name → parse_name (name_string name) ≡ ok name
unfolding parse_name name_string comp_strings trim_scheme split_slashes parse_tokens
parse_name-name_string [] h = refl
parse_name-name_string (comp ∷ name) h =
    ap (λ s. parse_tokens ((split_slashes s).0 ∷ (split_slashes s).1))
      (trim_scheme-slash (comp_string comp ++ comp_strings name))
    ∙ ap (λ p. parse_tokens (p.0 ∷ p.1)) (split_slashes-comp_strings (comp ∷ name))
    ∙ parse_tokens-tokens_of (comp ∷ name) h
