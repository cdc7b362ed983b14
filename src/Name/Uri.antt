-- ===== src/Name/Uri.antt =====
-- ndn/name-component.go and ndn/name.go: the URI form of components and names. A string is a list of bytes.
-- strconv and strings are of the standard library.
pub mod Chars
pub mod Components
pub mod Names
use containernet_ndn_dpdk.Shared.{
  ℕ, zero, suc, ◌+◌, ◌-◌, ◌*◌, ◌/◌, ◌%◌, ◌^◌, Bool, ◌&&◌, ◌||◌, Option, none, some, List, [], ◌∷◌,
  ◌++◌, map, ltb, leb, ◌==◌, if◌then◌else◌, length, is_empty, drop, shr, Result, ok, panic, ◌>>=◌,
}
use mathlib.Core.Option
use containernet_ndn_dpdk.Name.{Name}
use containernet_ndn_dpdk.Name.Component.{NameComponent, is_valid_name_component_type}

-- unescapedChars: letters, digits and `-._~`.
abbrev pub is_digit : ℕ → Bool
is_digit c = leb 48 c && leb c 57

abbrev pub unescaped_char : ℕ → Bool
unescaped_char c =
    (leb 65 c && leb c 90)
    || (leb 97 c && leb c 122)
    || is_digit c
    || c == 45
    || c == 46
    || c == 95
    || c == 126

-- hexChars
abbrev pub hex_char : ℕ → ℕ
hex_char n = if ltb n 10 then 48 + n else 55 + n

-- strconv.Itoa on a uint32, which has at most 10 digits.
unfoldable pub digits : ℕ → ℕ → List ℕ
digits zero n = []
digits (suc fuel) n =
    let rest = digits fuel (n / 10) in (if n / 10 == 0 then [] else rest) ++ ((48 + n % 10) ∷ [])

abbrev pub itoa : ℕ → List ℕ
itoa n = digits 10 n

-- The loop of writeStringTo; `b&0x0F` is the remainder by 16.
unfoldable pub escape : List ℕ → List ℕ
escape [] = []
escape (b ∷ value) =
    (if unescaped_char b then b ∷ [] else 37 ∷ hex_char (shr b 4) ∷ hex_char (b % 16) ∷ [])
    ++ escape value

-- nNonPeriods
unfoldable pub non_periods : List ℕ → ℕ
non_periods [] = 0
non_periods (b ∷ value) = if b == 46 then non_periods value else suc (non_periods value)

abbrev pub three_periods : List ℕ
three_periods = 46 ∷ 46 ∷ 46 ∷ []

-- writeStringTo and NameComponent.String
unfoldable pub comp_string : NameComponent → List ℕ
comp_string comp =
    itoa comp.typ
    ++ (61 ∷ (escape comp.value ++ (if non_periods comp.value == 0 then three_periods else [])))

-- strings.IndexByte(input, '='), with what stands before it.
pub before_equals : List ℕ → Option (List ℕ)
before_equals [] = none
before_equals (c ∷ input) =
    let rest = before_equals input in
    if c == 61 then some [] else Option.map (λ before. c ∷ before) rest

-- strconv.ParseUint in base 10, up to its bound.
pub parse_dec : ℕ → List ℕ → Option ℕ
parse_dec n [] = some n
parse_dec n (c ∷ input) =
    let rest = parse_dec (n * 10 + (c - 48)) input in if is_digit c then rest else none

pub parse_uint32 : List ℕ → Option ℕ
parse_uint32 [] = none
parse_uint32 (c ∷ input) = elim (parse_dec 0 (c ∷ input)) [
  | none ↦ none
  | some n ↦ if ltb n (2 ^ 32) then some n else none
]

-- strconv.ParseUint in base 16, on two digits.
abbrev pub hex_value : ℕ → Option ℕ
hex_value c =
    if is_digit c
    then some (c - 48)
    else if leb 65 c && leb c 70
    then some (c - 55)
    else if leb 97 c && leb c 102
    then some (c - 87)
    else none

abbrev pub two_digits : Option ℕ → Option ℕ → Option ℕ
two_digits (some a) (some b) = some (16 * a + b)
two_digits none b = none
two_digits (some a) none = none

-- The byte of a percent sign with two digits behind it.
abbrev pub escaped : ℕ → ℕ → ℕ → Option ℕ
escaped c a b = if c == 37 then two_digits (hex_value a) (hex_value b) else none

-- The loop of ParseNameComponent.
pub unescape : List ℕ → List ℕ
unescape [] = []
unescape (c ∷ []) = c ∷ []
unescape (c ∷ a ∷ []) = c ∷ a ∷ []
unescape (c ∷ a ∷ b ∷ input) = elim (escaped c a b) [
  | some v ↦ v ∷ unescape input
  | none ↦ c ∷ unescape (a ∷ b ∷ input)
]

-- strings.TrimRight(input, ".")
pub trim_periods : List ℕ → List ℕ
trim_periods [] = []
trim_periods (c ∷ input) =
    let rest = trim_periods input in if is_empty rest && c == 46 then [] else c ∷ rest

-- The TLV-TYPE and `pos`.
abbrev pub type_or_generic : ℕ → Option ℕ → ℕ × ℕ
type_or_generic pos none = (8, 0)
type_or_generic pos (some typ) = if is_valid_name_component_type typ then (typ, pos) else (8, 0)

abbrev pub type_at : Option (List ℕ) → ℕ × ℕ
type_at none = (8, 0)
type_at (some before) = type_or_generic (suc (length before)) (parse_uint32 before)

-- `[]byte(input)[n:]`, which panics past the end of the input.
abbrev pub slice_from : ℕ → List ℕ → Result (List ℕ)
slice_from n input = if leb n (length input) then ok (drop n input) else panic

abbrev pub parse_value : ℕ → List ℕ → Result (List ℕ)
parse_value pos input =
    if length (trim_periods input) == pos && leb 3 (length input)
    then slice_from (pos + 3) input
    else ok (unescape (drop pos input))

-- ParseNameComponent
pub parse_name_component : List ℕ → Result NameComponent
parse_name_component input =
    let (typ, pos) = type_at (before_equals input) in
    parse_value pos input >>= λ value. ok (record { typ = typ; value = value })

-- Name.String behind the test for the empty name.
unfoldable pub comp_strings : Name → List ℕ
comp_strings [] = []
comp_strings (comp ∷ name) = 47 ∷ (comp_string comp ++ comp_strings name)

-- Name.String
unfoldable pub name_string : Name → List ℕ
name_string [] = 47 ∷ []
name_string (comp ∷ name) = comp_strings (comp ∷ name)

-- strings.TrimPrefix(input, "ndn:")
pub trim_scheme : List ℕ → List ℕ
trim_scheme (a ∷ b ∷ c ∷ d ∷ input) =
    if a == 110 && b == 100 && c == 110 && d == 58 then input else a ∷ b ∷ c ∷ d ∷ input
trim_scheme input = input

-- strings.Split(input, "/"): the first token, and the others.
abbrev pub add_char : ℕ → List ℕ × List (List ℕ) → List ℕ × List (List ℕ)
add_char c (token, tokens) = if c == 47 then ([], token ∷ tokens) else (c ∷ token, tokens)

pub split_slashes : List ℕ → List ℕ × List (List ℕ)
split_slashes [] = ([], [])
split_slashes (c ∷ input) = add_char c (split_slashes input)

-- The loop of ParseName.
pub parse_tokens : List (List ℕ) → Result Name
parse_tokens [] = ok []
parse_tokens (token ∷ tokens) =
    let rest = parse_tokens tokens in
    if is_empty token
    then rest
    else (parse_name_component token >>= λ comp. rest >>= λ name. ok (comp ∷ name))

-- ParseName
pub parse_name : List ℕ → Result Name
parse_name input =
    let (token, tokens) = split_slashes (trim_scheme input) in parse_tokens (token ∷ tokens)
