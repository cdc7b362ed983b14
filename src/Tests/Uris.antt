-- ===== src/Tests/Uris.antt =====
-- The URI form of names in ndn/name.go and ndn/name-component.go on a name of two components, of which one
-- has two periods.
use containernet_ndn_dpdk.Shared.{◌≡◌, refl, [], ◌∷◌, ◌++◌, arith, All, ok, panic}
use containernet_ndn_dpdk.Name.{Name}
use containernet_ndn_dpdk.Name.Component.{valid}
use containernet_ndn_dpdk.Name.Uri.{
  itoa, digits, comp_string, escape, non_periods, name_string, comp_strings, parse_name,
  parse_name_component,
}
use containernet_ndn_dpdk.Name.Uri.Components.{IsText, parse_panics}
use containernet_ndn_dpdk.Name.Uri.Names.{parse_name-name_string}

abbrev periods_and_slash : Name
periods_and_slash =
    record { typ = 8; value = 46 ∷ 46 ∷ [] } ∷ record { typ = 300; value = 65 ∷ 47 ∷ [] } ∷ []

-- /8=...../300=A%2F
its_string :
    name_string periods_and_slash
    ≡ 47 ∷ 56 ∷ 61 ∷ 46 ∷ 46 ∷ 46 ∷ 46 ∷ 46 ∷ 47 ∷ 51 ∷ 48 ∷ 48 ∷ 61 ∷ 65 ∷ 37 ∷ 50 ∷ 70 ∷ []
unfolding name_string comp_strings comp_string digits escape non_periods
its_string = refl

periods_and_slash-IsText : All IsText periods_and_slash
unfolding valid
periods_and_slash-IsText = (
  record { good = refl; all_bytes = (omega arith, (omega arith, tt)) },
  (record { good = refl; all_bytes = (omega arith, (omega arith, tt)) }, tt),
)

parse_name-name_string_example : parse_name (name_string periods_and_slash) ≡ ok periods_and_slash
parse_name-name_string_example = parse_name-name_string periods_and_slash periods_and_slash-IsText

-- 8=.
parse_panics_example : parse_name_component (itoa 8 ++ (61 ∷ 46 ∷ [])) ≡ panic
parse_panics_example = parse_panics 8 1 refl (omega arith) (omega arith)
