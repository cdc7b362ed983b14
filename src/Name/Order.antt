-- ===== src/Name/Order.antt =====
-- ndn/name.go: the order of names, equality and prefixes.
use containernet_ndn_dpdk.Shared.{
  [], ℕ, suc, ◌≡◌, refl, sym, ap, ◌∙◌, subst, ◌↔◌, true, ◌∷◌, ◌++◌, arith, tests, length,
}
use mathlib.Core.Path.{ap₂}
use containernet_ndn_dpdk.Shared.Int.{ℤ, sub_ℕ}
use containernet_ndn_dpdk.Name.Component
use containernet_ndn_dpdk.Name.Component.{NameComponent, is_zero}
use containernet_ndn_dpdk.Name.Component.Order.{
  Sign, less, same, more, sign, flip, cmp, and_then, sub_ℕ-sign, compare-same, compare_self,
  compare-flip as component_flip, compare_trans as component_trans, unless_zero,
}
use containernet_ndn_dpdk.Name.{Name, compare_common_prefix, compare, equal, is_prefix_of}

-- The order of names, one component after the other; a proper prefix comes first.
pub lex : Name → Name → Sign
lex [] [] = same
lex [] (y ∷ ys) = less
lex (x ∷ xs) [] = more
lex (x ∷ xs) (y ∷ ys) = and_then (sign (Component.compare x y)) (lex xs ys)

cmp-suc : (a b : ℕ) → cmp (suc a) (suc b) ≡ cmp a b
cmp-suc a b = ground arith

common_sign :
    (x y : NameComponent) (xs ys : Name)
    → sign (compare_common_prefix (x ∷ xs) (y ∷ ys))
      ≡ and_then (sign (Component.compare x y)) (sign (compare_common_prefix xs ys))
unfolding compare_common_prefix
common_sign x y xs ys = unless_zero (Component.compare x y) (compare_common_prefix xs ys)

and_then_assoc : (s t u : Sign) → and_then (and_then s t) u ≡ and_then s (and_then t u)
and_then_assoc s t u = ground arith

and_then_same_inv : (s t : Sign) → and_then s t ≡ same → (s ≡ same) × (t ≡ same)
and_then_same_inv s t h = ground arith

flip-and_then : (s t : Sign) → and_then (flip s) (flip t) ≡ flip (and_then s t)
flip-and_then s t = ground arith

two_steps :
    (a b : Name) → and_then (sign (compare_common_prefix a b)) (cmp (length a) (length b)) ≡ lex a b
unfolding compare_common_prefix lex
two_steps [] [] = refl
two_steps [] (y ∷ ys) = ground arith
two_steps (x ∷ xs) [] = ground arith
two_steps (x ∷ xs) (y ∷ ys) =
    ap₂ and_then (common_sign x y xs ys) (cmp-suc (length xs) (length ys))
    ∙ and_then_assoc (sign (Component.compare x y)) _ _
    ∙ ap (and_then (sign (Component.compare x y))) (two_steps xs ys)

-- The code's comparison, first of the common prefix and then of the lengths, is that order.
pub compare-lex : (a b : Name) → sign (compare a b) ≡ lex a b
unfolding compare
compare-lex a b =
    unless_zero (compare_common_prefix a b) (sub_ℕ (length a) (length b))
    ∙ ap (and_then (sign (compare_common_prefix a b))) (sub_ℕ-sign (length a) (length b))
    ∙ two_steps a b

lex-same : (a b : Name) → lex a b ≡ same → a ≡ b
unfolding lex
lex-same [] [] h = refl
lex-same [] (y ∷ ys) h = cc
lex-same (x ∷ xs) [] h = cc
lex-same (x ∷ xs) (y ∷ ys) h =
    let (p, q) = and_then_same_inv (sign (Component.compare x y)) (lex xs ys) h in
    ap₂ (λ c cs. c ∷ cs) ((compare-same x y).0 p) (lex-same xs ys q)

lex_self : (a : Name) → lex a a ≡ same
unfolding lex
lex_self [] = refl
lex_self (x ∷ xs) = rw (compare_self x, lex_self xs)

lex-flip : (a b : Name) → lex b a ≡ flip (lex a b)
unfolding lex
lex-flip [] [] = refl
lex-flip [] (y ∷ ys) = refl
lex-flip (x ∷ xs) [] = refl
lex-flip (x ∷ xs) (y ∷ ys) = rw (component_flip x y, lex-flip xs ys) (flip-and_then _ _)

lex_step :
    (x y z : NameComponent) (s t u : Sign)
    → (s ≡ less → t ≡ less → u ≡ less)
    → and_then (sign (Component.compare x y)) s ≡ less
    → and_then (sign (Component.compare y z)) t ≡ less
    → and_then (sign (Component.compare x z)) u ≡ less
lex_step x y z s t u next h k =
    ground
      (arith, component_trans x y z, (compare-same x y).0, (compare-same y z).0, compare_self y)

lex_trans : (a b c : Name) → lex a b ≡ less → lex b c ≡ less → lex a c ≡ less
unfolding lex
lex_trans [] [] c h k = cc
lex_trans [] (y ∷ ys) [] h k = cc
lex_trans [] (y ∷ ys) (z ∷ zs) h k = refl
lex_trans (x ∷ xs) [] c h k = cc
lex_trans (x ∷ xs) (y ∷ ys) [] h k = cc
lex_trans (x ∷ xs) (y ∷ ys) (z ∷ zs) h k =
    lex_step x y z (lex xs ys) (lex ys zs) (lex xs zs) (lex_trans xs ys zs) h k

-- `Compare` decides the order of names: it is zero exactly on equal names, and exchanging the names
-- turns its sign.
pub compare_total :
    (a b : Name)
    → ((sign (compare a b) ≡ same) ↔ (a ≡ b)) × (sign (compare b a) ≡ flip (sign (compare a b)))
compare_total a b =
    rw (compare-lex a b, compare-lex b a)
      ((lex-same a b, λ e. subst (λ t. lex a t ≡ same) e (lex_self a)), lex-flip a b)

-- The order of names is transitive: of three names, if the first is less than the second and the
-- second less than the third, then the first is less than the third.
pub compare_trans :
    (a b c : Name)
    → sign (compare a b) ≡ less
    → sign (compare b c) ≡ less
    → sign (compare a c) ≡ less
compare_trans a b c h k =
    compare-lex a c ∙ lex_trans a b c (sym (compare-lex a b) ∙ h) (sym (compare-lex b c) ∙ k)

sign-is_zero : (d : ℤ) → (is_zero d ≡ true) ↔ (sign d ≡ same)
sign-is_zero d = ground arith

-- `Equal` is equality.
pub equal_iff : (a b : Name) → (equal a b ≡ true) ↔ (a ≡ b)
unfolding equal
equal_iff a b =
    let e = sign-is_zero (compare a b) in
    let (o, _) = compare_total a b in (λ h. o.0 (e.0 h), λ h. e.1 (o.1 h))

prefix-cons :
    (x y : NameComponent) (xs ys : Name)
    → (is_prefix_of (x ∷ xs) (y ∷ ys) ≡ true) ↔ ((x ≡ y) × (is_prefix_of xs ys ≡ true))
unfolding is_prefix_of compare_common_prefix
prefix-cons x y xs ys = (
  λ h. ground (arith, sign-is_zero (Component.compare x y), compare-same x y),
  λ (e, h). ground (arith, sign-is_zero (Component.compare x y), compare-same x y),
)

prefix_suffix : (a b : Name) → is_prefix_of a b ≡ true → (suffix : Name) × (b ≡ a ++ suffix)
prefix_suffix [] b h = (b, refl)
prefix_suffix (x ∷ xs) [] h = absurd (unfold is_prefix_of compare_common_prefix in omega tests)
prefix_suffix (x ∷ xs) (y ∷ ys) h =
    let (e, k) = (prefix-cons x y xs ys).0 h in
    let (s, q) = prefix_suffix xs ys k in (s, ap₂ (λ c cs. c ∷ cs) (sym e) q)

prefix_append : (a s : Name) → is_prefix_of a (a ++ s) ≡ true
prefix_append [] s = unfold is_prefix_of compare_common_prefix in ground arith
prefix_append (x ∷ xs) s = (prefix-cons x x xs (xs ++ s)).1 (refl, prefix_append xs s)

-- `IsPrefixOf` holds exactly if the other name is this one with more components behind it.
pub is_prefix_of_iff :
    (a b : Name) → (is_prefix_of a b ≡ true) ↔ ((suffix : Name) × (b ≡ a ++ suffix))
is_prefix_of_iff a b =
    (prefix_suffix a b, λ (s, e). subst (λ t. is_prefix_of a t ≡ true) (sym e) (prefix_append a s))
