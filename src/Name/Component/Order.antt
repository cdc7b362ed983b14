-- ===== src/Name/Component/Order.antt =====
-- ndn/name-component.go: the canonical order of name components.
use containernet_ndn_dpdk.Shared.{
  [], ℕ, zero, suc, ◌≡◌, refl, sym, ap, ◌∙◌, subst, ◌↔◌, not, List, ◌∷◌, arith, ltb, if◌then◌else◌,
  length,
}
use mathlib.Core.Path.{ap₂}
use containernet_ndn_dpdk.Shared.Int.{ℤ, pos, negsuc, sub_ℕ}
use containernet_ndn_dpdk.Name.Component.{NameComponent, is_zero, bytes_compare, compare}

-- The sign of a comparison.
pub data Sign : Type 0 where
  less same more : Sign

abbrev pub sign : ℤ → Sign
sign (pos zero) = same
sign (pos (suc n)) = more
sign (negsuc n) = less

abbrev pub flip : Sign → Sign
flip less = more
flip same = same
flip more = less

pub bytes_compare-same : (xs ys : List ℕ) → sign (bytes_compare xs ys) ≡ same → xs ≡ ys
unfolding bytes_compare
bytes_compare-same [] [] h = refl
bytes_compare-same [] (b ∷ ys) h = cc
bytes_compare-same (a ∷ xs) [] h = cc
bytes_compare-same (a ∷ xs) (b ∷ ys) h = ground (arith, bytes_compare-same xs ys)

pub bytes_compare_self : (xs : List ℕ) → bytes_compare xs xs ≡ pos 0
unfolding bytes_compare
bytes_compare_self [] = refl
bytes_compare_self (a ∷ xs) = ground (arith, bytes_compare_self xs)

pub bytes_compare-flip :
    (xs ys : List ℕ) → sign (bytes_compare ys xs) ≡ flip (sign (bytes_compare xs ys))
unfolding bytes_compare
bytes_compare-flip [] [] = refl
bytes_compare-flip [] (b ∷ ys) = refl
bytes_compare-flip (a ∷ xs) [] = refl
bytes_compare-flip (a ∷ xs) (b ∷ ys) = ground (arith, bytes_compare-flip xs ys)

pub bytes_compare_trans :
    (xs ys zs : List ℕ)
    → sign (bytes_compare xs ys) ≡ less
    → sign (bytes_compare ys zs) ≡ less
    → sign (bytes_compare xs zs) ≡ less
unfolding bytes_compare
bytes_compare_trans [] [] zs h k = cc
bytes_compare_trans [] (b ∷ ys) [] h k = cc
bytes_compare_trans [] (b ∷ ys) (c ∷ zs) h k = refl
bytes_compare_trans (a ∷ xs) [] zs h k = cc
bytes_compare_trans (a ∷ xs) (b ∷ ys) [] h k = cc
bytes_compare_trans (a ∷ xs) (b ∷ ys) (c ∷ zs) h k = ground (arith, bytes_compare_trans xs ys zs)

-- Comparing by one number first and then by what follows.
abbrev pub cmp : ℕ → ℕ → Sign
cmp a b = if ltb a b then less else if ltb b a then more else same

abbrev pub and_then : Sign → Sign → Sign
and_then less t = less
and_then same t = t
and_then more t = more

pub sub_ℕ-sign : (a b : ℕ) → sign (sub_ℕ a b) ≡ cmp a b
sub_ℕ-sign a b = ground arith

pub unless_zero : (d e : ℤ) → sign (if not (is_zero d) then d else e) ≡ and_then (sign d) (sign e)
unless_zero d e = ground arith

lex_trans :
    (x y z : ℕ) (s t u : Sign)
    → (s ≡ less → t ≡ less → u ≡ less)
    → and_then (cmp x y) s ≡ less
    → and_then (cmp y z) t ≡ less
    → and_then (cmp x z) u ≡ less
lex_trans x y z s t u next p q = ground arith

-- The sign of `compare`: type, length, bytes.
pub sign-compare :
    (a b : NameComponent)
    → sign (compare a b)
      ≡ and_then
          (cmp a.typ b.typ)
          (and_then (cmp (length a.value) (length b.value)) (sign (bytes_compare a.value b.value)))
unfolding compare
sign-compare a b =
    unless_zero (sub_ℕ a.typ b.typ) _
    ∙ ap₂ and_then (sub_ℕ-sign a.typ b.typ) (
        unless_zero (sub_ℕ (length a.value) (length b.value)) (bytes_compare a.value b.value)
        ∙ ap (λ s. and_then s (sign (bytes_compare a.value b.value)))
            (sub_ℕ-sign (length a.value) (length b.value)))

and_then-same : (x y : ℕ) (s : Sign) → and_then (cmp x y) s ≡ same → (x ≡ y) × (s ≡ same)
and_then-same x y s h = ground arith

pub compare_self : (a : NameComponent) → sign (compare a a) ≡ same
compare_self a = rw (sign-compare a a, bytes_compare_self a.value) (ground arith)

-- Two components compare as zero exactly if they are the same.
pub compare-same : (a b : NameComponent) → (sign (compare a b) ≡ same) ↔ (a ≡ b)
compare-same a b = (
  λ h.
      let (t, r) = and_then-same a.typ b.typ _ (sym (sign-compare a b) ∙ h) in
      let (_, v) = and_then-same (length a.value) (length b.value) _ r in
      let w = bytes_compare-same a.value b.value v in λ i. record { typ = t i; value = w i },
  λ e. subst (λ c. sign (compare a c) ≡ same) e (compare_self a),
)

-- Exchanging the components turns the sign.
pub compare-flip : (a b : NameComponent) → sign (compare b a) ≡ flip (sign (compare a b))
compare-flip a b =
    rw (sign-compare a b, sign-compare b a) (ground (arith, bytes_compare-flip a.value b.value))

-- The order of components is transitive.
pub compare_trans :
    (a b c : NameComponent)
    → sign (compare a b) ≡ less
    → sign (compare b c) ≡ less
    → sign (compare a c) ≡ less
compare_trans a b c h k =
    sign-compare a c
    ∙ lex_trans a.typ b.typ c.typ _ _ _
        (lex_trans (length a.value) (length b.value) (length c.value) _ _ _
          (bytes_compare_trans a.value b.value c.value))
        (sym (sign-compare a b) ∙ h) (sym (sign-compare b c) ∙ k)
