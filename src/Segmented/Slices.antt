-- ===== src/Segmented/Slices.antt =====
-- Prefixes of lists, and products, as the offsets of segments use them.
use containernet_ndn_dpdk.Shared.{
  ℕ, zero, suc, ◌+◌, ◌-◌, ◌*◌, ◌≤◌, ◌<◌, ◌≡◌, refl, sym, ap, ◌∙◌, List, [], ◌∷◌, ◌++◌, arith,
  length, take, drop,
}

pub take_all : (n : ℕ) (xs : List ℕ) → length xs ≤ n → take n xs ≡ xs
take_all zero [] h = refl
take_all zero (x ∷ xs) h = absurd (omega (arith, h))
take_all (suc n) [] h = refl
take_all (suc n) (x ∷ xs) h = ap (λ t. x ∷ t) (take_all n xs (omega (arith, h)))

pub take-suc : (n : ℕ) (xs : List ℕ) → take n (take (suc n) xs) ≡ take n xs
take-suc zero [] = refl
take-suc zero (x ∷ xs) = refl
take-suc (suc n) [] = refl
take-suc (suc n) (x ∷ xs) = ap (λ t. x ∷ t) (take-suc n xs)

pub take_nil : (n : ℕ) → take {A = ℕ} n [] ≡ []
take_nil zero = refl
take_nil (suc n) = refl

pub take_add : (a b s : ℕ) (xs : List ℕ) → s ≡ a + b → take a xs ++ take b (drop a xs) ≡ take s xs
take_add zero b s [] e = take_nil b ∙ sym (take_nil s)
take_add zero b s (x ∷ xs) e = ap (λ n. take n (x ∷ xs)) (omega (arith, e))
take_add (suc a) b s [] e = take_nil b ∙ sym (take_nil s)
take_add (suc a) b zero (x ∷ xs) e = absurd (omega (arith, e))
take_add (suc a) b (suc s) (x ∷ xs) e = ap (λ t. x ∷ t) (take_add a b s xs (omega (arith, e)))

pub take_zero : (xs : List ℕ) → take 0 xs ≡ []
take_zero [] = refl
take_zero (x ∷ xs) = refl

pub zero_times : (c : ℕ) → 0 * c ≡ 0
zero_times c = omega arith

pub suc_times : (n c : ℕ) → suc n * c ≡ n * c + c
suc_times n c = grind arith

pub pred_times : (q c : ℕ) → 0 < q → (q - 1) * c + c ≡ q * c
pred_times zero c h = absurd (omega (arith, h))
pred_times (suc q) c h = ap (λ n. n * c + c) (omega arith) ∙ sym (suc_times q c)

pub pos_factor : (q c : ℕ) → 0 < q * c → 0 < q
pos_factor zero c h = absurd (omega (arith, h))
pos_factor (suc q) c h = omega arith
