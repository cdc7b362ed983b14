-- ===== src/Data/Satisfy.antt =====
-- ndn/data.go: which Interests a Data satisfies.
use containernet_ndn_dpdk.Shared.{
  ℕ, ◌≡◌, refl, ◌≢◌, ◌↔◌, ◌⊎◌, inl, inr, Bool, true, false, ◌&&◌, not, List, [], ◌∷◌, ◌++◌, arith,
  ◌==◌, if◌then◌else◌, is_empty,
}
use containernet_ndn_dpdk.Shared.Int.{pos, negsuc, ltb_ℤ, leb_ℤ}
use containernet_ndn_dpdk.Name.{Name, get}
use containernet_ndn_dpdk.Name.Order.{equal_iff, is_prefix_of_iff}
use containernet_ndn_dpdk.Interest.{Interest}
use containernet_ndn_dpdk.Data.Checks.{can_satisfy, full_name, tt_implicit_digest}
use containernet_ndn_dpdk.Data.{Data}

-- The last component of the name is an implicit digest.
abbrev pub asks_digest : Interest → Bool
asks_digest i = (get i.name (negsuc 0)).typ == tt_implicit_digest

abbrev pub IsFreshFor : Data → Interest → Type 0
IsFreshFor d i = (i.must_be_fresh ≡ false) ⊎ (ltb_ℤ (pos 0) d.freshness ≡ true)

-- The name of the Interest is the full name, a prefix of the name, or the name.
abbrev pub IsNameFor : (List ℕ → List ℕ) → Data → Interest → Type 0
IsNameFor sha256 d i =
    ((asks_digest i ≡ true) × (i.name ≡ full_name sha256 d))
    ⊎ ((asks_digest i ≡ false)
        × (i.can_be_prefix ≡ true)
        × ((rest : Name) × (d.name ≡ i.name ++ rest)))
    ⊎ ((asks_digest i ≡ false) × (i.can_be_prefix ≡ false) × (i.name ≡ d.name))

-- A test of three, by two Booleans.
choice_iff :
    {A B C : Type 0} (asks prefix e1 e2 e3 : Bool)
    → (e1 ≡ true) ↔ A
    → (e2 ≡ true) ↔ B
    → (e3 ≡ true) ↔ C
    → ((if asks then e1 else if prefix then e2 else e3) ≡ true) ↔ (
        ((asks ≡ true) × A)
        ⊎ ((asks ≡ false) × (prefix ≡ true) × B)
        ⊎ ((asks ≡ false) × (prefix ≡ false) × C))
choice_iff true prefix e1 e2 e3 a b c = (
  λ e. inl (refl, a.0 e),
  λ m. elim m [ inl (_, x) ↦ a.1 x | inr (inl (bad, _, _)) ↦ cc | inr (inr (bad, _, _)) ↦ cc ],
)
choice_iff false true e1 e2 e3 a b c = (
  λ e. inr (inl (refl, refl, b.0 e)),
  λ m. elim m [ inl (bad, _) ↦ cc | inr (inl (_, _, x)) ↦ b.1 x | inr (inr (_, bad, _)) ↦ cc ],
)
choice_iff false false e1 e2 e3 a b c = (
  λ e. inr (inr (refl, refl, c.0 e)),
  λ m. elim m [ inl (bad, _) ↦ cc | inr (inl (_, bad, _)) ↦ cc | inr (inr (_, _, x)) ↦ c.1 x ],
)

-- The two tests in front of it.
guards_iff :
    {M : Type 0} (stale must last : Bool) (name : Name) (fresh : Bool)
    → stale ≡ not fresh
    → (last ≡ true) ↔ M
    → ((if is_empty name then false else if must && stale then false else last) ≡ true)
      ↔ ((name ≢ []) × ((must ≡ false) ⊎ (fresh ≡ true)) × M)
guards_iff stale must last [] fresh e m = (λ h. cc, λ (h, _, _). absurd (h refl))
guards_iff stale false last (c ∷ name) fresh e m =
    (λ h. (λ bad. cc, inl refl, m.0 h), λ (_, _, x). m.1 x)
guards_iff stale true last (c ∷ name) true e m =
    rw e (λ h. (λ bad. cc, inr refl, m.0 h), λ (_, _, x). m.1 x)
guards_iff stale true last (c ∷ name) false e m =
    rw e (λ h. cc, λ (_, f, _). elim f [ inl bad ↦ cc | inr bad ↦ cc ])

-- A Data satisfies exactly the Interests whose name is not empty, which do not ask for a fresh Data or
-- find it fresh, and whose name is the full name of the Data if it ends in an implicit digest, and else
-- a prefix of its name if CanBePrefix is set, and else its name.
pub can_satisfy_iff :
    (sha256 : List ℕ → List ℕ) (d : Data) (i : Interest)
    → (can_satisfy sha256 d i ≡ true) ↔ ((i.name ≢ []) × IsFreshFor d i × IsNameFor sha256 d i)
unfolding can_satisfy
can_satisfy_iff sha256 d i =
    guards_iff (leb_ℤ d.freshness (pos 0)) i.must_be_fresh _ i.name (ltb_ℤ (pos 0) d.freshness)
      (ground arith)
      (choice_iff (asks_digest i) i.can_be_prefix _ _ _ (equal_iff i.name (full_name sha256 d))
        (is_prefix_of_iff i.name d.name) (equal_iff i.name d.name))
