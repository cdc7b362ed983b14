-- ===== src/FibTree/Counts.antt =====
-- container/fib/fibtree: the nodes and the entries of a tree, counted along the walks.
use containernet_ndn_dpdk.Shared.{
  ℕ, ◌+◌, ◌≡◌, refl, ◌∙◌, subst, inl, inr, Bool, true, false, none, some, arith, Bool-cases,
}
use containernet_ndn_dpdk.Shared.Assoc.{beq_bytes, beq_bytes_iff}
use containernet_ndn_dpdk.FibDef.{EntryBody}
use containernet_ndn_dpdk.FibTree.Nodes.{
  Key, Node, Kids, node, no_kids, kid, kids, child, put_child, drop_child,
}
use containernet_ndn_dpdk.FibTree.Children.{child-put_child, child-drop_child}

abbrev pub bit : Bool → ℕ
bit true = 1
bit false = 0

-- A weight of nodes, summed over a tree: 1 counts the nodes, `is_entry` the entries.
module _ (w : EntryBody → ℕ) where
  unfoldable mutual
    pub total_weight : Node → ℕ
    total_weight (node b h ks) = w b + kids_weight ks

    pub kids_weight : Kids → ℕ
    kids_weight no_kids = 0
    kids_weight (kid k c ks) = total_weight c + kids_weight ks

  pub weight-put_child :
      (k : Key) (c c' : Node) (ks : Kids)
      → child k ks ≡ some c
      → kids_weight (put_child k c' ks) + total_weight c ≡ kids_weight ks + total_weight c'
  unfolding child put_child total_weight
  weight-put_child k c c' no_kids e = cc
  weight-put_child k c c' (kid j d ks) e = ground (arith, e, weight-put_child k c c' ks)

  pub weight-put_new :
      (k : Key) (c' : Node) (ks : Kids)
      → child k ks ≡ none
      → kids_weight (put_child k c' ks) ≡ kids_weight ks + total_weight c'
  unfolding child put_child total_weight
  weight-put_new k c' no_kids e = ground arith
  weight-put_new k c' (kid j d ks) e = ground (arith, e, weight-put_new k c' ks)

  pub weight-drop_none :
      (k : Key) (ks : Kids) → child k ks ≡ none → kids_weight (drop_child k ks) ≡ kids_weight ks
  unfolding child drop_child total_weight
  weight-drop_none k no_kids e = refl
  weight-drop_none k (kid j d ks) e = ground (arith, e, weight-drop_none k ks)

-- No two children of a node have the same string.
unfoldable mutual
  pub IsUnique : Node → Type 0
  IsUnique (node b h ks) = AreUnique ks

  pub AreUnique : Kids → Type 0
  AreUnique no_kids = Unit {0}
  AreUnique (kid k c ks) = (child k ks ≡ none) × IsUnique c × AreUnique ks

pub IsUnique-kids : (n : Node) → IsUnique n → AreUnique (kids n)
unfolding IsUnique
IsUnique-kids (node b h ks) u = u

pub weight-drop_child :
    (w : EntryBody → ℕ) (k : Key) (c : Node) (ks : Kids)
    → AreUnique ks
    → child k ks ≡ some c
    → kids_weight w (drop_child k ks) + total_weight w c ≡ kids_weight w ks
unfolding child drop_child total_weight IsUnique
weight-drop_child w k c no_kids u e = cc
weight-drop_child w k c (kid j d ks) (free, ud, u) e = elim (Bool-cases (beq_bytes j k)) [
  | inl same ↦
      let here : child k ks ≡ none =
        subst (λ i. child i ks ≡ none) ((beq_bytes_iff j k).0 same) free in
      ground (arith, e, same, weight-drop_none w k ks here)
  | inr other ↦ ground (arith, e, other, weight-drop_child w k c ks u)
]

pub child-IsUnique :
    (k : Key) (c : Node) (ks : Kids) → AreUnique ks → child k ks ≡ some c → IsUnique c
unfolding child IsUnique
child-IsUnique k c no_kids u e = cc
child-IsUnique k c (kid j d ks) (free, ud, u) e = elim (Bool-cases (beq_bytes j k)) [
  | inl same ↦ subst IsUnique (cc (rw same at e)) ud
  | inr other ↦ child-IsUnique k c ks u (rw other at e)
]

pub put_child-AreUnique :
    (k : Key) (c : Node) (ks : Kids) → AreUnique ks → IsUnique c → AreUnique (put_child k c ks)
unfolding put_child child IsUnique
put_child-AreUnique k c no_kids u uc = (refl, uc, tt)
put_child-AreUnique k c (kid j d ks) (free, ud, u) uc = elim (Bool-cases (beq_bytes j k)) [
  | inl same ↦ rw (same, put_child) (free, uc, u)
  | inr other ↦
      rw (other, put_child)
        (
          child-put_child k j c ks
              ∙ ground (arith, beq_bytes_iff k j, beq_bytes_iff j k, free, other),
          ud,
          put_child-AreUnique k c ks u uc,
        )
]

pub drop_child-AreUnique : (k : Key) (ks : Kids) → AreUnique ks → AreUnique (drop_child k ks)
unfolding drop_child child IsUnique
drop_child-AreUnique k no_kids u = tt
drop_child-AreUnique k (kid j d ks) (free, ud, u) = elim (Bool-cases (beq_bytes j k)) [
  | inl same ↦ rw (same, drop_child) (drop_child-AreUnique k ks u)
  | inr other ↦
      rw (other, drop_child)
        (child-drop_child k j ks ∙ ground (arith, free), ud, drop_child-AreUnique k ks u)
]
