-- ===== src/FibTree/Weights.antt =====
-- container/fib/fibtree: the numbers of nodes and entries, and the uniqueness of children, over the walks.
use containernet_ndn_dpdk.Shared.{
  ℕ, ◌+◌, ◌≡◌, refl, subst, inl, inr, Bool, true, false, ◌&&◌, not, none, some, [], ◌∷◌, ◌++◌,
  arith, if◌then◌else◌, Bool-cases, Option-cases,
}
use containernet_ndn_dpdk.FibDef.{EntryBody}
use containernet_ndn_dpdk.FibTree.Nodes.{
  Key, KeyPath, Node, node, no_kids, kid, body, kids, new_node, child, add_child, remove_child,
  update_height, is_entry, has_nexthops, find_node, empty_body, seek_insert, set_at, raise, prune,
  pruned, Pruned, no_children,
}
use containernet_ndn_dpdk.FibTree.View.{IsThere-cons}
use containernet_ndn_dpdk.FibTree.Counts.{
  bit, total_weight, kids_weight, weight-put_child, weight-put_new, weight-drop_child, IsUnique,
  IsUnique-kids, child-IsUnique, put_child-AreUnique, drop_child-AreUnique,
}

-- A node with one child changed.
add_child-IsUnique : (k : Key) (c n : Node) → IsUnique n → IsUnique c → IsUnique (add_child k c n)
unfolding IsUnique
add_child-IsUnique k c (node b h ks) u uc = put_child-AreUnique k c ks u uc

update-IsUnique : (n : Node) → IsUnique n → IsUnique (update_height n)
unfolding IsUnique
update-IsUnique (node b h ks) u = u

remove-IsUnique : (k : Key) (n : Node) → IsUnique n → IsUnique (remove_child k n)
unfolding IsUnique
remove-IsUnique k (node b h ks) u = drop_child-AreUnique k ks u

new-IsUnique : IsUnique new_node
unfolding IsUnique
new-IsUnique = tt

pub seek_insert-IsUnique :
    (path : KeyPath) (n : Node) → IsUnique n → IsUnique (seek_insert path n).0
unfolding seek_insert
seek_insert-IsUnique [] n u = u
seek_insert-IsUnique (k ∷ path) n u = elim (Option-cases (child k (kids n))) [
  | inl e ↦
      rw (seek_insert, e)
        (add_child-IsUnique k (seek_insert path new_node).0 n u
          (seek_insert-IsUnique path new_node new-IsUnique))
  | inr (c, e) ↦
      rw (seek_insert, e)
        (add_child-IsUnique k (seek_insert path c).0 n u
          (seek_insert-IsUnique path c (child-IsUnique k c (kids n) (IsUnique-kids n u) e)))
]

pub set_at-IsUnique :
    (b : EntryBody) (path : KeyPath) (n : Node) → IsUnique n → IsUnique (set_at b path n)
unfolding set_at IsUnique
set_at-IsUnique b [] (node b' h ks) u = u
set_at-IsUnique b (k ∷ path) n u = elim (Option-cases (child k (kids n))) [
  | inl e ↦ rw (set_at, e) u
  | inr (c, e) ↦
      rw (set_at, e)
        (add_child-IsUnique k (set_at b path c) n u
          (set_at-IsUnique b path c (child-IsUnique k c (kids n) (IsUnique-kids n u) e)))
]

pub raise-IsUnique :
    (start : ℕ) (above path : KeyPath) (n : Node)
    → IsUnique n
    → IsUnique (raise start above path n).0
unfolding raise
raise-IsUnique start above [] n u = u
raise-IsUnique start above (k ∷ path) n u = elim (Option-cases (child k (kids n))) [
  | inl e ↦ rw (raise, e) u
  | inr (c, e) ↦
      let c' = (raise start (above ++ (k ∷ [])) path c).0 in
      rw (raise, e)
        (update-IsUnique (add_child k c' n) (
          add_child-IsUnique k c' n u (
            raise-IsUnique start (above ++ (k ∷ [])) path c
              (child-IsUnique k c (kids n) (IsUnique-kids n u) e))))
]

pruned-IsUnique :
    (start : ℕ) (above : KeyPath) (k : Key) (n : Node) (r : Pruned)
    → IsUnique n
    → IsUnique r.root
    → IsUnique (pruned start above k n r).root
pruned-IsUnique start above k n r u ur =
    elim (Bool-cases (r.going && not (is_entry r.root) && no_children (kids r.root))) [
      | inl gone ↦ rw gone (update-IsUnique (remove_child k n) (remove-IsUnique k n u))
      | inr stay ↦ rw stay (add_child-IsUnique k r.root n u ur)
    ]

pub prune-IsUnique :
    (start : ℕ) (above path : KeyPath) (n : Node)
    → IsUnique n
    → IsUnique (prune start above path n).root
unfolding prune
prune-IsUnique start above [] n u = u
prune-IsUnique start above (k ∷ path) n u = elim (Option-cases (child k (kids n))) [
  | inl e ↦ rw (prune, e) u
  | inr (c, e) ↦
      rw (prune, e)
        (pruned-IsUnique start above k n (prune start (above ++ (k ∷ [])) path c) u (
          prune-IsUnique start (above ++ (k ∷ [])) path c
            (child-IsUnique k c (kids n) (IsUnique-kids n u) e)))
]

-- A weight by which a body without nexthops counts `bit z`.
module _ (w : EntryBody → ℕ) (z : Bool)
    (bare : (b : EntryBody) → has_nexthops b.nexthops ≡ false → w b ≡ bit z) where
  abbrev gain : ℕ → ℕ
  gain m = if z then m else 0

  weight-add_child :
      (k : Key) (c c' n : Node)
      → child k (kids n) ≡ some c
      → total_weight w (add_child k c' n) + total_weight w c ≡ total_weight w n + total_weight w c'
  unfolding total_weight
  weight-add_child k c c' (node b h ks) e = omega (arith, weight-put_child w k c c' ks e)

  weight-add_new :
      (k : Key) (c' n : Node)
      → child k (kids n) ≡ none
      → total_weight w (add_child k c' n) ≡ total_weight w n + total_weight w c'
  unfolding total_weight
  weight-add_new k c' (node b h ks) e = omega (arith, weight-put_new w k c' ks e)

  weight-new_node : total_weight w new_node ≡ bit z
  unfolding total_weight
  weight-new_node = omega (arith, bare empty_body refl)

  pub weight-seek_insert :
      (path : KeyPath) (n : Node)
      → total_weight w (seek_insert path n).0 ≡ total_weight w n + gain (seek_insert path n).1
  unfolding seek_insert
  weight-seek_insert [] n = ground arith
  weight-seek_insert (k ∷ path) n = elim (Option-cases (child k (kids n))) [
    | inl e ↦
        rw (seek_insert, e)
          (ground (
            arith,
            weight-add_new k (seek_insert path new_node).0 n e,
            weight-seek_insert path new_node,
            weight-new_node,
          ))
    | inr (c, e) ↦
        rw (seek_insert, e)
          (ground
            (arith, weight-add_child k c (seek_insert path c).0 n e, weight-seek_insert path c))
  ]

  pub weight-set_at :
      (b : EntryBody) (path : KeyPath) (n m : Node)
      → find_node path n ≡ some m
      → total_weight w (set_at b path n) + w (body m) ≡ total_weight w n + w b
  unfolding set_at find_node total_weight
  weight-set_at b [] (node b' h ks) m e =
      subst (λ (x : Node). (w b + kids_weight w ks) + w (body x) ≡ (w b' + kids_weight w ks) + w b)
        (some_inj e) (omega arith)
    where
      some_inj : {x y : Node} → some x ≡ some y → x ≡ y
      some_inj p = cc
  weight-set_at b (k ∷ path) n m e =
      let (c, f, _) = IsThere-cons k path n (m, e) in
      rw (set_at, f)
        (omega (
          arith,
          weight-add_child k c (set_at b path c) n f,
          weight-set_at b path c m (rw (find_node, f) at e),
        ))

  weight-update_height : (n : Node) → total_weight w (update_height n) ≡ total_weight w n
  unfolding total_weight
  weight-update_height (node b h ks) = refl

  pub weight-raise :
      (start : ℕ) (above path : KeyPath) (n : Node)
      → total_weight w (raise start above path n).0 ≡ total_weight w n
  unfolding raise
  weight-raise start above [] n = refl
  weight-raise start above (k ∷ path) n = elim (Option-cases (child k (kids n))) [
    | inl e ↦ rw (raise, e)
    | inr (c, e) ↦
        let c' = (raise start (above ++ (k ∷ [])) path c).0 in
        rw (raise, e)
          (omega (
            arith,
            weight-update_height (add_child k c' n),
            weight-add_child k c c' n e,
            weight-raise start (above ++ (k ∷ [])) path c,
          ))
  ]

  weight-remove_child :
      (k : Key) (c n : Node)
      → IsUnique n
      → child k (kids n) ≡ some c
      → total_weight w (remove_child k n) + total_weight w c ≡ total_weight w n
  unfolding total_weight IsUnique
  weight-remove_child k c (node b h ks) u e = omega (arith, weight-drop_child w k c ks u e)

  weight_bare :
      (n : Node) → is_entry n ≡ false → no_children (kids n) ≡ true → total_weight w n ≡ bit z
  unfolding total_weight
  weight_bare (node b h no_kids) p q = omega (arith, bare b p)
  weight_bare (node b h (kid k c ks)) p q = cc

  weight-pruned :
      (start : ℕ) (above : KeyPath) (k : Key) (n c : Node) (r : Pruned)
      → IsUnique n
      → child k (kids n) ≡ some c
      → total_weight w r.root + gain r.removed ≡ total_weight w c
      → total_weight w (pruned start above k n r).root + gain (pruned start above k n r).removed
        ≡ total_weight w n
  weight-pruned start above k n c r u e ih =
      elim (Bool-cases (r.going && not (is_entry r.root) && no_children (kids r.root))) [
        | inl gone ↦
            let lone = weight_bare r.root (ground (arith, gone)) (ground (arith, gone)) in
            rw gone (
              ground (
                arith,
                ih,
                lone,
                weight-update_height (remove_child k n),
                weight-remove_child k c n u e,
              ))
        | inr stay ↦ rw stay (ground (arith, ih, weight-add_child k c r.root n e))
      ]

  pub weight-prune :
      (start : ℕ) (above path : KeyPath) (n : Node)
      → IsUnique n
      → total_weight w (prune start above path n).root + gain (prune start above path n).removed
        ≡ total_weight w n
  unfolding prune
  weight-prune start above [] n u = ground arith
  weight-prune start above (k ∷ path) n u = elim (Option-cases (child k (kids n))) [
    | inl e ↦ rw (prune, e) (ground arith)
    | inr (c, e) ↦
        rw (prune, e)
          (weight-pruned start above k n c (prune start (above ++ (k ∷ [])) path c) u e (
            weight-prune start (above ++ (k ∷ [])) path c
              (child-IsUnique k c (kids n) (IsUnique-kids n u) e)))
  ]
