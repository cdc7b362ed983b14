-- ===== src/FibTree/View.antt =====
-- container/fib/fibtree: what the walks of Insert and Erase leave of the entries.
use containernet_ndn_dpdk.Shared.{
  ℕ, ◌≡◌, refl, sym, ◌∙◌, inl, inr, true, false, ◌&&◌, not, Option, none, some, [], ◌∷◌, ◌++◌,
  arith, if◌then◌else◌, Bool-cases, Option-cases,
}
use containernet_ndn_dpdk.Shared.Assoc.{beq_bytes_iff}
use containernet_ndn_dpdk.FibDef.{EntryBody}
use containernet_ndn_dpdk.FibTree.Nodes.{
  Key, KeyPath, Node, Kids, node, no_kids, kid, kids, new_node, child, put_child, add_child,
  remove_child, is_entry, find_node, seek_insert, set_at, raise, prune, pruned, Pruned, no_children,
}
use containernet_ndn_dpdk.FibTree.Children.{
  child-put_child, body_of, view, view-nil, view-cons, view-add_child, view-remove_child,
  view-update_height, view-new_node, beq_path,
}

-- A change of the child under `k` that keeps the view of the child keeps the view.
keeps_child :
    (k : Key) (c c' n : Node) (q : KeyPath)
    → child k (kids n) ≡ some c
    → ((q' : KeyPath) → view q' c' ≡ view q' c)
    → view q (add_child k c' n) ≡ view q n
keeps_child k c c' (node b h ks) [] e same =
    view-nil (add_child k c' (node b h ks)) ∙ sym (view-nil (node b h ks))
keeps_child k c c' (node b h ks) (j ∷ q) e same = ground (
  arith,
  view-add_child j k q c' (node b h ks),
  view-cons j q (node b h ks),
  beq_bytes_iff k j,
  same q,
)

-- A new child without entries keeps the view.
keeps_new :
    (k : Key) (c' n : Node) (q : KeyPath)
    → child k (kids n) ≡ none
    → ((q' : KeyPath) → view q' c' ≡ none)
    → view q (add_child k c' n) ≡ view q n
keeps_new k c' (node b h ks) [] e same =
    view-nil (add_child k c' (node b h ks)) ∙ sym (view-nil (node b h ks))
keeps_new k c' (node b h ks) (j ∷ q) e same = ground (
  arith,
  view-add_child j k q c' (node b h ks),
  view-cons j q (node b h ks),
  beq_bytes_iff k j,
  same q,
)

-- Missing nodes are made without an entry.
pub view-seek_insert : (path q : KeyPath) (n : Node) → view q (seek_insert path n).0 ≡ view q n
unfolding seek_insert
view-seek_insert [] q n = refl
view-seek_insert (k ∷ path) q n = elim (Option-cases (child k (kids n))) [
  | inl e ↦
      rw (seek_insert, e)
        (keeps_new k (seek_insert path new_node).0 n q e
          (λ q'. view-seek_insert path q' new_node ∙ view-new_node q'))
  | inr (c, e) ↦
      rw (seek_insert, e)
        (keeps_child k c (seek_insert path c).0 n q e (λ q'. view-seek_insert path q' c))
]

-- The path is there.
abbrev pub IsThere : KeyPath → Node → Type 0
IsThere path n = (m : Node) × (find_node path n ≡ some m)

pub seek_insert-IsThere : (path : KeyPath) (n : Node) → IsThere path (seek_insert path n).0
unfolding seek_insert find_node
seek_insert-IsThere [] n = (n, refl)
seek_insert-IsThere (k ∷ path) (node b h ks) = elim (Option-cases (child k ks)) [
  | inl e ↦
      let (m, f) = seek_insert-IsThere path new_node in
      (m, rw (seek_insert, e) (step k (seek_insert path new_node).0 m path b h ks f))
  | inr (c, e) ↦
      let (m, f) = seek_insert-IsThere path c in
      (m, rw (seek_insert, e) (step k (seek_insert path c).0 m path b h ks f))
]
  where
    step :
        (k : Key) (c m : Node) (path : KeyPath) (b : EntryBody) (h : ℕ) (ks : Kids)
        → find_node path c ≡ some m
        → find_node (k ∷ path) (node b h (put_child k c ks)) ≡ some m
    step k c m path b h ks f = ground (arith, f, child-put_child k k c ks, beq_bytes_iff k k)

pub IsThere-cons :
    (k : Key) (path : KeyPath) (n : Node)
    → IsThere (k ∷ path) n
    → (c : Node) × (child k (kids n) ≡ some c) × IsThere path c
unfolding find_node
IsThere-cons k path n (m, f) = elim (Option-cases (child k (kids n))) [
  | inl e ↦ cc (rw (find_node, e) at f)
  | inr (c, e) ↦ (c, e, (m, rw (find_node, e) at f))
]

-- The body of the entry of a body.
abbrev pub as_entry : EntryBody → Option EntryBody
as_entry b = body_of (node b 0 no_kids)

-- Only the view of the path itself changes with its body.
pub view-set_at :
    (b : EntryBody) (path q : KeyPath) (n : Node)
    → IsThere path n
    → view q (set_at b path n) ≡ (if beq_path path q then as_entry b else view q n)
unfolding set_at
view-set_at b [] [] (node b' h ks) there = view-nil (node b h ks)
view-set_at b [] (j ∷ q) (node b' h ks) there =
    view-cons j q (node b h ks) ∙ sym (view-cons j q (node b' h ks))
view-set_at b (k ∷ path) q n there =
    let (c, e, there') = IsThere-cons k path n there in
    rw (set_at, e) (below q n c e (λ q'. view-set_at b path q' c there'))
  where
    below :
        (q : KeyPath) (n c : Node)
        → child k (kids n) ≡ some c
        → ((q' : KeyPath)
            → view q' (set_at b path c) ≡ (if beq_path path q' then as_entry b else view q' c))
        → view q (add_child k (set_at b path c) n)
          ≡ (if beq_path (k ∷ path) q then as_entry b else view q n)
    below [] (node b' h ks) c e ih =
        view-nil (add_child k (set_at b path c) (node b' h ks)) ∙ sym (view-nil (node b' h ks))
    below (j ∷ q) (node b' h ks) c e ih = ground (
      arith,
      view-add_child j k q (set_at b path c) (node b' h ks),
      view-cons j q (node b' h ks),
      beq_bytes_iff k j,
      ih q,
    )

-- The heights are no part of the view.
pub view-raise :
    (start : ℕ) (above path q : KeyPath) (n : Node) → view q (raise start above path n).0 ≡ view q n
unfolding raise
view-raise start above [] q n = refl
view-raise start above (k ∷ path) q n = elim (Option-cases (child k (kids n))) [
  | inl e ↦ rw (raise, e)
  | inr (c, e) ↦
      let c' = (raise start (above ++ (k ∷ [])) path c).0 in
      rw (raise, e)
        (view-update_height q (add_child k c' n)
          ∙ keeps_child k c c' n q e (λ q'. view-raise start (above ++ (k ∷ [])) path q' c))
]

-- A node that is no entry and has no children holds nothing.
bare : (c : Node) (q : KeyPath) → is_entry c ≡ false → no_children (kids c) ≡ true → view q c ≡ none
bare (node b h ks) [] p e = view-nil (node b h ks) ∙ rw p
bare (node b h no_kids) (j ∷ q) p e = view-cons j q (node b h no_kids) ∙ unfold child in refl
bare (node b h (kid k c ks)) (j ∷ q) p e = cc

view-pruned :
    (start : ℕ) (above : KeyPath) (k : Key) (n c : Node) (r : Pruned) (q : KeyPath)
    → child k (kids n) ≡ some c
    → ((q' : KeyPath) → view q' r.root ≡ view q' c)
    → view q (pruned start above k n r).root ≡ view q n
view-pruned start above k n c r q e same =
    elim (Bool-cases (r.going && not (is_entry r.root) && no_children (kids r.root))) [
      | inl gone ↦
          rw gone
            (view-update_height q (remove_child k n) ∙ without q n e (ground arith) (ground arith))
      | inr stay ↦ rw stay (keeps_child k c r.root n q e same)
    ]
  where
    without :
        (q : KeyPath) (n : Node)
        → child k (kids n) ≡ some c
        → is_entry r.root ≡ false
        → no_children (kids r.root) ≡ true
        → view q (remove_child k n) ≡ view q n
    without [] (node b h ks) e p z =
        view-nil (remove_child k (node b h ks)) ∙ sym (view-nil (node b h ks))
    without (j ∷ q) (node b h ks) e p z = ground (
      arith,
      view-remove_child j k q (node b h ks),
      view-cons j q (node b h ks),
      beq_bytes_iff k j,
      same q,
      bare r.root q p z,
    )

-- Erase removes only nodes without entries.
pub view-prune :
    (start : ℕ) (above path q : KeyPath) (n : Node)
    → view q (prune start above path n).root ≡ view q n
unfolding prune
view-prune start above [] q n = refl
view-prune start above (k ∷ path) q n = elim (Option-cases (child k (kids n))) [
  | inl e ↦ rw (prune, e)
  | inr (c, e) ↦
      rw (prune, e)
        (view-pruned start above k n c (prune start (above ++ (k ∷ [])) path c) q e
          (λ q'. view-prune start (above ++ (k ∷ [])) path q' c))
]
