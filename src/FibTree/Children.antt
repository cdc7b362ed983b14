-- ===== src/FibTree/Children.antt =====
-- container/fib/fibtree/node.go: the map of children, and the walk down to a node.
use containernet_ndn_dpdk.Shared.{
  ◌≡◌, refl, sym, ◌∙◌, ◌↔◌, inl, inr, Bool, true, false, ◌&&◌, Option, none, some, [], ◌∷◌, arith,
  if◌then◌else◌, Option-cases,
}
use containernet_ndn_dpdk.Shared.Assoc.{beq_bytes, beq_bytes_iff}
use containernet_ndn_dpdk.FibDef.{EntryBody}
use containernet_ndn_dpdk.FibTree.Nodes.{
  Key, KeyPath, Node, Kids, node, no_kids, kid, body, kids, new_node, child, put_child, drop_child,
  add_child, remove_child, update_height, is_entry, find_node,
}

pub child-put_child :
    (k j : Key) (n : Node) (ks : Kids)
    → child j (put_child k n ks) ≡ (if beq_bytes k j then some n else child j ks)
unfolding child put_child
child-put_child k j n no_kids = refl
child-put_child k j n (kid i c ks) =
    ground
      (arith, beq_bytes_iff k j, beq_bytes_iff i k, beq_bytes_iff i j, child-put_child k j n ks)

pub child-drop_child :
    (k j : Key) (ks : Kids)
    → child j (drop_child k ks) ≡ (if beq_bytes k j then none else child j ks)
unfolding child drop_child
child-drop_child k j no_kids = ground arith
child-drop_child k j (kid i c ks) =
    ground (arith, beq_bytes_iff k j, beq_bytes_iff i k, beq_bytes_iff i j, child-drop_child k j ks)

-- What the tree holds under a path: the body of an entry.
abbrev pub body_of : Node → Option EntryBody
body_of n = if is_entry n then some (body n) else none

abbrev pub entry_in : Option Node → Option EntryBody
entry_in none = none
entry_in (some n) = body_of n

unfoldable pub view : KeyPath → Node → Option EntryBody
view path n = entry_in (find_node path n)

abbrev pub beq_path : KeyPath → KeyPath → Bool
beq_path [] [] = true
beq_path [] (j ∷ q) = false
beq_path (k ∷ p) [] = false
beq_path (k ∷ p) (j ∷ q) = beq_bytes k j && beq_path p q

pub beq_path_iff : (p q : KeyPath) → (beq_path p q ≡ true) ↔ (p ≡ q)
beq_path_iff [] [] = (λ e. refl, λ e. refl)
beq_path_iff [] (j ∷ q) = (λ e. cc, λ e. cc)
beq_path_iff (k ∷ p) [] = (λ e. cc, λ e. cc)
beq_path_iff (k ∷ p) (j ∷ q) = (
  λ e. ground (arith, e, beq_bytes_iff k j, beq_path_iff p q),
  λ e. ground (arith, e, beq_bytes_iff k j, beq_path_iff p q),
)

-- The view, one step down.
pub view-nil : (n : Node) → view [] n ≡ body_of n
unfolding view find_node
view-nil n = refl

abbrev pub view_child : KeyPath → Option Node → Option EntryBody
view_child path none = none
view_child path (some c) = view path c

pub view-cons :
    (k : Key) (path : KeyPath) (n : Node) → view (k ∷ path) n ≡ view_child path (child k (kids n))
unfolding view find_node
view-cons k path n = elim (Option-cases (child k (kids n))) [
  | inl e ↦ rw (e, find_node)
  | inr (c, e) ↦ rw (e, find_node)
]

pub view-add_child :
    (j k : Key) (q : KeyPath) (c n : Node)
    → view (j ∷ q) (add_child k c n) ≡ (if beq_bytes k j then view q c else view (j ∷ q) n)
view-add_child j k q c (node b h ks) = ground (
  arith,
  view-cons j q (node b h (put_child k c ks)),
  view-cons j q (node b h ks),
  child-put_child k j c ks,
)

pub view-remove_child :
    (j k : Key) (q : KeyPath) (n : Node)
    → view (j ∷ q) (remove_child k n) ≡ (if beq_bytes k j then none else view (j ∷ q) n)
view-remove_child j k q (node b h ks) = ground (
  arith,
  view-cons j q (node b h (drop_child k ks)),
  view-cons j q (node b h ks),
  child-drop_child k j ks,
)

pub view-update_height : (q : KeyPath) (n : Node) → view q (update_height n) ≡ view q n
view-update_height [] (node b h ks) =
    ground (arith, view-nil (update_height (node b h ks)), view-nil (node b h ks))
view-update_height (j ∷ q) (node b h ks) =
    view-cons j q (update_height (node b h ks)) ∙ sym (view-cons j q (node b h ks))

pub view-new_node : (q : KeyPath) → view q new_node ≡ none
view-new_node [] = view-nil new_node
view-new_node (j ∷ q) = view-cons j q new_node ∙ unfold child in refl
