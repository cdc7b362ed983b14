-- ===== src/FibTree/Erase.antt =====
-- container/fib/fibtree/tree.go: Erase, and Revert of Insert and of Erase, in terms of Find.
use containernet_ndn_dpdk.Shared.{
  ℕ, ◌≡◌, refl, ◌∙◌, subst, inl, inr, Bool, true, false, none, some, [], arith, if◌then◌else◌,
  Bool-cases, Option-cases,
}
use containernet_ndn_dpdk.Name.{Name, equal}
use containernet_ndn_dpdk.Name.Order.{equal_iff}
use containernet_ndn_dpdk.Name.Codec.{IsName}
use containernet_ndn_dpdk.FibTree.Nodes.{
  KeyPath, path_of, Node, body, empty_body, is_entry, find_node, set_at,
}
use containernet_ndn_dpdk.FibTree.Children.{view, beq_path}
use containernet_ndn_dpdk.FibTree.View.{view-set_at, view-prune}
use containernet_ndn_dpdk.FibTree.Paths.{beq_path-path_of}
use containernet_ndn_dpdk.FibTree.Entries.{find-view, the_node_view}
use containernet_ndn_dpdk.FibTree.{Tree, erase, erase_node, find, prune_unless}

view-prune_unless :
    (at_start : Bool) (start : ℕ) (path q : KeyPath) (n : Node)
    → view q (prune_unless at_start start path n).root ≡ view q n
view-prune_unless true start path q n = refl
view-prune_unless false start path q n = view-prune start [] path q n

view-erase_node :
    (t : Tree) (name : Name) (n : Node) (q : KeyPath)
    → find_node (path_of name) t.root ≡ some n
    → view q (erase_node t name n).0.root
      ≡ (if beq_path (path_of name) q then none else view q t.root)
unfolding erase_node
view-erase_node t name n q there =
    view-prune_unless _ t.start_depth (path_of name) q (set_at empty_body (path_of name) t.root)
    ∙ view-set_at empty_body (path_of name) q t.root (n, there)

-- The view of the path of a name, from the node found there.
pub find_at :
    (t : Tree) (name : Name) (n : Node)
    → find_node (path_of name) t.root ≡ some n
    → find t name ≡ (if is_entry n then some (record { body = body n; name = name }) else none)
find_at t name n e = find-view t name ∙ rw (the_node_view (path_of name) t.root n e) (ground arith)

find_nothing :
    (t : Tree) (name : Name) → find_node (path_of name) t.root ≡ none → find t name ≡ none
unfolding find
find_nothing t name e = rw e

same_find :
    (t : Tree) (name q : Name)
    → find t name ≡ none
    → find t q ≡ (if equal name q then none else find t q)
same_find t name q e = elim (Bool-cases (equal name q)) [
  | inl same ↦ rw same (subst (λ m. find t m ≡ none) ((equal_iff name q).0 same) e)
  | inr differ ↦ rw differ
]

-- After Erase, Find returns nothing under the name, and under each other name what it returned before;
-- the names are of valid components.
pub find-erase :
    (t : Tree) (name q : Name)
    → IsName name
    → IsName q
    → find (erase t name).0 q ≡ (if equal name q then none else find t q)
unfolding erase
find-erase t name q hn hq = elim (Option-cases (find_node (path_of name) t.root)) [
  | inl e ↦ rw (e, erase) (same_find t name q (find_nothing t name e))
  | inr (n, e) ↦ elim (Bool-cases (is_entry n)) [
    | inl held ↦
        rw (e, held, erase)
          (find-view (erase_node t name n).0 q
            ∙ rw
                (
                  view-erase_node t name n (path_of q) e,
                  beq_path-path_of name q hn hq,
                  find-view t q,
                )
                (ground arith))
    | inr empty ↦ rw (e, empty, erase) (same_find t name q (find_at t name n e ∙ rw empty))
  ]
]
