-- ===== src/FibTree/Entries.antt =====
-- container/fib/fibtree/tree.go: the entries before and after Insert, Erase and Revert.
use containernet_ndn_dpdk.Shared.{
  ℕ, ◌≤◌, ◌≡◌, refl, sym, ap, ◌∙◌, subst, inl, inr, Bool, true, false, none, some, List, [], ◌∷◌,
  arith, if◌then◌else◌, Bool-cases, Option-cases, length, ok,
}
use containernet_ndn_dpdk.Name.{Name, equal}
use containernet_ndn_dpdk.Name.Codec.{IsName}
use containernet_ndn_dpdk.FibTree.Paths.{beq_path-path_of}
use containernet_ndn_dpdk.FibDef.{EntryBody, Entry, equals, validate}
use containernet_ndn_dpdk.FibDef.Laws.{equals_iff, validate_iff}
use containernet_ndn_dpdk.FibTree.Nodes.{
  KeyPath, path_of, Node, body, find_node, seek_insert, set_at,
}
use containernet_ndn_dpdk.FibTree.Children.{view, body_of, beq_path, beq_path_iff}
use containernet_ndn_dpdk.FibTree.View.{
  view-seek_insert, seek_insert-IsThere, view-set_at, view-raise, as_entry,
}
use containernet_ndn_dpdk.FibTree.{Tree, Update, insert, insert_node, find, the_node, raise_new}

-- What Find returns is the view of the path, under the name that was asked for.
pub find-view :
    (t : Tree) (name : Name)
    → find t name ≡ elim (view (path_of name) t.root) [
      | none ↦ none
      | some b ↦ some (record { body = b; name = name })
    ]
unfolding find view
find-view t name = elim (Option-cases (find_node (path_of name) t.root)) [
  | inl e ↦ rw e
  | inr (n, e) ↦ rw e (ground arith)
]

view-raise_new :
    (new : Bool) (start : ℕ) (path q : KeyPath) (n : Node)
    → view q (raise_new new start path n).0 ≡ view q n
view-raise_new true start path q n = view-raise start [] path q n
view-raise_new false start path q n = refl

pub as_entry-some : (b : EntryBody) → 1 ≤ length b.nexthops → as_entry b ≡ some b
as_entry-some b h = count b.nexthops refl h
  where
    count : (xs : List ℕ) → b.nexthops ≡ xs → 1 ≤ length b.nexthops → as_entry b ≡ some b
    count [] e h = absurd (omega (arith, ap length e))
    count (x ∷ xs) e h = rw e (ap some (ground (arith, e)))

pub the_node_view :
    (path : KeyPath) (n m : Node) → find_node path n ≡ some m → view path n ≡ body_of m
unfolding view
the_node_view path n m e = rw e

view-insert_node :
    (t : Tree) (entry : Entry) (n : Node) (created : ℕ) (root : Node) (q : KeyPath)
    → ((q' : KeyPath) → view q' root ≡ view q' t.root)
    → find_node (path_of entry.name) root ≡ some n
    → 1 ≤ length entry.body.nexthops
    → view q (insert_node t entry root created n).0.root
      ≡ (if beq_path (path_of entry.name) q then some entry.body else view q t.root)
unfolding insert_node
view-insert_node t entry n created root q same there hops =
    let path = path_of entry.name in
    elim (Bool-cases (equals (body n) entry.body)) [
      | inl old ↦ rw old (same q ∙ kept path q ((equals_iff (body n) entry.body).0 old) there)
      | inr new ↦ rw new (
          view-raise_new _ t.start_depth path q (set_at entry.body path root)
          ∙ view-set_at entry.body path q root (n, there)
          ∙ rw (as_entry-some entry.body hops, same q))
    ]
  where
    kept :
        (path q : KeyPath)
        → body n ≡ entry.body
        → find_node path root ≡ some n
        → view q t.root ≡ (if beq_path path q then some entry.body else view q t.root)
    kept path q b f = elim (Bool-cases (beq_path path q)) [
      | inl at ↦ rw at (
          subst (λ r. view r t.root ≡ some entry.body) ((beq_path_iff path q).0 at)
            (sym (same path)
              ∙ the_node_view path root n f
              ∙ subst (λ b'. as_entry b' ≡ some b') (sym b) (as_entry-some entry.body hops)
              ∙ ap some b))
      | inr off ↦ rw off
    ]

-- Insert behind Validate, in terms of Find.
pub find-insert_node :
    (t : Tree) (entry : Entry) (name : Name)
    → validate entry ≡ none
    → IsName entry.name
    → IsName name
    → (let (root, created) = seek_insert (path_of entry.name) t.root in
        find
          (insert_node t entry root created (the_node (find_node (path_of entry.name) root))).0
          name)
      ≡ (if equal entry.name name
          then some (record { body = entry.body; name = name })
          else find t name)
find-insert_node t entry name valid he hn =
    let path = path_of entry.name in
    let root = (seek_insert path t.root).0 in
    let (n, there) = seek_insert-IsThere path t.root in
    let (_, hops, _, _) = (validate_iff entry).0 valid in
    let t' =
      (insert_node t entry root (seek_insert path t.root).1 (the_node (find_node path root))).0 in
    let seen =
      ap (λ m. view (path_of name) (insert_node t entry root (seek_insert path t.root).1 m).0.root)
        (ap the_node there) in
    let viewed =
      seen
      ∙ view-insert_node t entry n (seek_insert path t.root).1 root (path_of name)
          (λ q'. view-seek_insert path q' t.root) there hops in
    find-view t' name
    ∙ rw (viewed, beq_path-path_of entry.name name he hn, find-view t name) (ground arith)

-- Insert of an entry that Validate accepts succeeds, and Find then returns the new entry under its name,
-- and under each other name what it returned before; the names are of valid components.
pub find-insert :
    (t : Tree) (entry : Entry) (name : Name)
    → validate entry ≡ none
    → IsName entry.name
    → IsName name
    → (t' : Tree) × (u : Update) × (insert t entry ≡ ok (t', u))
      × (find t' name ≡ (
          if equal entry.name name
          then some (record { body = entry.body; name = name })
          else find t name))
unfolding insert
find-insert t entry name valid he hn =
    let path = path_of entry.name in
    let (root, created) = seek_insert path t.root in
    let r = insert_node t entry root created (the_node (find_node path root)) in
    (r.0, r.1, rw (valid, insert), find-insert_node t entry name valid he hn)
