-- ===== src/FibTree/Sizes.antt =====
-- container/fib/fibtree/tree.go: CountNodes and CountEntries.
use containernet_ndn_dpdk.Shared.{
  ℕ, ◌+◌, ◌≤◌, ◌≡◌, refl, ap, inl, inr, Bool, true, false, ◌&&◌, not, none, some, List, [], ◌∷◌,
  arith, ltb, ◌==◌, if◌then◌else◌, Bool-cases, Option-cases, length, ok,
}
use containernet_ndn_dpdk.Name.{Name}
use containernet_ndn_dpdk.FibDef.{EntryBody, Entry, equals, validate}
use containernet_ndn_dpdk.FibDef.Laws.{validate_iff}
use containernet_ndn_dpdk.FibTree.Nodes.{
  KeyPath, path_of, Node, body, height, empty_body, is_entry, has_nexthops, find_node, seek_insert,
  set_at,
}
use containernet_ndn_dpdk.FibTree.View.{seek_insert-IsThere}
use containernet_ndn_dpdk.FibTree.Counts.{bit, total_weight, IsUnique}
use containernet_ndn_dpdk.FibTree.Weights.{
  seek_insert-IsUnique, set_at-IsUnique, raise-IsUnique, prune-IsUnique, weight-seek_insert,
  weight-set_at, weight-raise, weight-prune,
}
use containernet_ndn_dpdk.FibTree.{
  Tree, Update, insert, insert_node, erase, erase_node, the_node, raise_new, prune_unless, new_tree,
}

abbrev pub each_node : EntryBody → ℕ
each_node b = 1

abbrev pub each_entry : EntryBody → ℕ
each_entry b = bit (has_nexthops b.nexthops)

-- The counters are the numbers of nodes and of entries, and no node has two children of one string.
pub record IsWellFormed (t : Tree) : Type 0 where
  pub unique : IsUnique t.root
  pub nodes : t.n_nodes ≡ total_weight each_node t.root
  pub entries : t.n_entries ≡ total_weight each_entry t.root

entry_weight : (b : EntryBody) → has_nexthops b.nexthops ≡ false → each_entry b ≡ 0
entry_weight b h = rw h

pub new_tree-IsWellFormed : (start : ℕ) → IsWellFormed (new_tree start)
unfolding new_tree total_weight IsUnique
new_tree-IsWellFormed start = record { unique = tt; nodes = refl; entries = refl }

raise_new-IsUnique :
    (new : Bool) (start : ℕ) (path : KeyPath) (n : Node)
    → IsUnique n
    → IsUnique (raise_new new start path n).0
raise_new-IsUnique true start path n u = raise-IsUnique start [] path n u
raise_new-IsUnique false start path n u = u

weight-raise_new :
    (w : EntryBody → ℕ) (z : Bool)
    (bare : (b : EntryBody) → has_nexthops b.nexthops ≡ false → w b ≡ bit z) (new : Bool)
    (start : ℕ) (path : KeyPath) (n : Node)
    → total_weight w (raise_new new start path n).0 ≡ total_weight w n
weight-raise_new w z bare true start path n = weight-raise w z bare start [] path n
weight-raise_new w z bare false start path n = refl

has_some : (xs : List ℕ) → 1 ≤ length xs → has_nexthops xs ≡ true
has_some [] h = absurd (omega arith)
has_some (x ∷ xs) h = refl

insert_node-IsWellFormed :
    (t : Tree) (entry : Entry) (n : Node)
    → validate entry ≡ none
    → find_node (path_of entry.name) (seek_insert (path_of entry.name) t.root).0 ≡ some n
    → IsWellFormed t
    → (let (root, created) = seek_insert (path_of entry.name) t.root in
        IsWellFormed (insert_node t entry root created n).0)
unfolding insert_node
insert_node-IsWellFormed t entry n valid at h =
    let path = path_of entry.name in
    let (root, created) = seek_insert path t.root in
    let nodes = weight-seek_insert each_node true (λ b e. refl) path t.root in
    let entries = weight-seek_insert each_entry false entry_weight path t.root in
    let unique = seek_insert-IsUnique path t.root h.unique in
    elim (Bool-cases (equals (body n) entry.body)) [
      | inl old ↦ rw old (record {
        unique = unique;
        nodes = omega (arith, nodes, h.nodes);
        entries = omega (arith, entries, h.entries);
      })
      | inr new ↦
          let up = not (length entry.name == t.start_depth && ltb 0 (height n)) && ltb 0 created in
          rw new (record {
            unique =
                raise_new-IsUnique up t.start_depth path (set_at entry.body path root)
                  (set_at-IsUnique entry.body path root unique);
            nodes = omega (
              arith,
              nodes,
              h.nodes,
              weight-raise_new each_node true (λ b e. refl) up t.start_depth path
                  (set_at entry.body path root),
              weight-set_at each_node true (λ b e. refl) entry.body path root n at,
            );
            entries = ground (
              arith,
              entries,
              h.entries,
              weight-raise_new each_entry false entry_weight up t.start_depth path
                  (set_at entry.body path root),
              weight-set_at each_entry false entry_weight entry.body path root n at,
              has_some entry.body.nexthops ((validate_iff entry).0 valid).1,
            );
          })
    ]

-- In a tree whose counters are right, Insert of an entry that Validate accepts keeps them right: the
-- counters of nodes and of entries are the numbers of these in the tree.
pub insert-IsWellFormed :
    (t : Tree) (entry : Entry)
    → validate entry ≡ none
    → IsWellFormed t
    → (t' : Tree) × (u : Update) × (insert t entry ≡ ok (t', u)) × IsWellFormed t'
unfolding insert
insert-IsWellFormed t entry valid h =
    let path = path_of entry.name in
    let (root, created) = seek_insert path t.root in
    let (n, at) = seek_insert-IsThere path t.root in
    (
      (insert_node t entry root created n).0,
      (insert_node t entry root created n).1,
      rw (valid, insert) (ap (λ m. ok (insert_node t entry root created (the_node m))) at),
      insert_node-IsWellFormed t entry n valid at h,
    )

-- The loop of Erase, or the tree as it is.
prune_unless-IsUnique :
    (stop : Bool) (start : ℕ) (path : KeyPath) (n : Node)
    → IsUnique n
    → IsUnique (prune_unless stop start path n).root
prune_unless-IsUnique true start path n u = u
prune_unless-IsUnique false start path n u = prune-IsUnique start [] path n u

weight-prune_unless :
    (w : EntryBody → ℕ) (z : Bool)
    (bare : (b : EntryBody) → has_nexthops b.nexthops ≡ false → w b ≡ bit z) (stop : Bool)
    (start : ℕ) (path : KeyPath) (n : Node)
    → IsUnique n
    → total_weight w (prune_unless stop start path n).root
        + (if z then (prune_unless stop start path n).removed else 0)
      ≡ total_weight w n
weight-prune_unless w z bare true start path n u = ground arith
weight-prune_unless w z bare false start path n u = weight-prune w z bare start [] path n u

erase_node-IsWellFormed :
    (t : Tree) (name : Name) (n : Node)
    → find_node (path_of name) t.root ≡ some n
    → is_entry n ≡ true
    → IsWellFormed t
    → IsWellFormed (erase_node t name n).0
unfolding erase_node
erase_node-IsWellFormed t name n at held h =
    let path = path_of name in
    let stop = length name == t.start_depth && ltb 0 (height n) in
    let cleared = set_at empty_body path t.root in
    let unique = set_at-IsUnique empty_body path t.root h.unique in
    let nodes = weight-set_at each_node true (λ b e. refl) empty_body path t.root n at in
    let entries = weight-set_at each_entry false entry_weight empty_body path t.root n at in
    record {
      unique = prune_unless-IsUnique stop t.start_depth path cleared unique;
      nodes = omega (
        arith,
        nodes,
        h.nodes,
        weight-prune_unless each_node true (λ b e. refl) stop t.start_depth path cleared unique,
      );
      entries = omega (
        arith,
        entries,
        h.entries,
        ap bit held,
        weight-prune_unless each_entry false entry_weight stop t.start_depth path cleared unique,
      );
    }

-- In a tree whose counters are right, Erase keeps them right.
pub erase-IsWellFormed : (t : Tree) (name : Name) → IsWellFormed t → IsWellFormed (erase t name).0
unfolding erase
erase-IsWellFormed t name h = elim (Option-cases (find_node (path_of name) t.root)) [
  | inl e ↦ rw (e, erase) h
  | inr (n, e) ↦ elim (Bool-cases (is_entry n)) [
    | inl held ↦ rw (e, held, erase) (erase_node-IsWellFormed t name n e held h)
    | inr empty ↦ rw (e, empty, erase) h
  ]
]
