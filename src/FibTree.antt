-- ===== src/FibTree.antt =====
-- container/fib/fibtree/tree.go: the tree of FIB entries by name, with the updates that Insert and Erase
-- return.
pub mod Nodes
pub mod Children
pub mod View
pub mod Paths
pub mod Entries
pub mod Erase
pub mod Revert
pub mod Counts
pub mod Weights
pub mod Sizes
pub mod Heights
pub mod HeightBounds
use containernet_ndn_dpdk.Shared.{
  ℕ, suc, ◌+◌, ◌-◌, Bool, true, false, ◌&&◌, not, Option, none, some, List, [], ◌∷◌, ◌++◌, ltb,
  ◌==◌, if◌then◌else◌, length, Result, ok, panic, ◌>>=◌,
}
use containernet_ndn_dpdk.Name.{Name}
use containernet_ndn_dpdk.FibDef.{
  EntryBody, Entry, equals, validate, UpdateAction, act_insert, act_replace, act_erase, VirtUpdate,
  RealUpdate,
}
use Nodes.{
  KeyPath, path_of, Node, Kids, node, no_kids, kid, body, height, empty_body, new_node, is_entry,
  node_name, find_node, seek_insert, set_at, raise, prune, Pruned,
}

-- What Revert calls.
pub data Undo : Type 0 where
  undo_insert : Entry → Undo
  undo_erase : Name → Undo

pub record Update : Type 0 where
  pub real : Option RealUpdate
  pub virt : Option VirtUpdate
  pub revert : Option Undo

abbrev pub no_update : Update
no_update = record { real = none; virt = none; revert = none }

-- appendListTo
abbrev pub own_entry : KeyPath → Node → List Entry
own_entry above n = if is_entry n then record { body = body n; name = node_name above } ∷ [] else []

unfoldable mutual
  pub list_node : KeyPath → Node → List Entry
  list_node above (node b h ks) = own_entry above (node b h ks) ++ list_kids above ks

  pub list_kids : KeyPath → Kids → List Entry
  list_kids above no_kids = []
  list_kids above (kid k c ks) = list_node (above ++ (k ∷ [])) c ++ list_kids above ks

pub record Tree : Type 0 where
  pub root : Node
  pub start_depth : ℕ
  pub n_nodes : ℕ
  pub n_entries : ℕ

-- New
pub new_tree : ℕ → Tree
new_tree start = record { root = new_node; start_depth = start; n_nodes = 1; n_entries = 0 }

-- List
pub list : Tree → List Entry
list t = list_node [] t.root

-- Find
abbrev pub entry_of : Name → Option Node → Option Entry
entry_of name none = none
entry_of name (some n) = if is_entry n then some (record { body = body n; name = name }) else none

unfoldable pub find : Tree → Name → Option Entry
find t name = entry_of name (find_node (path_of name) t.root)

-- The node that seek has made or found.
abbrev pub the_node : Option Node → Node
the_node (some n) = n
the_node none = new_node

abbrev pub real_update : Name → UpdateAction → EntryBody → Option VirtUpdate → Option RealUpdate
real_update name action b virt =
    some (record { name = name; action = action; entry_body = b; with_virt = virt })

abbrev pub virt_replace : Name → Bool → ℕ → Option VirtUpdate
virt_replace name has_real h =
    some (record { name = name; action = act_replace; has_real = has_real; virt_height = h })

-- The heights of the ancestors are updated if the node is new.
abbrev pub raise_new : Bool → ℕ → KeyPath → Node → Node × Option VirtUpdate
raise_new is_new start path n = if is_new then raise start [] path n else (n, none)

-- Insert behind Validate, with the tree and the node `n` that seek returned.
pub insert_node : Tree → Entry → Node → ℕ → Node → Tree × Update
insert_node t entry root created n =
    let path = path_of entry.name in
    let replaced = is_entry n in
    let at_start = length entry.name == t.start_depth && ltb 0 (height n) in
    let action = if replaced then act_replace else act_insert in
    let revert =
      if replaced
      then undo_insert (record { body = body n; name = entry.name })
      else undo_erase entry.name in
    let (root', virt) =
      raise_new (not at_start && ltb 0 created) t.start_depth path (set_at entry.body path root) in
    if equals (body n) entry.body
    then (record t { root = root; n_nodes = t.n_nodes + created }, no_update)
    else (
      record t {
        root = root';
        n_nodes = t.n_nodes + created;
        n_entries = if replaced then t.n_entries else suc t.n_entries;
      },
      record {
        real =
            real_update entry.name action entry.body
              (if at_start then virt_replace entry.name true (height n) else none);
        virt = virt;
        revert = some revert;
      },
    )

-- Insert; an invalid entry is a panic.
unfoldable pub insert : Tree → Entry → Result (Tree × Update)
insert t entry = elim (validate entry) [
  | some e ↦ panic
  | none ↦
      let path = path_of entry.name in
      let (root, created) = seek_insert path t.root in
      ok (insert_node t entry root created (the_node (find_node path root)))
]

-- The loop of Erase over the ancestors, unless the function has returned before it.
abbrev pub prune_unless : Bool → ℕ → KeyPath → Node → Pruned
prune_unless at_start start path n =
    if at_start
    then record { root = n; removed = 0; virt = none; going = false }
    else prune start [] path n

-- Erase, on the node of an entry.
pub erase_node : Tree → Name → Node → Tree × Update
erase_node t name n =
    let path = path_of name in
    let at_start = length name == t.start_depth && ltb 0 (height n) in
    let r = prune_unless at_start t.start_depth path (set_at empty_body path t.root) in
    (
      record t { root = r.root; n_nodes = t.n_nodes - r.removed; n_entries = t.n_entries - 1 },
      record {
        real =
            real_update name act_erase empty_body
              (if at_start then virt_replace name false (height n) else none);
        virt = r.virt;
        revert = some (undo_insert (record { body = body n; name = name }));
      },
    )

-- Erase
abbrev pub erase_found : Tree → Name → Option Node → Tree × Update
erase_found t name none = (t, no_update)
erase_found t name (some n) = if is_entry n then erase_node t name n else (t, no_update)

pub erase : Tree → Name → Tree × Update
erase t name = erase_found t name (find_node (path_of name) t.root)

-- Revert
abbrev pub undo : Tree → Option Undo → Result (Tree × Update)
undo t none = ok (t, no_update)
undo t (some (undo_insert entry)) = insert t entry
undo t (some (undo_erase name)) = ok (erase t name)

pub revert_update : Tree → Update → Result (Tree × Update)
revert_update t u = undo t u.revert
