-- ===== src/FibTree/Nodes.antt =====
-- container/fib/fibtree/node.go and the walks of tree.go: a node holds its children, which the code finds
-- through pointers; the walk from a node up to the root is the way back along the path that led down to
-- it. A child is found by the string of its component.
use containernet_ndn_dpdk.Shared.{
  ℕ, suc, ◌+◌, max, Bool, true, false, ◌&&◌, not, Option, none, some, List, [], ◌∷◌, ◌++◌, map,
  ◌==◌, if◌then◌else◌, length, ok, err, panic,
}
use containernet_ndn_dpdk.Shared.Assoc.{beq_bytes}
use containernet_ndn_dpdk.Tlv.Encode.{one, encode_all, join}
use containernet_ndn_dpdk.Name.{Name, unmarshal_binary}
use containernet_ndn_dpdk.Name.Component
use containernet_ndn_dpdk.Name.Component.{NameComponent}
use containernet_ndn_dpdk.FibDef.{
  EntryBody, UpdateAction, act_insert, act_replace, act_erase, VirtUpdate,
}

abbrev pub Key : Type 0
Key = List ℕ

abbrev pub KeyPath : Type 0
KeyPath = List Key

-- componentToString; the string of an error is empty.
unfoldable pub component_to_string : NameComponent → Key
component_to_string comp = elim (encode_all (one (Component.field comp))) [
  | ok v ↦ v
  | err e ↦ []
  | panic ↦ []
]

abbrev pub path_of : Name → KeyPath
path_of name = map component_to_string name

-- node, with its EntryBody, height and children.
mutual
  pub data Node : Type 0 where
    node : EntryBody → ℕ → Kids → Node

  pub data Kids : Type 0 where
    no_kids : Kids
    kid : Key → Node → Kids → Kids

abbrev pub body : Node → EntryBody
body (node b h ks) = b

abbrev pub height : Node → ℕ
height (node b h ks) = h

abbrev pub kids : Node → Kids
kids (node b h ks) = ks

abbrev pub empty_body : EntryBody
empty_body = record { nexthops = []; strategy = 0 }

-- newNode
abbrev pub new_node : Node
new_node = node empty_body 0 no_kids

-- n.children[comp]
unfoldable pub child : Key → Kids → Option Node
child k no_kids = none
child k (kid j c ks) = if beq_bytes j k then some c else child k ks

-- `n.children[comp] = child` of addChild, and the same place after a change inside the child.
unfoldable pub put_child : Key → Node → Kids → Kids
put_child k n no_kids = kid k n no_kids
put_child k n (kid j c ks) = if beq_bytes j k then kid j n ks else kid j c (put_child k n ks)

-- `delete(n.children, child.comp)` of removeChild.
unfoldable pub drop_child : Key → Kids → Kids
drop_child k no_kids = no_kids
drop_child k (kid j c ks) =
    let rest = drop_child k ks in if beq_bytes j k then rest else kid j c rest

abbrev pub add_child : Key → Node → Node → Node
add_child k c (node b h ks) = node b h (put_child k c ks)

abbrev pub remove_child : Key → Node → Node
remove_child k (node b h ks) = node b h (drop_child k ks)

abbrev pub no_children : Kids → Bool
no_children no_kids = true
no_children (kid k c ks) = false

-- updateHeight: the largest height of a child, from -1 on, plus 1.
unfoldable pub kids_height : Kids → ℕ
kids_height no_kids = 0
kids_height (kid k c ks) = max (suc (height c)) (kids_height ks)

abbrev pub update_height : Node → Node
update_height (node b h ks) = node b (kids_height ks) ks

abbrev pub has_nexthops : List ℕ → Bool
has_nexthops [] = false
has_nexthops (x ∷ xs) = true

-- isEntry
abbrev pub is_entry : Node → Bool
is_entry n = has_nexthops (body n).nexthops

-- name: the components from the root on, decoded.
pub node_name : KeyPath → Name
node_name path = elim (unmarshal_binary (join path)) [ ok name ↦ name | err e ↦ [] | panic ↦ [] ]

-- seek without canInsert.
unfoldable pub find_node : KeyPath → Node → Option Node
find_node [] n = some n
find_node (k ∷ path) n = elim (child k (kids n)) [ none ↦ none | some c ↦ find_node path c ]

abbrev pub grown : Key → Node → ℕ → Node × ℕ → Node × ℕ
grown k n created (c, m) = (add_child k c n, created + m)

-- seek with canInsert: the tree with the missing nodes, and how many these were.
unfoldable pub seek_insert : KeyPath → Node → Node × ℕ
seek_insert [] n = (n, 0)
seek_insert (k ∷ path) n = elim (child k (kids n)) [
  | none ↦ grown k n 1 (seek_insert path new_node)
  | some c ↦ grown k n 0 (seek_insert path c)
]

abbrev pub set_body : EntryBody → Node → Node
set_body b (node b' h ks) = node b h ks

-- `n.EntryBody = b` at the node of the path.
unfoldable pub set_at : EntryBody → KeyPath → Node → Node
set_at b [] n = set_body b n
set_at b (k ∷ path) n = elim (child k (kids n)) [
  | none ↦ n
  | some c ↦ add_child k (set_at b path c) n
]

-- The update of a virtual entry, where the loop comes to the start depth and the height has changed.
abbrev pub virt_change :
    Bool → KeyPath → UpdateAction → Node → ℕ → Option VirtUpdate → Option VirtUpdate
virt_change at_start above action p old inner =
    if at_start && not (old == height p)
    then some (record {
      name = node_name above;
      action = action;
      has_real = is_entry p;
      virt_height = height p;
    })
    else inner

-- One round of the loop of Insert over the ancestors, with the child that the rounds before made.
abbrev pub raised : ℕ → KeyPath → Key → Node → Node × Option VirtUpdate → Node × Option VirtUpdate
raised start above k n (c, virt) =
    let p = update_height (add_child k c n) in
    (
      p,
      virt_change (length above == start) above (if height n == 0 then act_insert else act_replace)
          p (height n) virt,
    )

-- The loop of Insert that updates the heights of the ancestors; `above` is the path to the node.
unfoldable pub raise : ℕ → KeyPath → KeyPath → Node → Node × Option VirtUpdate
raise start above [] n = (n, none)
raise start above (k ∷ path) n = elim (child k (kids n)) [
  | none ↦ (n, none)
  | some c ↦ raised start above k n (raise start (above ++ (k ∷ [])) path c)
]

-- What the loop of Erase has done below a node: the node, how many were removed, the update, and
-- whether the loop goes on.
pub record Pruned : Type 0 where
  pub root : Node
  pub removed : ℕ
  pub virt : Option VirtUpdate
  pub going : Bool

-- One round of that loop, whose test is that the child is no entry and has no children.
abbrev pub pruned : ℕ → KeyPath → Key → Node → Pruned → Pruned
pruned start above k n r =
    let p = update_height (remove_child k n) in
    if r.going && not (is_entry r.root) && no_children (kids r.root)
    then record {
      root = p;
      removed = suc r.removed;
      virt =
          virt_change (length above == start) above
            (if height p == 0 then act_erase else act_replace) p (height n) r.virt;
      going = true;
    }
    else record r { root = add_child k r.root n; going = false }

unfoldable pub prune : ℕ → KeyPath → KeyPath → Node → Pruned
prune start above [] n = record { root = n; removed = 0; virt = none; going = true }
prune start above (k ∷ path) n = elim (child k (kids n)) [
  | none ↦ record { root = n; removed = 0; virt = none; going = false }
  | some c ↦ pruned start above k n (prune start (above ++ (k ∷ [])) path c)
]
