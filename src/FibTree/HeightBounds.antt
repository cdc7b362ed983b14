-- ===== src/FibTree/HeightBounds.antt =====
-- container/fib/fibtree/tree.go: the heights after Erase are large enough.
pub mod Updates
use containernet_ndn_dpdk.Shared.{
  ℕ, ◌≤◌, ◌≡◌, inl, inr, Bool, true, false, ◌&&◌, not, none, some, [], ◌∷◌, ◌++◌, arith, Bool-cases,
  Option-cases, ltb, ◌==◌, length,
}
use containernet_ndn_dpdk.Name.{Name}
use containernet_ndn_dpdk.FibDef.{EntryBody}
use containernet_ndn_dpdk.FibTree.Nodes.{
  Key, KeyPath, path_of, Node, node, height, kids, child, empty_body, find_node, set_at, Pruned,
  pruned, prune, no_children, is_entry, add_child,
}
use containernet_ndn_dpdk.FibTree.Heights.{
  IsHigh, child-kids_height, child-AreHigh, put_child-AreHigh, drop_child-AreHigh,
  kids_height-drop_child, kids_height-put_child,
}
use containernet_ndn_dpdk.FibTree.{Tree, erase, erase_node, prune_unless}

-- A node in the place of one that is at least as high.
abbrev Within : Node → Node → Type 0
Within n n' = IsHigh n' × (height n' ≤ height n)

put_back :
    (k : Key) (c d : Node) (n : Node)
    → child k (kids n) ≡ some c
    → IsHigh n
    → Within c d
    → Within n (add_child k d n)
unfolding IsHigh
put_back k c d (node b h ks) e (enough, hs) (hd, low) = (
  (omega (arith, enough, kids_height-put_child k ks c d e low), put_child-AreHigh k d ks hs hd),
  omega arith,
)

pub IsHigh-child : (k : Key) (n c : Node) → IsHigh n → child k (kids n) ≡ some c → IsHigh c
unfolding IsHigh
IsHigh-child k (node b h ks) c (enough, hs) e = child-AreHigh k ks c hs e

pub set_at-Within :
    (b : EntryBody) (path : KeyPath) (n : Node) → IsHigh n → Within n (set_at b path n)
unfolding set_at IsHigh
set_at-Within b [] (node b' h ks) high = (high, omega arith)
set_at-Within b (k ∷ path) n high = elim (Option-cases (child k (kids n))) [
  | inl e ↦ rw (e, set_at) (high, omega arith)
  | inr (c, e) ↦
      rw (e, set_at) (put_back k c _ n e high (set_at-Within b path c (IsHigh-child k n c high e)))
]

-- One round of the loop of Erase.
pruned-Within :
    (start : ℕ) (above : KeyPath) (k : Key) (n c : Node) (r : Pruned)
    → child k (kids n) ≡ some c
    → IsHigh n
    → Within c r.root
    → Within n (pruned start above k n r).root
unfolding IsHigh
pruned-Within start above k (node b h ks) c r e (enough, hs) inside =
    elim (Bool-cases (r.going && not (is_entry r.root) && no_children (kids r.root))) [
      | inl goes ↦ rw goes (
        (omega arith, drop_child-AreHigh k ks hs),
        omega (arith, enough, kids_height-drop_child k ks),
      )
      | inr stops ↦ rw stops (put_back k c r.root (node b h ks) e (enough, hs) inside)
    ]

prune-Within :
    (start : ℕ) (above path : KeyPath) (n : Node)
    → IsHigh n
    → Within n (prune start above path n).root
unfolding prune
prune-Within start above [] n high = (high, omega arith)
prune-Within start above (k ∷ path) n high = elim (Option-cases (child k (kids n))) [
  | inl e ↦ rw (e, prune) (high, omega arith)
  | inr (c, e) ↦
      rw (e, prune)
        (pruned-Within start above k n c (prune start (above ++ (k ∷ [])) path c) e high
          (prune-Within start (above ++ (k ∷ [])) path c (IsHigh-child k n c high e)))
]

prune_unless-Within :
    (stop : Bool) (start : ℕ) (path : KeyPath) (n : Node)
    → IsHigh n
    → Within n (prune_unless stop start path n).root
prune_unless-Within true start path n high = (high, omega arith)
prune_unless-Within false start path n high = prune-Within start [] path n high

erase_node-Within :
    (t : Tree) (name : Name) (n : Node) → IsHigh t.root → Within t.root (erase_node t name n).0.root
unfolding erase_node
erase_node-Within t name n high =
    let path = path_of name in
    let (high', low') = set_at-Within empty_body path t.root high in
    let stop = length name == t.start_depth && ltb 0 (height n) in
    let (high'', low'') =
      prune_unless-Within stop t.start_depth path (set_at empty_body path t.root) high' in
    (high'', omega (arith, low', low''))

pub erase-IsHigh :
    (t : Tree) (name : Name)
    → IsHigh t.root
    → IsHigh (erase t name).0.root × (height (erase t name).0.root ≤ height t.root)
unfolding erase
erase-IsHigh t name high = elim (Option-cases (find_node (path_of name) t.root)) [
  | inl e ↦ rw (e, erase) (high, omega arith)
  | inr (n, e) ↦ elim (Bool-cases (is_entry n)) [
    | inl held ↦ rw (e, held, erase) (erase_node-Within t name n high)
    | inr bare ↦ rw (e, bare, erase) (high, omega arith)
  ]
]

-- The heights bound the depth: no path leads further down than the height of the node where it starts.
pub length-le-height :
    (path : KeyPath) (n m : Node) → IsHigh n → find_node path n ≡ some m → length path ≤ height n
unfolding find_node IsHigh
length-le-height [] n m high e = omega arith
length-le-height (k ∷ path) (node b h ks) m (enough, hs) e = elim (Option-cases (child k ks)) [
  | inl no_child ↦ absurd (none_some (rw (no_child, find_node) at e))
  | inr (c, there) ↦
      let below : length path ≤ height c =
        length-le-height path c m (child-AreHigh k ks c hs there) (rw (there, find_node) at e) in
      omega (arith, below, enough, child-kids_height k ks c there)
]
  where
    none_some : {x : Node} → none ≡ some x → ⊥
    none_some e = cc
