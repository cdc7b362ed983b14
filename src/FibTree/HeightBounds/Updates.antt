-- ===== src/FibTree/HeightBounds/Updates.antt =====
-- container/fib/fibtree/tree.go: the heights after Insert are large enough.
use containernet_ndn_dpdk.Shared.{
  ℕ, ◌≤◌, ◌<◌, ◌≡◌, refl, sym, ◌∙◌, ap, subst, ◌⊎◌, inl, inr, Bool, true, false, none, some, [],
  ◌∷◌, ◌++◌, arith, Bool-cases, Option-cases, ok, length,
}
use containernet_ndn_dpdk.Shared.Assoc.{beq_bytes_iff}
use containernet_ndn_dpdk.Name.{Name}
use containernet_ndn_dpdk.FibDef.{EntryBody, Entry, equals, validate}
use containernet_ndn_dpdk.FibDef.Laws.{validate_iff, equals_iff}
use containernet_ndn_dpdk.FibTree.Nodes.{
  Key, KeyPath, path_of, Node, node, height, kids, body, child, put_child, kids_height, new_node,
  empty_body, find_node, seek_insert, set_at, raise, add_child,
}
use containernet_ndn_dpdk.FibTree.View.{seek_insert-IsThere}
use containernet_ndn_dpdk.FibTree.Heights.{
  IsHigh, AreHigh, put_child-AreHigh, put_child_twice, put_child_same, child_put,
}
use containernet_ndn_dpdk.FibTree.{Tree, Update, insert, insert_node, erase, the_node, raise_new}
use containernet_ndn_dpdk.FibTree.HeightBounds.{IsHigh-child, set_at-Within, erase-IsHigh}

-- The heights off a path are large enough, and those on it are once something high ends the path.
HighOff : KeyPath → Node → Type 0
HighOff [] n = IsHigh n
HighOff (k ∷ path) (node b h ks) =
    (c : Node) × (child k ks ≡ some c)
    × HighOff path c
    × ((d : Node) → IsHigh d → AreHigh (put_child k d ks))

put-HighOff :
    (k : Key) (path : KeyPath) (c n : Node)
    → ((d : Node) → IsHigh d → AreHigh (put_child k d (kids n)))
    → HighOff path c
    → HighOff (k ∷ path) (add_child k c n)
unfolding HighOff
put-HighOff k path c (node b h ks) others off = (
  c,
  child_put k ks c,
  off,
  λ d high. subst AreHigh (sym (put_child_twice k ks c d)) (others d high),
)

others_high :
    (k : Key) (n : Node) → IsHigh n → (d : Node) → IsHigh d → AreHigh (put_child k d (kids n))
unfolding IsHigh
others_high k (node b h ks) (enough, hs) d high = put_child-AreHigh k d ks hs high

new_node-IsHigh : IsHigh new_node
unfolding IsHigh AreHigh kids_height
new_node-IsHigh = (omega arith, tt)

seek_insert-HighOff : (path : KeyPath) (n : Node) → IsHigh n → HighOff path (seek_insert path n).0
unfolding seek_insert HighOff
seek_insert-HighOff [] n high = high
seek_insert-HighOff (k ∷ path) n high = elim (Option-cases (child k (kids n))) [
  | inl e ↦
      rw (e, seek_insert)
        (put-HighOff k path _ n (others_high k n high)
          (seek_insert-HighOff path new_node new_node-IsHigh))
  | inr (c, e) ↦
      rw (e, seek_insert)
        (put-HighOff k path _ n (others_high k n high)
          (seek_insert-HighOff path c (IsHigh-child k n c high e)))
]

set_at-HighOff :
    (b : EntryBody) (path : KeyPath) (n : Node) → HighOff path n → HighOff path (set_at b path n)
unfolding set_at HighOff IsHigh
set_at-HighOff b [] (node b' h ks) high = high
set_at-HighOff b (k ∷ path) (node b' h ks) (c, e, off, others) =
    rw (e, set_at)
      (put-HighOff k path (set_at b path c) (node b' h ks) others (set_at-HighOff b path c off))

raise-IsHigh :
    (start : ℕ) (above path : KeyPath) (n : Node)
    → HighOff path n
    → IsHigh (raise start above path n).0
unfolding raise HighOff IsHigh
raise-IsHigh start above [] n high = high
raise-IsHigh start above (k ∷ path) (node b h ks) (c, e, off, others) =
    rw (e, raise) (omega arith, others _ (raise-IsHigh start (above ++ (k ∷ [])) path c off))

-- What seek has made ends in a new node, and otherwise it has made nothing.
ends_new : (path : KeyPath) → find_node path (seek_insert path new_node).0 ≡ some new_node
unfolding find_node seek_insert child put_child
ends_new [] = refl
ends_new (k ∷ path) = rw ((beq_bytes_iff k k).1 refl, find_node) (ends_new path)

seek_insert_cases :
    (path : KeyPath) (n : Node)
    → ((seek_insert path n).1 ≡ 0) × ((seek_insert path n).0 ≡ n)
      ⊎ (0 < (seek_insert path n).1) × (find_node path (seek_insert path n).0 ≡ some new_node)
unfolding find_node seek_insert
seek_insert_cases [] n = inl (refl, refl)
seek_insert_cases (k ∷ path) (node b h ks) = elim (Option-cases (child k ks)) [
  | inl e ↦ inr (
    rw (e, seek_insert) (omega arith),
    rw (e, seek_insert, find_node)
        (rw (child_put k ks (seek_insert path new_node).0) (ends_new path)),
  )
  | inr (c, e) ↦ elim (seek_insert_cases path c) [
    | inl (none_made, same) ↦
        inl (rw (e, seek_insert, none_made, same, put_child_same k ks c e) (refl, refl))
    | inr (made, ends) ↦ inr (
      rw (e, seek_insert) (omega (arith, made)),
      rw (e, seek_insert, find_node) (rw (child_put k ks (seek_insert path c).0) ends),
    )
  ]
]

raise_new-IsHigh :
    (up : Bool) (start : ℕ) (path : KeyPath) (n : Node)
    → HighOff path n
    → (up ≡ false → IsHigh n)
    → IsHigh (raise_new up start path n).0
raise_new-IsHigh true start path n off high = raise-IsHigh start [] path n off
raise_new-IsHigh false start path n off high = high refl

-- A valid entry is not what a new node holds, so that nothing new is left without its heights.
insert_node-IsHigh :
    (t : Tree) (entry : Entry) (n : Node)
    → 1 ≤ length entry.body.nexthops
    → find_node (path_of entry.name) (seek_insert (path_of entry.name) t.root).0 ≡ some n
    → IsHigh t.root
    → (let (root, created) = seek_insert (path_of entry.name) t.root in
        IsHigh (insert_node t entry root created n).0.root)
unfolding insert_node
insert_node-IsHigh t entry n hops at high =
    let path = path_of entry.name in
    let (root, created) = seek_insert path t.root in
    let off = set_at-HighOff entry.body path root (seek_insert-HighOff path t.root high) in
    elim (seek_insert_cases path t.root) [
      | inl (none_made, same) ↦
          let high_root : IsHigh root = subst IsHigh (sym same) high in
          elim (Bool-cases (equals (body n) entry.body)) [
            | inl old ↦ rw old high_root
            | inr new ↦ rw new (
                raise_new-IsHigh _ t.start_depth path (set_at entry.body path root) off
                  λ e. (set_at-Within entry.body path root high_root).0)
          ]
      | inr (made, ends) ↦
          let fresh : n ≡ new_node = some_eq (sym at ∙ ends) in
          elim (Bool-cases (equals (body n) entry.body)) [
            | inl old ↦
                let held : empty_body ≡ entry.body =
                  ap body (sym fresh) ∙ (equals_iff (body n) entry.body).0 old in
                absurd (omega (arith, hops, ap (λ (b : EntryBody). length b.nexthops) held))
            | inr new ↦ rw new (
                raise_new-IsHigh _ t.start_depth path (set_at entry.body path root) off
                  λ e. absurd (ground (arith, e, made, ap height fresh)))
          ]
    ]
  where
    some_eq : {a b : Node} → some a ≡ some b → a ≡ b
    some_eq e = cc

-- Where the height of each node is more than that of each of its children, it is so after Insert of an entry
-- that Validate accepts and after Erase of any name, and Erase does not raise the height of the root.
pub insert-erase-IsHigh :
    (t : Tree) (entry : Entry) (name : Name)
    → validate entry ≡ none
    → IsHigh t.root
    → ((t' : Tree) × (u : Update) × (insert t entry ≡ ok (t', u)) × IsHigh t'.root)
      × IsHigh (erase t name).0.root
      × (height (erase t name).0.root ≤ height t.root)
unfolding insert
insert-erase-IsHigh t entry name valid high =
    let path = path_of entry.name in
    let (root, created) = seek_insert path t.root in
    let (n, at) = seek_insert-IsThere path t.root in
    let (_, hops, _, _) = (validate_iff entry).0 valid in
    (
      (
        (insert_node t entry root created n).0,
        (insert_node t entry root created n).1,
        rw (valid, insert) (ap (λ m. ok (insert_node t entry root created (the_node m))) at),
        insert_node-IsHigh t entry n hops at high,
      ),
      (erase-IsHigh t name high).0,
      (erase-IsHigh t name high).1,
    )
