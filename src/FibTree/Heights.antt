-- ===== src/FibTree/Heights.antt =====
-- container/fib/fibtree/node.go: heights of nodes that are large enough, and children. A height is large enough if it is more than the height of each child, all the way down.
use containernet_ndn_dpdk.Shared.{
  suc, ◌≤◌, ◌≡◌, refl, sym, ◌∙◌, ap, subst, inl, inr, some, arith, Bool-cases,
}
use containernet_ndn_dpdk.Shared.Assoc.{beq_bytes, beq_bytes_iff}
use containernet_ndn_dpdk.FibTree.Nodes.{
  Key, Node, Kids, node, no_kids, kid, height, child, put_child, drop_child, kids_height,
}
use containernet_ndn_dpdk.FibTree.Children.{child-put_child}

-- The heights of a node and of all below it are large enough.
unfoldable mutual
  pub IsHigh : Node → Type 0
  IsHigh (node b h ks) = (kids_height ks ≤ h) × AreHigh ks

  pub AreHigh : Kids → Type 0
  AreHigh no_kids = Unit
  AreHigh (kid k c ks) = IsHigh c × AreHigh ks

pub child-kids_height :
    (k : Key) (ks : Kids) (c : Node) → child k ks ≡ some c → suc (height c) ≤ kids_height ks
unfolding kids_height child
child-kids_height k no_kids c e = cc
child-kids_height k (kid j d ks) c e = elim (Bool-cases (beq_bytes j k)) [
  | inl hit ↦ let same : d ≡ c = ground (arith, hit, e) in rw (sym same) (omega arith)
  | inr miss ↦ omega (arith, child-kids_height k ks c (rw miss at e))
]

pub child-AreHigh : (k : Key) (ks : Kids) (c : Node) → AreHigh ks → child k ks ≡ some c → IsHigh c
unfolding AreHigh child
child-AreHigh k no_kids c h e = cc
child-AreHigh k (kid j d ks) c (hd, hs) e = elim (Bool-cases (beq_bytes j k)) [
  | inl hit ↦ let same : d ≡ c = ground (arith, hit, e) in subst IsHigh same hd
  | inr miss ↦ child-AreHigh k ks c hs (rw miss at e)
]

pub put_child-AreHigh :
    (k : Key) (c : Node) (ks : Kids) → AreHigh ks → IsHigh c → AreHigh (put_child k c ks)
unfolding AreHigh put_child
put_child-AreHigh k c no_kids hs h = (h, tt)
put_child-AreHigh k c (kid j d ks) (hd, hs) h = elim (Bool-cases (beq_bytes j k)) [
  | inl hit ↦ rw hit (h, hs)
  | inr miss ↦ rw miss (hd, put_child-AreHigh k c ks hs h)
]

pub drop_child-AreHigh : (k : Key) (ks : Kids) → AreHigh ks → AreHigh (drop_child k ks)
unfolding AreHigh drop_child
drop_child-AreHigh k no_kids hs = tt
drop_child-AreHigh k (kid j d ks) (hd, hs) = elim (Bool-cases (beq_bytes j k)) [
  | inl hit ↦ rw hit (drop_child-AreHigh k ks hs)
  | inr miss ↦ rw miss (hd, drop_child-AreHigh k ks hs)
]

pub kids_height-drop_child : (k : Key) (ks : Kids) → kids_height (drop_child k ks) ≤ kids_height ks
unfolding kids_height drop_child
kids_height-drop_child k no_kids = omega arith
kids_height-drop_child k (kid j d ks) = ground (arith, kids_height-drop_child k ks)

-- A child in the place of one that is at least as high.
pub kids_height-put_child :
    (k : Key) (ks : Kids) (c d : Node)
    → child k ks ≡ some c
    → height d ≤ height c
    → kids_height (put_child k d ks) ≤ kids_height ks
unfolding kids_height put_child child
kids_height-put_child k no_kids c d e low = cc
kids_height-put_child k (kid j x ks) c d e low = elim (Bool-cases (beq_bytes j k)) [
  | inl hit ↦
      let same : x ≡ c = ground (arith, hit, e) in
      let lower : height d ≤ height x = rw same low in rw hit (omega arith)
  | inr miss ↦
      let rest = kids_height-put_child k ks c d (rw miss at e) low in rw miss (omega (arith, rest))
]

pub put_child_twice :
    (k : Key) (ks : Kids) (c d : Node) → put_child k d (put_child k c ks) ≡ put_child k d ks
unfolding put_child
put_child_twice k no_kids c d = rw ((beq_bytes_iff k k).1 refl)
put_child_twice k (kid j x ks) c d = elim (Bool-cases (beq_bytes j k)) [
  | inl hit ↦ rw (hit, put_child) (rw hit refl)
  | inr miss ↦ rw (miss, put_child) (rw miss (ap (kid j x) (put_child_twice k ks c d)))
]

pub put_child_same : (k : Key) (ks : Kids) (c : Node) → child k ks ≡ some c → put_child k c ks ≡ ks
unfolding put_child child
put_child_same k no_kids c e = cc
put_child_same k (kid j x ks) c e = elim (Bool-cases (beq_bytes j k)) [
  | inl hit ↦ let same : x ≡ c = ground (arith, hit, e) in rw hit (ap (λ y. kid j y ks) (sym same))
  | inr miss ↦ rw miss (ap (kid j x) (put_child_same k ks c (rw miss at e)))
]

pub child_put : (k : Key) (ks : Kids) (c : Node) → child k (put_child k c ks) ≡ some c
child_put k ks c = child-put_child k k c ks ∙ rw ((beq_bytes_iff k k).1 refl)
