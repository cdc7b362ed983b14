-- ===== src/FibTree/Paths.antt =====
-- container/fib/fibtree/node.go: the strings of components tell names apart.
use containernet_ndn_dpdk.Shared.{
  ℕ, ◌≡◌, refl, sym, ap, ◌∙◌, inl, inr, List, [], ◌∷◌, ◌++◌, append-nil, Bool-cases, ok-injective,
  ok,
}
use containernet_ndn_dpdk.Tlv.Element.{Element}
use containernet_ndn_dpdk.Tlv.Element
use mathlib.Core.Path.{ap₂}
use containernet_ndn_dpdk.Tlv.Element.Wire.{wire_of, IsElement, decode-wire_of}
use containernet_ndn_dpdk.Tlv.Encode.{one, nil, encode_all}
use containernet_ndn_dpdk.Tlv.Encode.Buffer.{encode_all_lem, encode_subs-cons, encode_subs-nil}
use containernet_ndn_dpdk.Name.{Name, equal}
use containernet_ndn_dpdk.Name.Order.{equal_iff}
use containernet_ndn_dpdk.Name.Component
use containernet_ndn_dpdk.Name.Component.{NameComponent}
use containernet_ndn_dpdk.Name.Component.Codec.{IsComponent, component-IsElement, encode-field}
use containernet_ndn_dpdk.Name.Codec.{IsName}
use containernet_ndn_dpdk.FibTree.Nodes.{component_to_string, path_of, KeyPath}
use containernet_ndn_dpdk.FibTree.Children.{beq_path, beq_path_iff}

encode_all-component :
    (comp : NameComponent)
    → IsComponent comp
    → encode_all (one (Component.field comp)) ≡ ok (wire_of comp)
encode_all-component comp h =
    encode_all_lem (one (Component.field comp))
    ∙ rw (encode_subs-cons (Component.field comp) nil, encode-field comp h, encode_subs-nil)
        (ap ok (append-nil (wire_of comp)))

pub component_to_string-wire :
    (comp : NameComponent) → IsComponent comp → component_to_string comp ≡ wire_of comp
unfolding component_to_string
component_to_string-wire comp h = rw (encode_all-component comp h, component_to_string)

wire_of_inj : (c d : Element) → IsElement c → IsElement d → wire_of c ≡ wire_of d → c ≡ d
wire_of_inj c d hc hd e =
    let p =
      sym (decode-wire_of c [] hc)
      ∙ ap (λ w. Element.decode (w ++ [])) e
      ∙ decode-wire_of d [] hd in
    ap (λ (t : Element × List ℕ). t.0) (ok-injective p)

path_of_inj : (a b : Name) → IsName a → IsName b → path_of a ≡ path_of b → a ≡ b
path_of_inj [] [] ha hb e = refl
path_of_inj [] (y ∷ b) ha hb e = cc
path_of_inj (x ∷ a) [] ha hb e = cc
path_of_inj (x ∷ a) (y ∷ b) (hx, ha) (hy, hb) e =
    let (p, q) = cons_inv e in
    ap₂ (λ c cs. c ∷ cs)
      (wire_of_inj x y (component-IsElement x hx) (component-IsElement y hy)
        (sym (component_to_string-wire x hx) ∙ p ∙ component_to_string-wire y hy))
      (path_of_inj a b ha hb q)
  where
    cons_inv : {k j : List ℕ} {p q : KeyPath} → k ∷ p ≡ j ∷ q → (k ≡ j) × (p ≡ q)
    cons_inv e = (cc, cc)

-- On names of valid components, the paths are compared as the names are.
pub beq_path-path_of :
    (a b : Name) → IsName a → IsName b → beq_path (path_of a) (path_of b) ≡ equal a b
beq_path-path_of a b ha hb = elim (Bool-cases (equal a b)) [
  | inl same ↦
      rw same ((beq_path_iff (path_of a) (path_of b)).1 (ap path_of ((equal_iff a b).0 same)))
  | inr differ ↦ elim (Bool-cases (beq_path (path_of a) (path_of b))) [
    | inl p ↦
        cc ((equal_iff a b).1 (path_of_inj a b ha hb ((beq_path_iff (path_of a) (path_of b)).0 p)))
    | inr q ↦ rw differ q
  ]
]
