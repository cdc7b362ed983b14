-- ===== src/Tlv/Decode/Splits.antt =====
-- ndn/tlv/decode.go: Element and Elements, on any buffer.
use containernet_ndn_dpdk.Shared.{
  [], ℕ, zero, suc, ◌-◌, ◌≤◌, ◌<◌, ◌≡◌, refl, sym, ap, ◌∙◌, subst, inl, inr, List, ◌∷◌, ◌++◌,
  append_assoc, arith, length, take, length-append, take-append, Result-cases, ok-injective, Error,
  ok, err, panic, incomplete, ◌>>=◌, >>=-eq-ok,
}
use containernet_ndn_dpdk.Tlv.Element
use containernet_ndn_dpdk.Tlv.Element.{Element}
use containernet_ndn_dpdk.Tlv.Element.Wire.{decode_front_element, decode_nil}
use containernet_ndn_dpdk.Tlv.Decode.{DecodingElement, element, elements_loop, elements}

-- The wires of decoded elements, one after the other.
abbrev pub wires : List DecodingElement → List ℕ
wires [] = []
wires (de ∷ list) = de.wire ++ wires list

pub element_ok :
    (d rest : List ℕ) (e : Element)
    → Element.decode d ≡ ok (e, rest)
    → element d
      ≡ ok (record { elem = e; wire = take (length d - length rest) d; after = rest }, rest)
unfolding element
element_ok d rest e p = rw (p, ◌>>=◌)

pub element_err : (d : List ℕ) (x : Error) → Element.decode d ≡ err x → element d ≡ err x
unfolding element
element_err d x p = rw (p, ◌>>=◌)

pub element_panic : (d : List ℕ) → Element.decode d ≡ panic → element d ≡ panic
unfolding element
element_panic d p = rw (p, ◌>>=◌)

pub element_nil : element [] ≡ err incomplete
element_nil = element_err [] incomplete decode_nil

pub take_front :
    (d front rest : List ℕ) → d ≡ front ++ rest → take (length d - length rest) d ≡ front
take_front d front rest e =
    let n : length d - length rest ≡ length front =
      omega (arith, ap length e, length-append front rest) in
    rw n (subst (λ t. take (length front) t ≡ front) (sym e) (take-append front rest))

-- What `element` takes off the buffer `d`: its wire, a front that is not empty.
abbrev pub IsFront : List ℕ → DecodingElement × List ℕ → Type 0
IsFront d (de, rest) =
    (d ≡ de.wire ++ rest)
    × (de.after ≡ rest)
    × (length rest < length d)
    × (Element.decode d ≡ ok (de.elem, rest))

pub element-IsFront :
    (d rest : List ℕ) (de : DecodingElement) → element d ≡ ok (de, rest) → IsFront d (de, rest)
element-IsFront d rest de h = elim (Result-cases (Element.decode d)) [
  | inl ((e, r), p) ↦
      let (header, whole, two) = decode_front_element d r e p in
      let split : d ≡ (header ++ e.value) ++ r = whole ∙ sym (append_assoc header e.value r) in
      let len : length r < length d = omega (
        arith,
        ap length split,
        length-append (header ++ e.value) r,
        length-append header e.value,
      ) in
      subst (IsFront d) (ok-injective (sym (element_ok d r e p) ∙ h))
        (rw (take_front d (header ++ e.value) r split) split, refl, len, p)
  | inr (inl (x, p)) ↦ cc (element_err d x p)
  | inr (inr p) ↦ cc (element_panic d p)
]

-- The result of the loop: the wires and the rest are the buffer, and no element follows.
abbrev pub IsSplit : List ℕ → List DecodingElement × List ℕ → Type 0
IsSplit d (list, rest) = (d ≡ wires list ++ rest) × (x : Error) × (element rest ≡ err x)

IsSplit-cons :
    (d d' rest : List ℕ) (de : DecodingElement) (list : List DecodingElement)
    → element d ≡ ok (de, d')
    → IsSplit d' (list, rest)
    → IsSplit d (de ∷ list, rest)
IsSplit-cons d d' rest de list p (split, x, stop) =
    let (front, _, _, _) = element-IsFront d d' de p in
    (front ∙ ap (λ t. de.wire ++ t) split ∙ sym (append_assoc de.wire (wires list) rest), x, stop)

-- One round of the loop.
pub loop_ok :
    (fuel : ℕ) (d d' : List ℕ) (de : DecodingElement)
    → element d ≡ ok (de, d')
    → elements_loop (suc fuel) d ≡ (elements_loop fuel d' >>= λ (list, rest). ok (de ∷ list, rest))
unfolding elements_loop
loop_ok fuel d d' de p = rw (p, elements_loop)

pub loop_nil : elements_loop zero [] ≡ ok ([], [])
unfolding elements_loop
loop_nil = refl

pub loop_err :
    (fuel : ℕ) (d : List ℕ) (x : Error)
    → element d ≡ err x
    → elements_loop (suc fuel) d ≡ ok ([], d)
unfolding elements_loop
loop_err fuel d x p = rw (p, elements_loop)

pub loop_panic : (fuel : ℕ) (d : List ℕ) → element d ≡ panic → elements_loop (suc fuel) d ≡ panic
unfolding elements_loop
loop_panic fuel d p = rw (p, elements_loop)

pub elements_loop_splits :
    (fuel : ℕ) (d : List ℕ) (r : List DecodingElement × List ℕ)
    → length d ≤ fuel
    → elements_loop fuel d ≡ ok r
    → IsSplit d r
elements_loop_splits zero [] r h e =
    subst (IsSplit []) (ok-injective (sym loop_nil ∙ e)) (refl, incomplete, element_nil)
elements_loop_splits zero (x ∷ d) r h e = absurd (omega arith)
elements_loop_splits (suc fuel) d r h e = elim (Result-cases (element d)) [
  | inl ((de, d'), p) ↦
      let ((list, rest), q, z) =
        >>=-eq-ok (elements_loop fuel d') _ (sym (loop_ok fuel d d' de p) ∙ e) in
      let (_, _, less, _) = element-IsFront d d' de p in
      subst (IsSplit d) (ok-injective z) (
        IsSplit-cons d d' rest de list p
          (elements_loop_splits fuel d' (list, rest) (omega arith) q))
  | inr (inl (x, p)) ↦ subst (IsSplit d) (ok-injective (sym (loop_err fuel d x p) ∙ e)) (refl, x, p)
  | inr (inr p) ↦ cc (loop_panic fuel d p)
]

-- `Elements` splits the buffer: the wires of the elements and the bytes left are the buffer, in
-- order, and the bytes left do not begin with an element.
pub elements_splits :
    (d rest : List ℕ) (list : List DecodingElement)
    → elements d ≡ ok (list, rest)
    → (d ≡ wires list ++ rest) × (x : Error) × (element rest ≡ err x)
unfolding elements
elements_splits d rest list e = elements_loop_splits (length d) d (list, rest) (omega arith) e
