-- ===== src/Tlv/Decode/RoundTrip.antt =====
-- ndn/tlv/decode.go: Elements and Decode on encoded elements.
use containernet_ndn_dpdk.Shared.{
  [], ℕ, zero, suc, ◌^◌, ◌≤◌, ◌<◌, ◌≡◌, refl, sym, ap, ◌∙◌, List, ◌∷◌, ◌++◌, append-nil, arith, ltb,
  if◌then◌else◌, length, All, Error, Result, ok, err, panic, tail, ◌>>=◌,
}
use containernet_ndn_dpdk.Tlv.Nni
use containernet_ndn_dpdk.Tlv.Nni.RoundTrip.{unmarshal_binary-encode}
use containernet_ndn_dpdk.Tlv.Element.{Element}
use containernet_ndn_dpdk.Tlv.Element.Wire.{wire_of, IsElement, decode-wire_of}
use containernet_ndn_dpdk.Tlv.Decode.{
  DecodingElement, unmarshal_nni, element, elements_loop, elements, err_unless_eof, decode,
}
use containernet_ndn_dpdk.Tlv.Decode.Splits.{
  element_ok, element-IsFront, take_front, loop_ok, loop_err,
}

-- What `Elements` makes of the wires of `es` in front of `rest`.
abbrev pub encoding_of : List Element → List ℕ → List ℕ
encoding_of [] rest = rest
encoding_of (e ∷ es) rest = wire_of e ++ encoding_of es rest

abbrev pub decoding_of : List Element → List ℕ → List DecodingElement
decoding_of [] rest = []
decoding_of (e ∷ es) rest =
    record { elem = e; wire = wire_of e; after = encoding_of es rest } ∷ decoding_of es rest

pub element-wire_of :
    (e : Element) (rest : List ℕ)
    → IsElement e
    → element (wire_of e ++ rest) ≡ ok (record { elem = e; wire = wire_of e; after = rest }, rest)
element-wire_of e rest h =
    element_ok (wire_of e ++ rest) rest e (decode-wire_of e rest h)
    ∙ rw (take_front (wire_of e ++ rest) (wire_of e) rest refl)

elements_loop-encoding_of :
    (es : List Element) (fuel : ℕ) (rest : List ℕ) (x : Error)
    → All IsElement es
    → element rest ≡ err x
    → length (encoding_of es rest) ≤ fuel
    → elements_loop fuel (encoding_of es rest) ≡ ok (decoding_of es rest, rest)
elements_loop-encoding_of [] zero [] x good stop h = unfold elements_loop in refl
elements_loop-encoding_of [] zero (y ∷ rest) x good stop h = absurd (omega arith)
elements_loop-encoding_of [] (suc fuel) rest x good stop h = loop_err fuel rest x stop
elements_loop-encoding_of (e ∷ es) zero rest x (ge, good) stop h =
    let (_, _, less, _) = element-IsFront _ _ _ (element-wire_of e (encoding_of es rest) ge) in
    absurd (omega arith)
elements_loop-encoding_of (e ∷ es) (suc fuel) rest x (ge, good) stop h =
    let p = element-wire_of e (encoding_of es rest) ge in
    let (_, _, less, _) = element-IsFront _ _ _ p in
    loop_ok fuel _ _ _ p ∙ rw (elements_loop-encoding_of es fuel rest x good stop (omega arith))

-- `Elements` reads back what a sequence of elements, with valid types and values shorter than 2 ^ 63
-- bytes, was encoded to, and leaves the bytes behind it in the buffer, if these do not begin with an
-- element.
pub elements-encoding_of :
    (es : List Element) (rest : List ℕ) (x : Error)
    → All IsElement es
    → element rest ≡ err x
    → elements (encoding_of es rest) ≡ ok (decoding_of es rest, rest)
unfolding elements
elements-encoding_of es rest x good stop =
    elements_loop-encoding_of es _ rest x good stop (omega arith)

-- On an encoded element, of a valid type and shorter than 2 ^ 63 bytes, and the bytes behind it, Decode is the receiver's UnmarshalTLV on the element,
-- and then ErrTail if there are bytes behind it; the receiver's own error comes first.
pub decode_single {ℓ} :
    {A : Type ℓ} (e : Element) (rest : List ℕ) (unmarshal : ℕ → List ℕ → Result A)
    → IsElement e
    → decode (wire_of e ++ rest) unmarshal
      ≡ (unmarshal e.typ e.value >>= λ u. err_unless_eof rest >>= λ _. ok u)
unfolding decode
decode_single e rest unmarshal h = rw (element-wire_of e rest h)

bind_ok {ℓ} : {A : Type ℓ} (r : Result A) → (r >>= λ u. err_unless_eof [] >>= λ _. ok u) ≡ r
unfolding err_unless_eof
bind_ok (ok a) = refl
bind_ok (err e) = refl
bind_ok panic = refl

pub decode_alone {ℓ} :
    {A : Type ℓ} (e : Element) (unmarshal : ℕ → List ℕ → Result A)
    → IsElement e
    → decode (wire_of e) unmarshal ≡ unmarshal e.typ e.value
decode_alone e unmarshal h =
    ap (λ w. decode w unmarshal) (sym (append-nil (wire_of e)))
    ∙ decode_single e [] unmarshal h
    ∙ bind_ok (unmarshal e.typ e.value)

pub unmarshal_nni-encode :
    (n bound : ℕ) (range : Error)
    → n < 2 ^ 64
    → unmarshal_nni (Nni.encode n []) bound range ≡ (if ltb bound n then err range else ok n)
unfolding unmarshal_nni
unmarshal_nni-encode n bound range h = rw (unmarshal_binary-encode n h)

pub err_unless_eof-nil : err_unless_eof [] ≡ ok tt
unfolding err_unless_eof
err_unless_eof-nil = refl

pub err_unless_eof-cons : (x : ℕ) (d : List ℕ) → err_unless_eof (x ∷ d) ≡ err tail
unfolding err_unless_eof
err_unless_eof-cons x d = refl
