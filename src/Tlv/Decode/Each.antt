-- ===== src/Tlv/Decode/Each.antt =====
-- The loop of the UnmarshalBinary methods over the elements of a TLV-VALUE, each of which goes on with a
-- step of its own; and the fields that such a method reads back.
use containernet_ndn_dpdk.Shared.{
  ℕ, ◌≡◌, refl, sym, subst, Bool, true, false, List, [], ◌∷◌, if◌then◌else◌, All, Result, ok,
  incomplete, ◌>>=◌,
}
use containernet_ndn_dpdk.Tlv.Element.{Element}
use containernet_ndn_dpdk.Tlv.Element.Wire.{wire_of, IsElement}
use containernet_ndn_dpdk.Tlv.Decode.{DecodingElement, elements, err_unless_eof}
use containernet_ndn_dpdk.Tlv.Decode.Splits.{element_nil}
use containernet_ndn_dpdk.Tlv.Decode.RoundTrip.{
  encoding_of, decoding_of, elements-encoding_of, err_unless_eof-nil,
}

-- `for _, de := range d.Elements() { … }` with an error that returns at once.
pub decode_each {ℓ} :
    {S : Type ℓ} → (S → DecodingElement → Result S) → S → List DecodingElement → Result S
decode_each step s [] = ok s
decode_each step s (de ∷ list) = step s de >>= λ s'. decode_each step s' list

-- The whole method, with ErrUnlessEOF behind the loop.
pub decode_fields {ℓ} : {S : Type ℓ} → (S → DecodingElement → Result S) → S → List ℕ → Result S
decode_fields step s wire = do
  (list, rest) ← elements wire
  s' ← decode_each step s list
  _ ← err_unless_eof rest
  ok s'

-- On what elements were encoded to, the method is its loop.
pub decode_fields-encoding_of {ℓ} :
    {S : Type ℓ} (step : S → DecodingElement → Result S) (s s' : S) (es : List Element)
    → All IsElement es
    → decode_each step s (decoding_of es []) ≡ ok s'
    → decode_fields step s (encoding_of es []) ≡ ok s'
unfolding decode_fields
decode_fields-encoding_of step s s' es good e =
    rw (elements-encoding_of es [] incomplete good element_nil, e, err_unless_eof-nil)

-- An element that is there under a condition.
abbrev pub put_elem : Bool → Element → List Element → List Element
put_elem b e es = if b then e ∷ es else es

pub IsElement-put_elem :
    (b : Bool) (e : Element) (es : List Element)
    → (b ≡ true → IsElement e)
    → All IsElement es
    → All IsElement (put_elem b e es)
IsElement-put_elem true e es h hs = (h refl, hs)
IsElement-put_elem false e es h hs = hs

pub decode_each-cons {ℓ} :
    {S : Type ℓ} (step : S → DecodingElement → Result S) (s s' last : S) (e : Element)
    (es : List Element)
    → step s (record { elem = e; wire = wire_of e; after = encoding_of es [] }) ≡ ok s'
    → decode_each step s' (decoding_of es []) ≡ ok last
    → decode_each step s (decoding_of (e ∷ es) []) ≡ ok last
unfolding decode_each
decode_each-cons step s s' last e es h k = rw h k

-- The step on an element that is there under a condition, where the state is the one after the step
-- also if it is not there.
pub decode_each-put_elem {ℓ} :
    {S : Type ℓ} (step : S → DecodingElement → Result S) (s s' last : S) (b : Bool) (e : Element)
    (es : List Element)
    → (b ≡ true → step s (record { elem = e; wire = wire_of e; after = encoding_of es [] }) ≡ ok s')
    → (b ≡ false → s ≡ s')
    → decode_each step s' (decoding_of es []) ≡ ok last
    → decode_each step s (decoding_of (put_elem b e es) []) ≡ ok last
decode_each-put_elem step s s' last true e es h same k =
    decode_each-cons step s s' last e es (h refl) k
decode_each-put_elem step s s' last false e es h same k =
    subst (λ t. decode_each step t (decoding_of es []) ≡ ok last) (sym (same refl)) k

pub decode_each-nil {ℓ} :
    {S : Type ℓ} (step : S → DecodingElement → Result S) (s : S) → decode_each step s [] ≡ ok s
unfolding decode_each
decode_each-nil step s = refl
