-- ===== src/Tlv/Decode.antt =====
-- ndn/tlv/decode.go: the decoding buffer. A buffer is the list of its unconsumed bytes.
pub mod Splits
pub mod RoundTrip
pub mod Each
use containernet_ndn_dpdk.Shared.{
  [], ℕ, zero, suc, ◌-◌, ◌*◌, bit_and, Bool, true, false, ◌||◌, not, List, ◌∷◌, ltb, leb, ◌==◌,
  if◌then◌else◌, length, take, Error, Result, ok, err, panic, tail, ◌>>=◌,
}
use containernet_ndn_dpdk.Tlv.Element
use containernet_ndn_dpdk.Tlv.Element.{Element}
use containernet_ndn_dpdk.Tlv.Nni

-- DecodingBuffer.EOF
pub eof : List ℕ → Bool
eof [] = true
eof (x ∷ d) = false

-- DecodingBuffer.ErrUnlessEOF
unfoldable pub err_unless_eof : List ℕ → Result (Unit {0})
unfolding eof
err_unless_eof d = if eof d then ok tt else err tail

pub record DecodingElement : Type 0 where
  pub elem : Element
  pub open elem use *
  pub wire : List ℕ
  pub after : List ℕ

-- DecodingBuffer.Element: the element and the buffer behind it.
unfoldable pub element : List ℕ → Result (DecodingElement × List ℕ)
element d = do
  (e, rest) ← Element.decode d
  ok (record { elem = e; wire = take (length d - length rest) d; after = rest }, rest)

-- DecodingBuffer.Elements: `for { de, e := d.Element(); if e != nil { break }; … }` with fuel. An
-- element takes two bytes at least, so the length of the buffer is fuel enough.
unfoldable pub elements_loop : ℕ → List ℕ → Result (List DecodingElement × List ℕ)
elements_loop zero d = ok ([], d)
elements_loop (suc fuel) d = elim (element d) [
  | ok (de, d') ↦ elements_loop fuel d' >>= λ (list, rest). ok (de ∷ list, rest)
  | err e ↦ ok ([], d)
  | panic ↦ panic
]

unfoldable pub elements : List ℕ → Result (List DecodingElement × List ℕ)
elements d = elements_loop (length d) d

-- IsCriticalType; `de.Type&0x01 != 0` is the lowest bit.
pub is_critical_type : ℕ → Bool
is_critical_type typ = leb typ 31 || not (bit_and typ 0x01 == 0)

-- UnmarshalNNI, with the value and the error joined.
pub unmarshal_nni : List ℕ → ℕ → Error → Result ℕ
unmarshal_nni value bound range = do
  v ← Nni.unmarshal_binary value
  if ltb bound v then err range else ok v

-- Decode, a buffer with a single TLV; `unmarshal` is the receiver's UnmarshalTLV.
pub decode {ℓ} : {A : Type ℓ} → List ℕ → (ℕ → List ℕ → Result A) → Result A
decode wire unmarshal = do
  (de, d) ← element wire
  u ← unmarshal de.typ de.value
  _ ← err_unless_eof d
  ok u
