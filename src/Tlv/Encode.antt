-- ===== src/Tlv/Encode.antt =====
-- ndn/tlv/encode.go: fields, and the buffer that they are encoded into.
pub mod Wire
pub mod Buffer
pub mod Writes
use containernet_ndn_dpdk.Shared.{
  [], ℕ, ◌+◌, ◌-◌, ◌^◌, Option, none, some, List, ◌∷◌, ◌++◌, ltb, if◌then◌else◌, length, Error,
  Result, ok, err, panic, type_range, error_field, ◌>>=◌,
}
use containernet_ndn_dpdk.Tlv.Element
use containernet_ndn_dpdk.Tlv.Element.{Element, bad_type}
use containernet_ndn_dpdk.Tlv.Nni
use containernet_ndn_dpdk.Tlv.VarNum

abbrev pub max_u64 : ℕ
max_u64 = 2 ^ 64 - 1

-- A Field by its fieldType. The number of a TLV field is its `integer`: the TLV-TYPE, or MaxUint64
-- for the value only. A Fielder is given by the Field that its `Field` method returns.
mutual
  pub data Field : Type 0 where
    empty : Field
    failure : Error → Field
    bytes : List ℕ → Field
    nni : ℕ → Field
    tlv_fields : ℕ → Fields → Field
    tlv_fielders : ℕ → Fields → Field

  pub data Fields : Type 0 where
    nil : Fields
    cons : Field → Fields → Fields

abbrev pub one : Field → Fields
one f = cons f nil

-- `length += len(part)`, and bytes.Join(parts, nil).
abbrev pub total : List (List ℕ) → ℕ
total [] = 0
total (p ∷ ps) = length p + total ps

abbrev pub join : List (List ℕ) → List ℕ
join [] = []
join (p ∷ ps) = p ++ join ps

-- encodeTLVFinish: `parts` are those of the sub fields, behind the two that this function fills.
unfoldable pub encode_tlv_finish : ℕ → List ℕ → List (List ℕ) → List ℕ
encode_tlv_finish integer b parts =
    let n = total parts in
    let part1 = if ltb integer max_u64 then VarNum.encode n (VarNum.encode integer []) else [] in
    b ++ (part1 ++ join parts)

unfoldable mutual
  -- Field.Encode appends to the byte slice.
  pub encode : Field → List ℕ → Result (List ℕ)
  encode empty b = ok b
  encode (failure e) b = err e
  encode (bytes v) b = ok (b ++ v)
  encode (nni n) b = ok (Nni.encode n b)
  encode (tlv_fields integer subs) b =
      encode_subs subs >>= λ parts. ok (encode_tlv_finish integer b parts)
  encode (tlv_fielders integer subs) b =
      encode_subs subs >>= λ parts. ok (encode_tlv_finish integer b parts)

  -- The loop over the sub fields, up to the first error.
  pub encode_subs : Fields → Result (List (List ℕ))
  encode_subs nil = ok []
  encode_subs (cons sub subs) =
      encode sub [] >>= λ part. encode_subs subs >>= λ parts. ok (part ∷ parts)

-- FieldError(e) for an error that is not nil.
pub field_error : Error → Field
field_error e = failure e

-- TLV and TLVFrom check the TLV-TYPE.
unfoldable pub tlv : ℕ → Fields → Field
unfolding field_error
tlv typ values = if bad_type typ then field_error type_range else tlv_fields typ values

pub tlv_from : ℕ → Fields → Field
unfolding field_error
tlv_from typ values = if bad_type typ then field_error type_range else tlv_fielders typ values

unfoldable pub tlv_bytes : ℕ → List ℕ → Field
unfolding tlv
tlv_bytes typ value = tlv typ (one (bytes value))

pub tlv_nni : ℕ → ℕ → Field
unfolding tlv_from
tlv_nni typ v = tlv_from typ (one (nni v))

-- Element.Field
unfoldable pub element_field : Element → Field
unfolding tlv_bytes
element_field e = tlv_bytes e.typ e.value

-- EncodingBuffer. After an error its slice is nil, and appending does nothing.
pub record EncodingBuffer : Type 0 where
  pub b : List ℕ
  pub failed : Option Error

-- `encode` has no panic: the Fields are those that the constructors below make.
abbrev pub store_result : Result (List ℕ) → EncodingBuffer
store_result (ok o) = record { b = o; failed = none }
store_result (err e) = record { b = []; failed = some e }
store_result panic = record { b = []; failed = none }

abbrev pub append_unless : Option Error → EncodingBuffer → Field → EncodingBuffer
append_unless (some e) eb f = eb
append_unless none eb f = store_result (encode f eb.b)

unfoldable pub append : EncodingBuffer → Field → EncodingBuffer
append eb f = append_unless eb.failed eb f

-- Output, as a result: the slice if there is no error.
unfoldable pub output : EncodingBuffer → Result (List ℕ)
output eb = elim eb.failed [ none ↦ ok eb.b | some e ↦ err e ]

unfoldable pub append_all : EncodingBuffer → Fields → EncodingBuffer
unfolding append
append_all eb nil = eb
append_all eb (cons f fs) = append_all (append eb f) fs

-- Encode(fields...), and EncodeFrom over the Fields of its arguments.
unfoldable pub encode_all : Fields → Result (List ℕ)
unfolding append_all output
encode_all fs = output (append_all (record { b = []; failed = none }) fs)

-- EncodeValueOnly
pub encode_value_only : Field → Result (List ℕ)
encode_value_only (failure e) = err e
encode_value_only (tlv_fields integer subs) = encode (tlv_fields max_u64 subs) []
encode_value_only (tlv_fielders integer subs) = encode (tlv_fielders max_u64 subs) []
encode_value_only _ = err error_field
