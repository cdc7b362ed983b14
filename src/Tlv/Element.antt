-- ===== src/Tlv/Element.antt =====
-- ndn/tlv/element.go: one TLV element.
pub mod Wire
use containernet_ndn_dpdk.Shared.{
  ◌>>=◌, ℕ, ◌+◌, Bool, ◌||◌, List, ltb, leb, if◌then◌else◌, length, take, drop, Result, ok, err,
  panic, incomplete, type_range,
}
use containernet_ndn_dpdk.Shared.Int.{ltb_ℤ, pos, to_int}
use containernet_ndn_dpdk.Tlv.VarNum
use containernet_ndn_dpdk.Tlv.VarNum.{max_u32}

-- `typ` is the TLV-TYPE, a uint32, and `value` the TLV-VALUE.
pub record Element : Type 0 where
  pub typ : ℕ
  pub value : List ℕ

unfoldable pub size : Element → ℕ
size element = VarNum.size element.typ + VarNum.size (length element.value) + length element.value

abbrev pub min_type : ℕ
min_type = 1

abbrev pub max_type : ℕ
max_type = max_u32

-- `typ < minType || typ > maxType`
abbrev pub bad_type : ℕ → Bool
bad_type typ = ltb typ min_type || ltb max_type typ

-- `valueRest[:length]` with the uint64 `length`, and `valueRest[length:]`. An index past the slice
-- is a panic. The capacity of a slice may exceed its length, but is an int: the model of a panic is
-- exact, since `length` is at most len(valueRest) or at least 2 ^ 63 where the slice is taken.
abbrev split_value : ℕ → ℕ → List ℕ → Result (Element × List ℕ)
split_value typ n rest =
    if leb n (length rest)
    then ok (record { typ = typ; value = take n rest }, drop n rest)
    else panic

-- Element.Decode: the element and the rest.
unfoldable pub decode : List ℕ → Result (Element × List ℕ)
decode wire = do
  (typ, d) ← VarNum.decode wire
  if bad_type typ then err type_range else do
    (n, value_rest) ← VarNum.decode d
    if ltb_ℤ (pos (length value_rest)) (to_int n)
        then err incomplete
        else split_value typ n value_rest
