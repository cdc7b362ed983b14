-- ===== src/Forwarder/Token.antt =====
-- The PIT token of ndn/l3/fwface.go: the id of the downstream face in front of the old token.
use containernet_ndn_dpdk.Shared.{
  [], ℕ, ◌+◌, ◌*◌, ◌^◌, ◌<◌, ◌≡◌, List, ◌∷◌, ◌++◌, arith, ltb, if◌then◌else◌, length, get_or, drop,
  shr, to_byte,
}

abbrev pub token_size : ℕ
token_size = 4

-- binary.LittleEndian.PutUint32
abbrev pub put_uint32 : ℕ → List ℕ
put_uint32 id = to_byte id ∷ to_byte (shr id 8) ∷ to_byte (shr id 16) ∷ to_byte (shr id 24) ∷ []

-- tokenInsertID
pub token_insert_id : List ℕ → ℕ → List ℕ
token_insert_id old_token id = put_uint32 id ++ old_token

-- binary.LittleEndian.Uint32
abbrev pub uint32 : List ℕ → ℕ
uint32 b = get_or b 0 0 + get_or b 1 0 * 2 ^ 8 + get_or b 2 0 * 2 ^ 16 + get_or b 3 0 * 2 ^ 24

-- tokenStripID
pub token_strip_id : List ℕ → ℕ × List ℕ
token_strip_id token =
    if ltb (length token) token_size then (0, []) else (uint32 token, drop token_size token)

-- Stripping the id that was inserted gives the 32-bit id and the old token back, and a token shorter
-- than an id has the id 0, which no face has.
pub token_strip_id-token_insert_id :
    (old : List ℕ) (id : ℕ) → id < 2 ^ 32 → token_strip_id (token_insert_id old id) ≡ (id, old)
unfolding token_strip_id token_insert_id
token_strip_id-token_insert_id old id h = ground arith

pub token_strip_id_short :
    (token : List ℕ) → length token < token_size → token_strip_id token ≡ (0, [])
unfolding token_strip_id
token_strip_id_short token h = ground arith
