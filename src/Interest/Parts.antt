-- ===== src/Interest/Parts.antt =====
-- ndn/interest.go: the nonce, the hop limit and the forwarding hint of an Interest, and its lifetimes.
use containernet_ndn_dpdk.Shared.{
  ℕ, ◌*◌, bit_or, Bool, ◌&&◌, List, [], ◌∷◌, ◌++◌, ◌==◌, if◌then◌else◌, shr, to_byte, Result, ok,
  err, ◌>>=◌,
}
use containernet_ndn_dpdk.Shared.Outcome.{nonce_len, hop_limit}
use containernet_ndn_dpdk.Shared.Int.{ℤ, pos, leb_ℤ}
use containernet_ndn_dpdk.Tlv.VarNum.{join4}
use containernet_ndn_dpdk.Tlv.Decode.{DecodingElement}
use containernet_ndn_dpdk.Tlv.Decode.Each.{decode_fields}
use containernet_ndn_dpdk.Tlv.Encode.{Field, Fields, nil, cons, tlv, tlv_bytes}
use containernet_ndn_dpdk.Name
use containernet_ndn_dpdk.Name.{Name}
use containernet_ndn_dpdk.SigInfo.{skip}

-- time.Millisecond
abbrev pub millisecond : ℕ
millisecond = 1000000

-- DefaultInterestLifetime and MinInterestLifetime
abbrev pub default_interest_lifetime : ℤ
default_interest_lifetime = pos (4000 * millisecond)

abbrev pub min_interest_lifetime : ℤ
min_interest_lifetime = pos millisecond

-- Equality of two durations.
abbrev pub same_ℤ : ℤ → ℤ → Bool
same_ℤ a b = leb_ℤ a b && leb_ℤ b a

-- A Nonce is an array of 4 bytes.
pub data Nonce : Type 0 where
  nonce : ℕ → ℕ → ℕ → ℕ → Nonce

-- NonceFromUint, ToUint and IsZero
pub nonce_from_uint : ℕ → Nonce
nonce_from_uint n = nonce (to_byte (shr n 24)) (to_byte (shr n 16)) (to_byte (shr n 8)) (to_byte n)

unfoldable pub nonce_to_uint : Nonce → ℕ
nonce_to_uint (nonce a b c d) = join4 a b c d

unfoldable pub nonce_is_zero : Nonce → Bool
nonce_is_zero (nonce a b c d) = bit_or (bit_or (bit_or a b) c) d == 0

abbrev pub nonce_bytes : Nonce → List ℕ
nonce_bytes (nonce a b c d) = a ∷ b ∷ c ∷ d ∷ []

-- Nonce.Field and Nonce.UnmarshalBinary
abbrev pub nonce_field : Nonce → Field
nonce_field n = tlv_bytes 0x0a (nonce_bytes n)

unfoldable pub unmarshal_nonce : List ℕ → Result Nonce
unmarshal_nonce (a ∷ b ∷ c ∷ d ∷ []) = ok (nonce a b c d)
unmarshal_nonce _ = err nonce_len

-- HopLimit.UnmarshalBinary
unfoldable pub unmarshal_hop_limit : List ℕ → Result ℕ
unmarshal_hop_limit (a ∷ []) = ok a
unmarshal_hop_limit _ = err hop_limit

-- ForwardingHint.Field
abbrev pub name_fields : List Name → Fields
name_fields [] = nil
name_fields (del ∷ fh) = cons (Name.field del) (name_fields fh)

abbrev pub hint_field : List Name → Field
hint_field fh = tlv 0x1e (name_fields fh)

-- ForwardingHint.UnmarshalBinary, which appends to the hint that is there.
abbrev pub hint_step : List Name → DecodingElement → Result (List Name)
hint_step fh de =
    if de.typ == 0x07
    then (Name.unmarshal_binary de.value >>= λ del. ok (fh ++ (del ∷ [])))
    else skip fh de

unfoldable pub unmarshal_hint : List Name → List ℕ → Result (List Name)
unmarshal_hint fh wire = decode_fields hint_step fh wire
