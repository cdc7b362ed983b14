-- ===== src/Packet.antt =====
-- ndn/packet.go and ndn/nack.go: packets as they are decoded from frames. A Packet of Lp is one to be sent,
-- with its contents encoded; here the contents are what the bytes were decoded to.
use containernet_ndn_dpdk.Shared.{
  ℕ, Bool, false, ◌||◌, not, Option, none, some, List, [], ◌∷◌, ltb, leb, ◌==◌, if◌then◌else◌,
  to_byte, Result, ok, err, critical, range_error, fragment, l3_type, ◌>>=◌,
}
use containernet_ndn_dpdk.Tlv.VarNum.{join8}
use containernet_ndn_dpdk.Tlv.Decode.{DecodingElement, element, err_unless_eof, unmarshal_nni}
use containernet_ndn_dpdk.Tlv.Decode.Each.{decode_each, decode_fields}
use containernet_ndn_dpdk.Tlv.Decode
use containernet_ndn_dpdk.Lp.{LpL3, no_lp, inherit_from, lp_is_critical}
use containernet_ndn_dpdk.Interest.{Interest, no_interest, unmarshal_interest}
use containernet_ndn_dpdk.Data.{Data, Origin, no_origin, unmarshal_data}

-- Nack, without the pointer to its Packet.
pub record Nack : Type 0 where
  pub reason : ℕ
  pub interest : Interest

-- an.NackNone and an.NackUnspecified
abbrev pub nack_none : ℕ
nack_none = 0

abbrev pub nack_unspecified : ℕ
nack_unspecified = 255

-- The arguments of MakeNack; a reason, not below 0, is converted to a uint8, and an Interest has the header of
-- its Packet, if it has one.
pub data NackArg : Type 0 where
  with_reason : ℕ → NackArg
  with_interest : Interest → Option LpL3 → NackArg
  with_lp : LpL3 → NackArg

abbrev pub inherit_if : LpL3 → Option LpL3 → LpL3
inherit_if lp none = lp
inherit_if lp (some src) = inherit_from lp src

abbrev pub take_arg : Nack × LpL3 → NackArg → Nack × LpL3
take_arg (n, lp) (with_reason a) = (record n { reason = to_byte a }, lp)
take_arg (n, lp) (with_interest a h) = (record n { interest = a }, inherit_if lp h)
take_arg (n, lp) (with_lp a) = (n, inherit_from lp a)

-- The loop of MakeNack, and MakeNack with the header of the Packet.
unfoldable pub take_args : Nack × LpL3 → List NackArg → Nack × LpL3
take_args made [] = made
take_args made (arg ∷ args) = take_args (take_arg made arg) args

unfoldable pub make_nack : List NackArg → Nack × LpL3
make_nack args =
    take_args (record { reason = nack_unspecified; interest = no_interest }, no_lp) args

-- LpFragment with what decoding sets of it; a nil payload is none.
pub record RxFragment : Type 0 where
  pub seq_num : ℕ
  pub frag_index : ℕ
  pub frag_count : ℕ
  pub payload : Option (List ℕ)

-- Packet. Its cached type and value are those of `origin`, which a Data in it shares.
pub record Packet : Type 0 where
  pub lp : LpL3
  pub origin : Origin
  pub fragment_in : Option RxFragment
  pub interest_in : Option Interest
  pub data_in : Option Data
  pub nack_in : Option Nack

abbrev pub no_packet : Packet
no_packet = record {
  lp = no_lp;
  origin = no_origin;
  fragment_in = none;
  interest_in = none;
  data_in = none;
  nack_in = none;
}

-- A packet with an Interest, which is the Interest of a Nack where the header has a reason.
abbrev pub put_interest : Packet → Interest → Packet
put_interest pkt i =
    if not (pkt.lp.nack_reason == nack_none)
    then record pkt { nack_in = some (record { reason = pkt.lp.nack_reason; interest = i }) }
    else record pkt { interest_in = some i }

module _ (sha256 : List ℕ → List ℕ) (known : ℕ → Bool) where
  -- decodeL3
  unfoldable pub decode_l3 : Packet → ℕ → List ℕ → Result Packet
  decode_l3 pkt typ value =
      let o : Origin = record { l3_type = typ; l3_value = value; l3_digest = none } in
      if typ == 0x05
      then (unmarshal_interest sha256 known value >>= λ i.
          ok (record (put_interest pkt i) { origin = o }))
      else if typ == 0x06
      then (unmarshal_data known value >>= λ d.
          ok (record pkt { data_in = some (record d { origin = some o }); origin = o }))
      else err l3_type

  -- decodePayload, where the Packet has no Fragment.
  unfoldable pub decode_payload : Packet → List ℕ → Result Packet
  decode_payload pkt payload = do
    (de, rest) ← element payload
    pkt' ← decode_l3 pkt de.typ de.value
    _ ← err_unless_eof rest
    ok pkt'

  -- The state of decodeValue: the Packet, the local `fragment`, and whether pkt.Fragment points to it.
  pub record Decoding : Type 0 where
    pub pkt : Packet
    pub fragment_at : RxFragment
    pub is_fragment : Bool

  -- binary.BigEndian.Uint64 behind the test of the length.
  unfoldable pub decode_seq_num : List ℕ → Result ℕ
  decode_seq_num (a ∷ b ∷ c ∷ d ∷ e ∷ f ∷ g ∷ h ∷ []) = ok (join8 a b c d e f g h)
  decode_seq_num _ = err fragment

  -- `math.MaxInt32`
  abbrev pub max_i32 : ℕ
  max_i32 = 2147483647

  -- The loop over the elements of a Nack header.
  abbrev pub nack_step : ℕ → DecodingElement → Result ℕ
  nack_step reason de =
      if de.typ == 0x0321
      then unmarshal_nni de.value 255 range_error
      else if lp_is_critical de.typ
      then err critical
      else ok reason

  abbrev pub with_lp_of : Decoding → LpL3 → Decoding
  with_lp_of st lp = record st { pkt = record st.pkt { lp = lp } }

  abbrev pub with_fragment : Decoding → RxFragment → Decoding
  with_fragment st f = record st { fragment_at = f }

  -- The LpPayload in decodeValue, with the test of decodePayload on the Fragment.
  abbrev pub take_payload : Decoding → List ℕ → Result Decoding
  take_payload st value =
      if st.is_fragment
      then ok (with_fragment st (record st.fragment_at { payload = some value }))
      else (decode_payload st.pkt value >>= λ pkt. ok (record st { pkt = pkt }))

  -- The loop of decodeValue.
  abbrev pub lp_step : Decoding → DecodingElement → Result Decoding
  lp_step st de =
      if de.typ == 0x51
      then (decode_seq_num de.value >>= λ v.
          ok (with_fragment st (record st.fragment_at { seq_num = v })))
      else if de.typ == 0x52
      then (unmarshal_nni de.value max_i32 fragment >>= λ v.
          ok (with_fragment st (record st.fragment_at { frag_index = v })))
      else if de.typ == 0x53
      then (unmarshal_nni de.value max_i32 fragment >>= λ v.
          ok (record (with_fragment st (record st.fragment_at { frag_count = v })) {
            is_fragment = st.is_fragment || ltb 1 v;
          }))
      else if de.typ == 0x62
      then ok (with_lp_of st (record st.pkt.lp { pit_token = de.value }))
      else if de.typ == 0x0320
      then (decode_fields nack_step nack_unspecified de.value >>= λ v.
          ok (with_lp_of st (record st.pkt.lp { nack_reason = v })))
      else if de.typ == 0x0340
      then (unmarshal_nni de.value 255 range_error >>= λ v.
          ok (with_lp_of st (record st.pkt.lp { cong_mark = v })))
      else if de.typ == 0x50
      then take_payload st de.value
      else if lp_is_critical de.typ
      then err critical
      else ok st

  abbrev pub share_origin : Origin → Option Data → Option Data
  share_origin o none = none
  share_origin o (some d) = some (record d { origin = some o })

  -- The Packet that decodeValue leaves: its Data points to it, and its Fragment to `fragment`.
  abbrev pub finish : Decoding → Packet
  finish st = record st.pkt {
    fragment_in = if st.is_fragment then some st.fragment_at else none;
    data_in = share_origin st.pkt.origin st.pkt.data_in;
  }

  abbrev pub start_value : Decoding
  start_value = record {
    pkt = no_packet;
    fragment_at = record { seq_num = 0; frag_index = 0; frag_count = 1; payload = none };
    is_fragment = false;
  }

  -- decodeValue; the test on the indices is in front of that on the end of the buffer.
  unfoldable pub decode_value : List ℕ → Result Packet
  decode_value value = do
    (list, rest) ← Decode.elements value
    st ← decode_each lp_step start_value list
    if leb st.fragment_at.frag_count st.fragment_at.frag_index
        then err fragment
        else (err_unless_eof rest >>= λ _. ok (finish st))

  -- UnmarshalTLV
  unfoldable pub unmarshal_packet : ℕ → List ℕ → Result Packet
  unmarshal_packet typ value =
      if not (typ == 0x64) then decode_l3 no_packet typ value else decode_value value
