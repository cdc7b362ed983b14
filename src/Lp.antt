-- ===== src/Lp.antt =====
-- ndn/lp.go, and the encoding of ndn/packet.go: the NDNLPv2 header, packets with it, and their
-- fragmentation. A layer 3 packet is given by the Field that its `Field` method returns.
pub mod Frames
pub mod Splits
pub mod Fits
pub mod Mtu
use containernet_ndn_dpdk.Shared.{
  ℕ, zero, suc, ◌+◌, ◌%◌, ◌^◌, bit_and, Bool, ◌||◌, ◌&&◌, is_empty, not, Option, none, some, List,
  [], ◌∷◌, ltb, leb, ◌==◌, if◌then◌else◌, length, take, drop, Result, ok, err, panic, error_field,
  fragment, ◌>>=◌,
}
use containernet_ndn_dpdk.Shared.Int.{ℤ, pos, pos_part, sub_ℕ, ◌-ℤ◌, ltb_ℤ, leb_ℤ}
use containernet_ndn_dpdk.Tlv.VarNum.{bytes8}
use containernet_ndn_dpdk.Tlv.Encode.{
  Field, Fields, nil, cons, one, failure, bytes, tlv, tlv_bytes, tlv_nni, encode_all,
}

-- 1 + 3 of the LpPacket, 1 + 1 + 8 of LpSeqNum, 1 + 1 + 2 of FragIndex and of FragCount, and 1 + 3 of
-- LpPayload.
abbrev pub fragment_overhead : ℕ
fragment_overhead = 26

-- lpIsCritical
pub lp_is_critical : ℕ → Bool
lp_is_critical typ = ltb typ 800 || ltb 959 typ || not (bit_and typ 0x03 == 0)

pub record LpL3 : Type 0 where
  pub pit_token : List ℕ
  pub nack_reason : ℕ
  pub cong_mark : ℕ

abbrev pub no_lp : LpL3
no_lp = record { pit_token = []; nack_reason = 0; cong_mark = 0 }

-- LpL3.Empty
pub lp_empty : LpL3 → Bool
lp_empty lp = is_empty lp.pit_token && lp.nack_reason == 0 && lp.cong_mark == 0

-- LpL3.encode
abbrev pub token_fields : List ℕ → Fields → Fields
token_fields [] rest = rest
token_fields (x ∷ token) rest = cons (tlv_bytes 0x62 (x ∷ token)) rest

abbrev pub nack_fields : ℕ → Fields → Fields
nack_fields reason rest =
    if reason == 0
    then rest
    else if reason == 255
    then cons (tlv 0x0320 nil) rest
    else cons (tlv 0x0320 (one (tlv_nni 0x0321 reason))) rest

unfoldable pub encode_lp : LpL3 → Fields
encode_lp lp = token_fields lp.pit_token (
    nack_fields lp.nack_reason
      (if lp.cong_mark == 0 then nil else one (tlv_nni 0x0340 lp.cong_mark)))

-- LpL3.inheritFrom
unfoldable pub inherit_from : LpL3 → LpL3 → LpL3
inherit_from lp src = record lp { pit_token = src.pit_token; cong_mark = src.cong_mark }

pub record LpFragment : Type 0 where
  pub seq_num : ℕ
  pub frag_index : ℕ
  pub frag_count : ℕ
  pub header : List ℕ
  pub payload : List ℕ

-- LpFragment.Field
abbrev pub fragment_fields : LpFragment → Fields
fragment_fields frag = cons (tlv_bytes 0x51 (bytes8 frag.seq_num)) (
    cons (tlv_nni 0x52 frag.frag_index) (
      cons (tlv_nni 0x53 frag.frag_count)
        (cons (bytes frag.header) (one (tlv_bytes 0x50 frag.payload)))))

unfoldable pub fragment_field : LpFragment → Field
fragment_field frag =
    if leb frag.frag_count frag.frag_index
    then failure fragment
    else tlv 0x64 (fragment_fields frag)

-- The Interest, Data and Nack of a Packet, of which one is not nil, or none.
pub data L3 : Type 0 where
  interest_field data_field : Field → L3
  nack_field : ℕ → Field → L3
  no_l3 : L3

pub record Packet : Type 0 where
  pub lp : LpL3
  pub l3 : L3
  pub frag : Option LpFragment

-- The end of encodeL3: the header, the payload, and the header fields with the NackReason that was set.
abbrev pub encode_with : LpL3 → Field → Result (List ℕ × List ℕ × LpL3)
encode_with lp f = encode_all (one f) >>= λ payload.
    encode_all (encode_lp lp) >>= λ header. ok (header, payload, lp)

-- Packet.encodeL3
unfoldable pub encode_l3 : Packet → Result (List ℕ × List ℕ × LpL3)
encode_l3 pkt = elim pkt.l3 [
  | interest_field f ↦ encode_with (record pkt.lp { nack_reason = 0 }) f
  | data_field f ↦ encode_with (record pkt.lp { nack_reason = 0 }) f
  | nack_field reason f ↦ encode_with (record pkt.lp { nack_reason = reason }) f
  | no_l3 ↦ err fragment
]

abbrev pub frame_field : List ℕ → List ℕ → Field
frame_field [] payload = bytes payload
frame_field (x ∷ header) payload =
    tlv 0x64 (cons (bytes (x ∷ header)) (one (tlv_bytes 0x50 payload)))

-- Packet.Field
unfoldable pub packet_field : Packet → Field
packet_field pkt = elim pkt.frag [
  | some f ↦ fragment_field f
  | none ↦ elim (encode_l3 pkt) [
    | ok (header, payload, lp) ↦ frame_field header payload
    | err e ↦ failure e
    | panic ↦ failure error_field
  ]
]

pub record LpFragmenter : Type 0 where
  pub next_seq_num : ℕ
  pub room : ℤ

-- NewLpFragmenter, with the random number that is drawn.
pub new_lp_fragmenter : ℕ → ℕ → LpFragmenter
new_lp_fragmenter draw mtu = record { next_seq_num = draw; room = sub_ℕ mtu fragment_overhead }

-- A fragment before it is numbered.
abbrev pub raw : List ℕ → List ℕ → LpFragment
raw header payload = record {
  seq_num = 0;
  frag_index = 0;
  frag_count = 0;
  header = header;
  payload = payload;
}

-- The loop of Fragment over the payload behind the first fragment, with fuel. A round takes `room`
-- bytes, which is not 0 there, so the length of the payload is fuel enough.
unfoldable pub chunks : ℕ → ℕ → List ℕ → List (LpL3 × LpFragment)
chunks zero room payload = []
chunks (suc fuel) room [] = []
chunks (suc fuel) room (x ∷ payload) =
    (no_lp, raw [] (take room (x ∷ payload))) ∷ chunks fuel room (drop room (x ∷ payload))

-- The loop of Fragment that numbers the fragments.
unfoldable pub number : ℕ → ℕ → ℕ → List (LpL3 × LpFragment) → List Packet
number seq i n [] = []
number seq i n ((lp, f) ∷ frags) =
    record {
      lp = lp;
      l3 = no_l3;
      frag = some (record f { seq_num = seq; frag_index = i; frag_count = n });
    }
    ∷ number ((seq + 1) % 2 ^ 64) (suc i) n frags

abbrev pub split_payload : LpL3 → List ℕ → List ℕ → ℕ → ℕ → List (LpL3 × LpFragment)
split_payload lp header payload first room =
    (lp, raw header (take first payload)) ∷ chunks (length payload) room (drop first payload)

-- LpFragmenter.Fragment: the fragments, and the fragmenter with its next sequence number.
unfoldable pub fragment_packet : LpFragmenter → Packet → Result (List Packet × LpFragmenter)
fragment_packet fragmenter full = encode_l3 full >>= λ (header, payload, lp).
    let first = fragmenter.room -ℤ pos (length header) in
    if ltb_ℤ (pos (length payload)) first
    then ok (record full { lp = lp } ∷ [], fragmenter)
    else if leb_ℤ first (pos 0)
    then err fragment
    else let frags = split_payload lp header payload (pos_part first) (pos_part fragmenter.room) in
      ok (
        number fragmenter.next_seq_num 0 (length frags) frags,
        record fragmenter { next_seq_num = (fragmenter.next_seq_num + length frags) % 2 ^ 64 },
      )
