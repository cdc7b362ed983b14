-- ===== src/Face/Sent.antt =====
-- ndn/l3/face.go: the frames that txLoop makes of a packet.
use containernet_ndn_dpdk.Shared.{
  ℕ, zero, suc, ◌+◌, ◌%◌, ◌^◌, ◌≤◌, ◌<◌, ◌≡◌, refl, sym, ap, ◌∙◌, subst, inl, inr, Bool, true,
  false, some, List, [], ◌∷◌, ◌++◌, append_assoc, arith, ◌==◌, Bool-cases, length, get_elem?, set,
  drop, replicate, length-append, ok,
}
use containernet_ndn_dpdk.Tlv.Nni.RoundTrip
use containernet_ndn_dpdk.Tlv.VarNum.{bytes8}
use containernet_ndn_dpdk.Tlv.Element.{Element}
use containernet_ndn_dpdk.Tlv.Element.Wire.{wire_of}
use containernet_ndn_dpdk.Tlv.Decode.{decode}
use containernet_ndn_dpdk.Tlv.Decode.RoundTrip.{encoding_of, decode_alone}
use containernet_ndn_dpdk.Tlv.Encode.{join}
use containernet_ndn_dpdk.Tlv.Encode.Writes.{tlv_of, nni_of, tlv_of-IsElement}
use containernet_ndn_dpdk.Lp
use containernet_ndn_dpdk.Lp.{LpL3, no_l3, no_lp, LpFragment, number, chunks}
use containernet_ndn_dpdk.Lp.Frames.{raw_payloads}
use containernet_ndn_dpdk.Packet.{RxFragment, no_packet, unmarshal_packet, max_i32}
use containernet_ndn_dpdk.Reassembler.Masks.{Visits, count}
use containernet_ndn_dpdk.Reassembler.Complete.{frag_at, lp_at}
use containernet_ndn_dpdk.Face.{tx_frames}
use containernet_ndn_dpdk.Face.Header.{lp_elems, lp_header, IsLp, lp_elems-append, wire_of-short}
use containernet_ndn_dpdk.Face.Frame.{
  fragment_elems, frame_of, fragment_wire, decode_value-fragment,
}
use containernet_ndn_dpdk.Face.InOrder.{range, IsFrames}

-- The parts of a payload before they are numbered.
abbrev pub parts_of : List (LpL3 × LpFragment) → List (List ℕ)
parts_of [] = []
parts_of ((lp, f) ∷ cs) = f.payload ∷ parts_of cs

pub join-parts_of : (cs : List (LpL3 × LpFragment)) → join (parts_of cs) ≡ raw_payloads cs
join-parts_of [] = refl
join-parts_of ((lp, f) ∷ cs) = ap (λ t. f.payload ++ t) (join-parts_of cs)

pub length-parts_of : (cs : List (LpL3 × LpFragment)) → length (parts_of cs) ≡ length cs
length-parts_of [] = refl
length-parts_of (c ∷ cs) = ap suc (length-parts_of cs)

-- Index 0 comes with the header, and no other one does.
abbrev pub IsHeaded : LpL3 → ℕ → List (LpL3 × LpFragment) → Type 0
IsHeaded lp i [] = Unit {0}
IsHeaded lp i ((l, f) ∷ cs) = (f.header ≡ lp_header (lp_at lp i)) × IsHeaded lp (suc i) cs

later : (lp : LpL3) (i : ℕ) → lp_at lp (suc i) ≡ no_lp
later lp i = ground arith

pub IsHeaded-chunks :
    (fuel room : ℕ) (payload : List ℕ) (lp : LpL3) (i : ℕ)
    → IsHeaded lp (suc i) (chunks fuel room payload)
unfolding chunks
IsHeaded-chunks zero room payload lp i = tt
IsHeaded-chunks (suc fuel) room [] lp i = tt
IsHeaded-chunks (suc fuel) room (x ∷ payload) lp i =
    (rw (later lp i) refl, IsHeaded-chunks fuel room (drop room (x ∷ payload)) lp (suc i))

get_elem?-append :
    (before : List (List ℕ)) (p : List ℕ) (after : List (List ℕ))
    → get_elem? (before ++ (p ∷ after)) (length before) ≡ some p
get_elem?-append [] p after = refl
get_elem?-append (x ∷ before) p after = get_elem?-append before p after

no_lp-IsLp : IsLp no_lp
no_lp-IsLp = record {
  token_short = omega arith;
  reason_bound = omega arith;
  mark_bound = omega arith;
}

lp_at-IsLp : (lp : LpL3) (i : ℕ) → IsLp lp → IsLp (lp_at lp i)
lp_at-IsLp lp i h = elim (Bool-cases (i == 0)) [
  | inl first ↦ rw first h
  | inr later ↦ rw later no_lp-IsLp
]

lp_at-short :
    (lp : LpL3) (i : ℕ) → length (lp_header lp) < 2 ^ 62 → length (lp_header (lp_at lp i)) < 2 ^ 62
lp_at-short lp i h = elim (Bool-cases (i == 0)) [
  | inl first ↦ rw first h
  | inr later ↦ rw later (omega arith)
]

-- The value of a frame is short enough for its TLV-LENGTH to be an int.
pub frame_short :
    (lp : LpL3) (f : RxFragment) (part : List ℕ)
    → length (lp_header lp) < 2 ^ 62
    → length part < 2 ^ 61
    → length (encoding_of (fragment_elems lp f part) []) < 2 ^ 63
frame_short lp f part h k =
    let rest : List Element = tlv_of 0x50 part ∷ [] in
    omega (
      arith,
      wire_of-short (tlv_of 0x51 (bytes8 f.seq_num)),
      wire_of-short (nni_of 0x52 f.frag_index),
      RoundTrip.length-encode f.frag_index,
      RoundTrip.size-le f.frag_index,
      wire_of-short (nni_of 0x53 f.frag_count),
      RoundTrip.length-encode f.frag_count,
      RoundTrip.size-le f.frag_count,
      ap length (lp_elems-append lp rest),
      length-append (lp_header lp) (encoding_of rest []),
      wire_of-short (tlv_of 0x50 part),
      length-append (wire_of (tlv_of 0x50 part)) [],
      length-append (wire_of (tlv_of 0x51 (bytes8 f.seq_num))) (
          wire_of (nni_of 0x52 f.frag_index)
          ++ (wire_of (nni_of 0x53 f.frag_count) ++ encoding_of (lp_elems lp rest) [])),
      length-append (wire_of (nni_of 0x52 f.frag_index))
          (wire_of (nni_of 0x53 f.frag_count) ++ encoding_of (lp_elems lp rest) []),
      length-append (wire_of (nni_of 0x53 f.frag_count)) (encoding_of (lp_elems lp rest) []),
    )

-- The indices of the fragments visit each of them once.
set_next :
    (k m : ℕ)
    → set (replicate k true ++ replicate (suc m) false) k true
      ≡ replicate (suc k) true ++ replicate m false
set_next zero m = refl
set_next (suc k) m = ap (λ t. true ∷ t) (set_next k m)

missing_next : (k m : ℕ) → get_elem? (replicate k true ++ replicate (suc m) false) k ≡ some false
missing_next zero m = refl
missing_next (suc k) m = missing_next k m

all_there : (k : ℕ) → count (replicate k true ++ []) ≡ length (replicate k true ++ [])
all_there zero = refl
all_there (suc k) = ap suc (all_there k)

Visits-from : (k m : ℕ) → Visits (replicate k true ++ replicate m false) (range k m)
Visits-from k zero = all_there k
Visits-from k (suc m) = (
  missing_next k m,
  subst (λ bits. Visits bits (range (suc k) m)) (sym (set_next k m)) (Visits-from (suc k) m),
)

pub Visits-range : (n : ℕ) → Visits (replicate n false) (range 0 n)
Visits-range n = Visits-from 0 n

module _ (sha256 : List ℕ → List ℕ) (known : ℕ → Bool) where
  -- A frame of a numbered fragment, on the wire and decoded.
  frame_decodes :
      (lp : LpL3) (f : RxFragment) (part : List ℕ)
      → IsLp lp
      → length (lp_header lp) < 2 ^ 62
      → length part < 2 ^ 61
      → f.seq_num < 2 ^ 64
      → f.frag_index < f.frag_count
      → 1 < f.frag_count
      → f.frag_count ≤ max_i32 sha256 known
      → f.payload ≡ some part
      → decode (wire_of (frame_of (fragment_elems lp f part))) (unmarshal_packet sha256 known)
        ≡ ok (record no_packet { lp = lp; fragment_in = some f })
  unfolding unmarshal_packet
  frame_decodes lp f part h header_short part_short seq_bound inside many count_bound whole =
      decode_alone (frame_of (fragment_elems lp f part)) (unmarshal_packet sha256 known)
        (tlv_of-IsElement 0x64 _ refl (frame_short lp f part header_short part_short))
      ∙ decode_value-fragment sha256 known lp f part h (omega (arith, part_short)) seq_bound inside
          many count_bound whole

  -- The frames of the numbered parts of a payload.
  module _ (lp : LpL3) (ps : List (List ℕ)) (seq : ℕ) (good : IsLp lp)
      (header_short : length (lp_header lp) < 2 ^ 62) (many : 1 < length ps)
      (few : length ps ≤ max_i32 sha256 known) where
    pub IsFrames-number :
        (before : List (List ℕ)) (k : ℕ) (cs : List (LpL3 × LpFragment)) (s : ℕ)
        → length before ≡ k
        → ps ≡ before ++ parts_of cs
        → s ≡ (seq + k) % 2 ^ 64
        → IsHeaded lp k cs
        → length (raw_payloads cs) < 2 ^ 61
        → IsFrames sha256 known lp ps seq k (tx_frames (number s k (length ps) cs))
    unfolding number tx_frames
    IsFrames-number before k [] s e whole at headed short =
        omega (arith, e, ap length whole, length-append before [])
    IsFrames-number before k ((l, f) ∷ cs) s e whole at (hf, headed) short =
        let f' : LpFragment = record f { seq_num = s; frag_index = k; frag_count = length ps } in
        let p : Lp.Packet = record { lp = l; l3 = no_l3; frag = some f' } in
        let rx : RxFragment = record {
          seq_num = s;
          frag_index = k;
          frag_count = length ps;
          payload = some f.payload;
        } in
        let inside : k < length ps =
          omega (arith, e, ap length whole, length-append before (f.payload ∷ parts_of cs)) in
        let mine : get_elem? ps k ≡ some f.payload =
          rw (whole, sym e) (get_elem?-append before f.payload (parts_of cs)) in
        let same : frag_at seq ps k ≡ rx = rw (mine, sym at) refl in
        let sum = length-append f.payload (raw_payloads cs) in
        rw (fragment_wire p f' (lp_at lp k) refl hf inside) (
          frame_decodes (lp_at lp k) rx f.payload (lp_at-IsLp lp k good)
                (lp_at-short lp k header_short) (omega (arith, short, sum)) (omega (arith, at))
                inside many few refl
              ∙ ap (λ x. ok (record no_packet { lp = lp_at lp k; fragment_in = some x }))
                  (sym same),
          IsFrames-number (before ++ (f.payload ∷ [])) (suc k) cs ((s + 1) % 2 ^ 64)
              (omega (arith, e, length-append before (f.payload ∷ [])))
              (whole ∙ sym (append_assoc before (f.payload ∷ []) (parts_of cs))) (omega (arith, at))
              headed (omega (arith, short, sum)),
        )
