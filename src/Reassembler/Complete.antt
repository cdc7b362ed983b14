-- ===== src/Reassembler/Complete.antt =====
-- ndn/lp.go: lpPartialPacket.Accept on the fragments of one packet, in any order.
use containernet_ndn_dpdk.Shared.{
  ℕ, zero, suc, ◌+◌, ◌-◌, ◌%◌, ◌^◌, ◌≤◌, ◌<◌, ◌≡◌, refl, sym, ap, ◌∙◌, ◌≢◌, Bool, true, false, none,
  some, List, [], ◌∷◌, ◌++◌, arith, ◌==◌, if◌then◌else◌, lt→ltb, length, get_elem?, get_or, set,
  replicate, length-replicate, Result, ok, err, panic, ◌>>=◌,
}
use containernet_ndn_dpdk.Tlv.Encode.{join}
use containernet_ndn_dpdk.Lp.{LpL3, no_lp}
use containernet_ndn_dpdk.Packet.{no_packet, RxFragment, decode_payload}
use containernet_ndn_dpdk.Reassembler.{
  PartialPacket, no_partial, Verdict, waiting, accept_one, verdict_of, reassemble, accept_partial,
  accept_next, is_there,
}
use containernet_ndn_dpdk.Reassembler.Masks.{
  mask, count, Visits, length-set, count-set, in_range, length-mask, set-mask, is_there-mask,
  join_parts-mask, first_of_full, mask-replicate, count-replicate, first-set, count-lt-length,
  length_visited,
}

-- The fragment of a packet by its index, and the header that it comes with.
abbrev pub frag_at : ℕ → List (List ℕ) → ℕ → RxFragment
frag_at seq ps i = record {
  seq_num = (seq + i) % 2 ^ 64;
  frag_index = i;
  frag_count = length ps;
  payload = get_elem? ps i;
}

abbrev pub lp_at : LpL3 → ℕ → LpL3
lp_at lp i = if i == 0 then lp else no_lp

-- A partial packet with these fragments.
pub record Holds (lp : LpL3) (ps : List (List ℕ)) (bits : List Bool) (pp : PartialPacket)
    : Type 0 where
  pub same_length : length bits ≡ length ps
  pub buffer_is : pp.buffer ≡ mask bits ps
  pub accepted_is : pp.accepted ≡ count bits
  pub lp_is : pp.lpl3 ≡ (if get_or bits 0 false then lp else no_lp)

-- The partial packet after one more.
abbrev pub after_one : PartialPacket → LpL3 → List (List ℕ) → ℕ → PartialPacket
after_one pp lp ps i = record {
  lpl3 = if i == 0 then lp_at lp i else pp.lpl3;
  buffer = set pp.buffer i (get_elem? ps i);
  accepted = suc pp.accepted;
}

module _ (lp : LpL3) (ps : List (List ℕ)) (seq : ℕ) (bits : List Bool) (i : ℕ) (pp : PartialPacket)
    (missing : get_elem? bits i ≡ some false) (h : Holds lp ps bits pp) where
  inside : i < length pp.buffer
  inside =
      rw (h.buffer_is, length-mask bits ps h.same_length)
        (omega (arith, in_range bits i missing, h.same_length))

  pub accept_one_lem : accept_one pp (lp_at lp i) (frag_at seq ps i) ≡ ok (after_one pp lp ps i)
  unfolding accept_one
  accept_one_lem = rw (lt→ltb i (length pp.buffer) inside)

  pub after_one-Holds : Holds lp ps (set bits i true) (after_one pp lp ps i)
  after_one-Holds = record {
    same_length = length-set bits i true ∙ h.same_length;
    buffer_is =
        ap (λ b. set b i (get_elem? ps i)) h.buffer_is ∙ set-mask bits ps i missing h.same_length;
    accepted_is = ap suc h.accepted_is ∙ sym (count-set bits i missing);
    lp_is = rw (first-set bits i missing, h.lp_is) (ground arith);
  }

module _ (sha256 : List ℕ → List ℕ) (known : ℕ → Bool) (lp : LpL3) (ps : List (List ℕ))
    (seq : ℕ) where
  -- Accept on fragments, one after the other, with what it returns.
  unfoldable pub accept_all : PartialPacket → List ℕ → Result (List Verdict)
  accept_all pp [] = ok []
  accept_all pp (i ∷ order) =
      accept_partial sha256 known pp (lp_at lp i) (frag_at seq ps i) >>= λ (pp', v).
      accept_all pp' order >>= λ vs. ok (v ∷ vs)

  -- What decoding makes of the whole payload.
  abbrev pub whole_packet : Result Verdict
  whole_packet =
      verdict_of sha256 known (decode_payload sha256 known (record no_packet { lp = lp }) (join ps))

  pub reassemble_full :
      (bits : List Bool) (pp : PartialPacket)
      → 0 < length ps
      → count bits ≡ length bits
      → Holds lp ps bits pp
      → reassemble sha256 known pp ≡ whole_packet
  unfolding reassemble
  reassemble_full bits pp some_parts full h = rw (
    h.buffer_is,
    h.lp_is,
    join_parts-mask bits ps full h.same_length,
    first_of_full bits (omega (arith, some_parts, h.same_length)) full,
  )

  module _ (bits : List Bool) (i : ℕ) (pp : PartialPacket) (missing : get_elem? bits i ≡ some false)
      (h : Holds lp ps bits pp) where
    accept_next_waits :
        count (set bits i true) ≢ length ps
        → accept_next sha256 known pp (lp_at lp i) (frag_at seq ps i)
          ≡ ok (after_one pp lp ps i, waiting)
    accept_next_waits more =
        let k = after_one-Holds lp ps seq bits i pp missing h in
        rw
          (
            accept_one_lem lp ps seq bits i pp missing h,
            k.accepted_is,
            k.buffer_is,
            length-mask (set bits i true) ps k.same_length,
          )
          (ground (arith, more))

    accept_next_ends :
        count (set bits i true) ≡ length ps
        → 0 < length ps
        → accept_next sha256 known pp (lp_at lp i) (frag_at seq ps i)
          ≡ (whole_packet >>= λ v. ok (after_one pp lp ps i, v))
    accept_next_ends all some_parts =
        let k = after_one-Holds lp ps seq bits i pp missing h in
        rw
          (
            accept_one_lem lp ps seq bits i pp missing h,
            reassemble_full (set bits i true) (after_one pp lp ps i) some_parts
                (all ∙ sym k.same_length) k,
            k.accepted_is,
            k.buffer_is,
            length-mask (set bits i true) ps k.same_length,
          )
          (ground (arith, all))

    accept_partial_next :
        count bits ≢ 0
        → accept_partial sha256 known pp (lp_at lp i) (frag_at seq ps i)
          ≡ accept_next sha256 known pp (lp_at lp i) (frag_at seq ps i)
    unfolding accept_partial
    accept_partial_next begun = ground (
      arith,
      h.accepted_is,
      begun,
      inside lp ps seq bits i pp missing h,
      is_there_lem,
      length_lem,
    )
      where
        length_lem : length pp.buffer ≡ length ps
        length_lem = ap length h.buffer_is ∙ length-mask bits ps h.same_length

        is_there_lem : is_there (get_elem? pp.buffer i) ≡ false
        is_there_lem = rw h.buffer_is (is_there-mask bits ps i missing)

  -- The verdicts on n fragments, of which the last one completes the packet.
  abbrev pub verdicts : ℕ → Result (List Verdict)
  verdicts n = whole_packet >>= λ v. ok (replicate n waiting ++ (v ∷ []))

  one_verdict :
      (r : Result Verdict) (pp : PartialPacket)
      → ((r >>= λ v. ok (pp, v)) >>= λ (pp', v). accept_all pp' [] >>= λ vs. ok (v ∷ vs))
        ≡ (r >>= λ v. ok (v ∷ []))
  unfolding accept_all
  one_verdict (ok v) pp = refl
  one_verdict (err e) pp = refl
  one_verdict panic pp = refl

  wait_first :
      (n : ℕ) (r : Result Verdict)
      → ((r >>= λ v. ok (replicate n waiting ++ (v ∷ []))) >>= λ vs. ok (waiting ∷ vs))
        ≡ (r >>= λ v. ok (replicate (suc n) waiting ++ (v ∷ [])))
  wait_first n (ok v) = refl
  wait_first n (err e) = refl
  wait_first n panic = refl

  -- From a partial packet with some fragments on.
  accept_rest :
      (bits : List Bool) (i : ℕ) (order : List ℕ) (pp : PartialPacket)
      → count bits ≢ 0
      → Visits bits (i ∷ order)
      → Holds lp ps bits pp
      → accept_all pp (i ∷ order) ≡ verdicts (length order)
  unfolding accept_all
  accept_rest bits i [] pp begun (missing, full) h =
      rw
        (
          accept_partial_next bits i pp missing h begun,
          accept_next_ends bits i pp missing h (full ∙ length-set bits i true ∙ h.same_length)
              (omega (arith, in_range bits i missing, h.same_length)),
        )
        (one_verdict whole_packet (after_one pp lp ps i))
  accept_rest bits i (j ∷ order) pp begun (missing, rest) h =
      let bits' = set bits i true in
      rw
        (
          accept_partial_next bits i pp missing h begun,
          accept_next_waits bits i pp missing h (λ e. absurd (
              omega
                (arith, e, count-lt-length bits' j rest.0, length-set bits i true, h.same_length))),
          accept_rest bits' j order (after_one pp lp ps i)
              (λ e. absurd (omega (arith, e, count-set bits i missing))) rest
              (after_one-Holds lp ps seq bits i pp missing h),
        )
        (wait_first (length order) whole_packet)

  -- The start: no fragment has come, and the buffer is made.
  abbrev none_of : List Bool
  none_of = replicate (length ps) false

  abbrev empty_buffer : PartialPacket
  empty_buffer = record no_partial { buffer = replicate (length ps) none }

  nothing_yet : count none_of ≡ 0
  nothing_yet = count-replicate (length ps)

  first_missing : (n : ℕ) → get_or (replicate n false) 0 false ≡ false
  first_missing zero = refl
  first_missing (suc n) = refl

  started : Holds lp ps none_of empty_buffer
  started = record {
    same_length = length-replicate (length ps) false;
    buffer_is = sym (mask-replicate ps);
    accepted_is = sym nothing_yet;
    lp_is = rw (first_missing (length ps));
  }

  -- Accept on the fragments of a packet of two fragments or more, which come in any order with each index
  -- once and the header with index 0: it waits until the last one has come, and then returns what
  -- decodePayload makes of the header and the joined payloads.
  pub accept_all_reassembles :
      (order : List ℕ)
      → 2 ≤ length ps
      → Visits (replicate (length ps) false) order
      → accept_all no_partial order ≡ verdicts (length ps - 1)
  unfolding accept_all accept_partial
  accept_all_reassembles [] two full =
      absurd (omega (arith, two, full, nothing_yet, length-replicate (length ps) false))
  accept_all_reassembles (i ∷ []) two (missing, full) = absurd (
      omega (
        arith,
        two,
        full,
        nothing_yet,
        count-set none_of i missing,
        length-set none_of i true,
        length-replicate (length ps) false,
      ))
  accept_all_reassembles (i ∷ j ∷ order) two (missing, rest) =
      let others : suc (length order) ≡ length ps - 1 = omega (
        arith,
        length_visited none_of (i ∷ j ∷ order) (missing, rest),
        nothing_yet,
        length-replicate (length ps) false,
      ) in
      rw
        (
          accept_one_lem lp ps seq none_of i empty_buffer missing started,
          accept_rest (set none_of i true) j order (after_one empty_buffer lp ps i)
              (λ e. absurd (omega (arith, e, count-set none_of i missing))) rest
              (after_one-Holds lp ps seq none_of i empty_buffer missing started),
        )
        (wait_first (length order) whole_packet ∙ ap verdicts others)
