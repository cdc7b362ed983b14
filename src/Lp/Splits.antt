-- ===== src/Lp/Splits.antt =====
-- ndn/lp.go: Fragment on a packet whose header leaves room for a payload.
use containernet_ndn_dpdk.Shared.{
  ℕ, suc, ◌+◌, ◌-◌, ◌%◌, ◌^◌, ◌≤◌, ◌<◌, ◌≡◌, refl, sym, ap, ◌∙◌, subst, ◌⊎◌, inl, inr, List, [],
  ◌∷◌, ◌++◌, append-nil, arith, lt_or_le, length, take, drop, take-append-drop, length-take,
  length-drop, ok,
}
use containernet_ndn_dpdk.Shared.Int.{pos, ◌-ℤ◌}
use containernet_ndn_dpdk.Lp.{
  LpL3, Packet, LpFragmenter, number, split_payload, encode_l3, fragment_packet,
}
use containernet_ndn_dpdk.Lp.Frames.{
  payloads, headers, payloads-number, raw_payloads-chunks, headers-number-chunks, chunks-IsWithin,
  IsNumbered, AllFrom, number-IsNumbered, length-number, length-chunks,
}

pub fragment_short :
    (fr : LpFragmenter) (full : Packet) (header payload : List ℕ) (lp : LpL3) (room : ℕ)
    → fr.room ≡ pos room
    → encode_l3 full ≡ ok (header, payload, lp)
    → length header + length payload < room
    → fragment_packet fr full ≡ ok (record full { lp = lp } ∷ [], fr)
unfolding fragment_packet ◌-ℤ◌
fragment_short fr full header payload lp room r e short = ground (arith, r, e)

pub fragment_long :
    (fr : LpFragmenter) (full : Packet) (header payload : List ℕ) (lp : LpL3) (room : ℕ)
    → fr.room ≡ pos room
    → encode_l3 full ≡ ok (header, payload, lp)
    → length header < room
    → room ≤ length header + length payload
    → fragment_packet fr full
      ≡ ok (
        number fr.next_seq_num 0
            (length (split_payload lp header payload (room - length header) room))
            (split_payload lp header payload (room - length header) room),
        record fr {
          next_seq_num =
              (fr.next_seq_num
                + length (split_payload lp header payload (room - length header) room))
              % 2 ^ 64;
        },
      )
unfolding fragment_packet ◌-ℤ◌
fragment_long fr full header payload lp room r e some_room long = ground (arith, r, e)

-- The fragments of a packet with `header` and `payload` in `frags`, numbered from `seq`.
pub record IsSplit (room seq : ℕ) (header payload : List ℕ) (frags : List Packet) : Type 0 where
  pub payload_whole : payloads frags ≡ payload
  pub header_whole : headers frags ≡ header
  pub numbered : AllFrom (IsNumbered room (length frags) seq) 0 frags
  pub few : length frags ≤ suc (length payload)

pub split_payload-IsSplit :
    (lp : LpL3) (header payload : List ℕ) (room seq : ℕ)
    → length header < room
    → seq < 2 ^ 64
    → (let frags = split_payload lp header payload (room - length header) room in
        IsSplit room seq header payload (number seq 0 (length frags) frags))
split_payload-IsSplit lp header payload room seq some_room small =
    let first = room - length header in
    let frags = split_payload lp header payload first room in
    record {
      payload_whole =
          payloads-number frags seq 0 (length frags)
          ∙ ap (λ t. take first payload ++ t)
              (raw_payloads-chunks (length payload) room (drop first payload) (omega arith)
                (omega (arith, length-drop first payload)))
          ∙ take-append-drop first payload;
      header_whole =
          unfold number in
          ap (λ t. header ++ t)
            (headers-number-chunks (length payload) room (drop first payload) ((seq + 1) % 2 ^ 64) 1
              (length frags))
          ∙ append-nil header;
      numbered =
          subst (λ n. AllFrom (IsNumbered room n seq) 0 (number seq 0 (length frags) frags))
            (sym (length-number frags seq 0 (length frags)))
            (number-IsNumbered frags room seq seq 0 (length frags)
              (
                omega (arith, length-take first payload),
                chunks-IsWithin (length payload) room (drop first payload),
              )
              (omega arith) (omega arith));
      few = omega (
        arith,
        length-number frags seq 0 (length frags),
        length-chunks (length payload) room (drop first payload) (omega arith),
        length-drop first payload,
      );
    }

-- Where the header leaves room for a payload, Fragment succeeds. A packet that fits stays whole;
-- otherwise the fragments hold the header and the payload, in order and nothing else, each within the
-- room, with its index, the count of all, and sequence numbers modulo 2 ^ 64 that follow each other,
-- behind which the fragmenter goes on.
pub fragment_splits :
    (fr : LpFragmenter) (full : Packet) (header payload : List ℕ) (lp : LpL3) (room : ℕ)
    → fr.room ≡ pos room
    → fr.next_seq_num < 2 ^ 64
    → encode_l3 full ≡ ok (header, payload, lp)
    → length header < room
    → (frags : List Packet) × (next : ℕ) × (fragment_packet fr full
        ≡ ok (frags, record fr { next_seq_num = next }))
      × ((length header + length payload < room)
            × (frags ≡ record full { lp = lp } ∷ [])
            × (next ≡ fr.next_seq_num)
          ⊎ (room ≤ length header + length payload)
            × IsSplit room fr.next_seq_num header payload frags
            × (next ≡ (fr.next_seq_num + length frags) % 2 ^ 64))
fragment_splits fr full header payload lp room r small e some_room =
    elim (lt_or_le (length header + length payload) room) [
      | inl short ↦ (
        record full { lp = lp } ∷ [],
        fr.next_seq_num,
        fragment_short fr full header payload lp room r e short,
        inl (short, refl, refl),
      )
      | inr long ↦
          let frags = split_payload lp header payload (room - length header) room in
          (
            number fr.next_seq_num 0 (length frags) frags,
            (fr.next_seq_num + length frags) % 2 ^ 64,
            fragment_long fr full header payload lp room r e some_room long,
            inr (
              long,
              split_payload-IsSplit lp header payload room fr.next_seq_num some_room small,
              ap (λ n. (fr.next_seq_num + n) % 2 ^ 64)
                  (sym (length-number frags fr.next_seq_num 0 (length frags))),
            ),
          )
    ]
