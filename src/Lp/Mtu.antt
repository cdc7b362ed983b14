-- ===== src/Lp/Mtu.antt =====
-- ndn/lp.go: NewLpFragmenter and Fragment against the MTU.
use containernet_ndn_dpdk.Shared.{
  ℕ, suc, ◌+◌, ◌-◌, ◌^◌, ◌≤◌, ◌<◌, ◌≡◌, subst, inl, inr, none, List, [], ◌∷◌, arith, length, All,
  ok,
}
use containernet_ndn_dpdk.Lp.{
  LpL3, Packet, LpFragmenter, encode_l3, fragment_packet, new_lp_fragmenter, fragment_overhead,
  packet_field,
}
use containernet_ndn_dpdk.Lp.Frames.{IsNumbered, AllFrom}
use containernet_ndn_dpdk.Lp.Splits.{fragment_splits}
use containernet_ndn_dpdk.Lp.Fits.{FitsIn, numbered-FitsIn, encode_l3-again, frame_field-FitsIn}

All-FitsIn :
    (frags : List Packet) (room n seq i : ℕ)
    → AllFrom (IsNumbered room n seq) i frags
    → n ≤ 65535
    → fragment_overhead + room ≤ 65535
    → All (FitsIn (fragment_overhead + room)) frags
All-FitsIn [] room n seq i h c k = tt
All-FitsIn (p ∷ frags) room n seq i (hp, hfrags) c k =
    (numbered-FitsIn p room n seq i hp c k, All-FitsIn frags room n seq (suc i) hfrags c k)

whole-FitsIn :
    (full : Packet) (header payload : List ℕ) (lp : LpL3) (room : ℕ)
    → full.frag ≡ none
    → encode_l3 full ≡ ok (header, payload, lp)
    → length header + length payload < room
    → fragment_overhead + room ≤ 65535
    → FitsIn (fragment_overhead + room) (record full { lp = lp })
unfolding packet_field
whole-FitsIn full header payload lp room plain e h k =
    rw (plain, encode_l3-again full header payload lp e)
      (frame_field-FitsIn header payload room h k)

-- With a fragmenter for an MTU of at most 65535, Fragment succeeds on a packet that is not itself a
-- fragment, whose header leaves room in the MTU and whose payload is shorter than 65535 bytes, and each
-- packet that it returns encodes to at most as many bytes as the MTU.
pub fragment_within_mtu :
    (draw mtu : ℕ) (full : Packet) (header payload : List ℕ) (lp : LpL3)
    → draw < 2 ^ 64
    → mtu ≤ 65535
    → full.frag ≡ none
    → encode_l3 full ≡ ok (header, payload, lp)
    → fragment_overhead + length header < mtu
    → length payload < 65535
    → (frags : List Packet) × (fr : LpFragmenter) × (fragment_packet
          (new_lp_fragmenter draw mtu)
          full
        ≡ ok (frags, fr))
      × All (FitsIn mtu) frags
unfolding new_lp_fragmenter
fragment_within_mtu draw mtu full header payload lp small m plain e some_room short =
    let fr = new_lp_fragmenter draw mtu in
    let room = mtu - fragment_overhead in
    let whole : fragment_overhead + room ≡ mtu = omega arith in
    let (frags, next, sent, how) =
      fragment_splits fr full header payload lp room (ground arith) small e (omega arith) in
    (
      frags,
      record fr { next_seq_num = next },
      sent,
      subst (λ n. All (FitsIn n) frags) whole
          (elim how [
            | inl (fits, one_packet, _) ↦
                rw one_packet
                  (whole-FitsIn full header payload lp room plain e fits (omega arith), tt)
            | inr (_, split, _) ↦
                All-FitsIn frags room (length frags) draw 0 split.numbered
                  (omega (arith, split.few)) (omega arith)
          ]),
    )
