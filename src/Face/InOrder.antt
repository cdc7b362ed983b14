-- ===== src/Face/InOrder.antt =====
-- ndn/lp.go: LpReassembler on the fragments of one packet, which come one after the other.
use containernet_ndn_dpdk.Shared.{
  ℕ, zero, suc, ◌+◌, ◌^◌, ◌<◌, ◌≡◌, refl, ap, ◌∙◌, inr, Bool, Option, none, some, List, [], ◌∷◌,
  ◌++◌, arith, length, replicate, ok, >>=-eq-ok,
}
use containernet_ndn_dpdk.Lp.{LpL3}
use containernet_ndn_dpdk.Packet.{Packet, no_packet, unmarshal_packet}
use containernet_ndn_dpdk.Tlv.Decode.{decode}
use containernet_ndn_dpdk.Reassembler.{
  PartialPacket, waiting, accept_partial, Lru, LpReassembler, first_seq, accept,
}
use containernet_ndn_dpdk.Reassembler.Complete.{frag_at, lp_at, accept_all}
use containernet_ndn_dpdk.Face.{rx_wire, rx_loop}
use containernet_ndn_dpdk.Face.Cache.{LruLaws, IsIdle, IsReady, accept-ready, delivers}

-- The indices from i on, n of them.
abbrev pub range : ℕ → ℕ → List ℕ
range i zero = []
range i (suc n) = i ∷ range (suc i) n

module _ (sha256 : List ℕ → List ℕ) (known : ℕ → Bool) (lp : LpL3) (ps : List (List ℕ))
    (seq : ℕ) where
  -- Wires that are decoded to the fragments from index i on.
  abbrev pub IsFrames : ℕ → List (List ℕ) → Type 0
  IsFrames i [] = i ≡ length ps
  IsFrames i (w ∷ ws) =
      (decode w (unmarshal_packet sha256 known)
        ≡ ok (record no_packet { lp = lp_at lp i; fragment_in = some (frag_at seq ps i) }))
      × IsFrames (suc i) ws

module _ (sha256 : List ℕ → List ℕ) (known : ℕ → Bool) (lp : LpL3) (ps : List (List ℕ))
    (seq : ℕ) where
  pub length-frames :
      (i : ℕ) (ws : List (List ℕ))
      → IsFrames sha256 known lp ps seq i ws
      → i + length ws ≡ length ps
  length-frames i [] h = omega (arith, h)
  length-frames i (w ∷ ws) (hw, h) = omega (arith, length-frames (suc i) ws h)

module _ {ℓ} {S : Type ℓ} (lru : Lru S) (laws : LruLaws lru) (sha256 : List ℕ → List ℕ)
    (known : ℕ → Bool) where
  module _ (lp : LpL3) (ps : List (List ℕ)) (seq : ℕ) (small : seq < 2 ^ 64) where
    numbered_at : (i : ℕ) → first_seq lru sha256 known (frag_at seq ps i) ≡ seq
    numbered_at i = omega (arith, small)

    rx_step :
        (w : List ℕ) (i : ℕ) (r r' : LpReassembler S) (full : Option Packet)
        → decode w (unmarshal_packet sha256 known)
          ≡ ok (record no_packet { lp = lp_at lp i; fragment_in = some (frag_at seq ps i) })
        → accept lru sha256 known r (lp_at lp i) (frag_at seq ps i) ≡ ok (r', full, none)
        → rx_wire lru sha256 known r w ≡ ok (r', full)
    unfolding rx_wire
    rx_step w i r r' full d a = rw (d, a) refl

    -- The loop of rxLoop on the fragments, where Accept waits until the last one.
    pub rx_frames :
        (n : ℕ) (ws : List (List ℕ)) (i : ℕ) (pp : PartialPacket) (r : LpReassembler S)
        (pkt : Packet)
        → length ws ≡ suc n
        → accept_all sha256 known lp ps seq pp (range i (length ws))
          ≡ ok (replicate n waiting ++ (delivers lru laws sha256 known pkt ∷ []))
        → IsReady lru laws sha256 known seq pp r
        → IsFrames sha256 known lp ps seq i ws
        → (r' : LpReassembler S) × (rx_loop lru sha256 known r ws ≡ ok (r', pkt ∷ []))
          × IsIdle lru laws sha256 known r'
    unfolding rx_loop accept_all
    rx_frames n [] i pp r pkt long e ready frames = absurd (omega (arith, long))
    rx_frames zero (w ∷ []) i pp r pkt long e ready (fw, frames) =
        let ((pp', v), one, e') =
          >>=-eq-ok (accept_partial sha256 known pp (lp_at lp i) (frag_at seq ps i)) _ e in
        let same : v ≡ delivers lru laws sha256 known pkt = cc in
        let (r', taken, idle) =
          accept-ready lru laws sha256 known (frag_at seq ps i) (lp_at lp i) seq r pp pp' v
            (numbered_at i) one ready in
        (r', rw (rx_step w i r r' (some pkt) fw (rw same at taken)) refl, (rw same at idle))
    rx_frames zero (w ∷ w' ∷ ws) i pp r pkt long e ready frames = absurd (omega (arith, long))
    rx_frames (suc n) (w ∷ ws) i pp r pkt long e ready (fw, frames) =
        let ((pp', v), one, e') =
          >>=-eq-ok (accept_partial sha256 known pp (lp_at lp i) (frag_at seq ps i)) _ e in
        let (vs, rest, e'') =
          >>=-eq-ok (accept_all sha256 known lp ps seq pp' (range (suc i) (length ws))) _ e' in
        let same : v ≡ waiting = cc in
        let others : vs ≡ replicate n waiting ++ (delivers lru laws sha256 known pkt ∷ []) = cc in
        let (r', taken, busy) =
          accept-ready lru laws sha256 known (frag_at seq ps i) (lp_at lp i) seq r pp pp' v
            (numbered_at i) one ready in
        let (last, ran, idle) =
          rx_frames n ws (suc i) pp' r' pkt (omega (arith, long)) (rest ∙ ap ok others)
            (inr (rw same at busy)) frames in
        (last, rw (rx_step w i r r' none fw (rw same at taken), ran) refl, idle)
