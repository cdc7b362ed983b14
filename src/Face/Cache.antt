-- ===== src/Face/Cache.antt =====
-- ndn/lp.go: LpReassembler on one fragment, with the laws of its cache.
use containernet_ndn_dpdk.Shared.{
  ℕ, suc, ◌≡◌, refl, sym, ap, ◌∙◌, ◌≢◌, ◌⊎◌, inl, inr, Bool, true, false, Option, none, some, List,
  arith, ◌==◌, if◌then◌else◌, ==_iff, Bool-cases, ok,
}
use containernet_ndn_dpdk.Lp.{LpL3}
use containernet_ndn_dpdk.Packet.{Packet, RxFragment}
use containernet_ndn_dpdk.Reassembler.{
  PartialPacket, no_partial, Verdict, accept_partial, Lru, LpReassembler, partial_at, first_seq,
  stored, accept,
}

-- What the code relies on of simplelru.LRU, of a capacity of 1 or more: the keys that it holds, with their
-- values. Add may evict other keys.
pub record LruLaws {ℓ} {S : Type ℓ} (lru : Lru S) : Type ℓ where
  pub holds : S → ℕ → Option ℕ
  pub get_is : (s : S) (k : ℕ) → (lru.lru_get s k).0 ≡ holds s k
  pub holds_get : (s : S) (k j : ℕ) → holds (lru.lru_get s k).1 j ≡ holds s j
  pub holds_add : (s : S) (k h : ℕ) → holds (lru.lru_add s k h) k ≡ some h
  pub holds_add_other :
      (s : S) (k h j : ℕ) → j ≢ k → holds s j ≡ none → holds (lru.lru_add s k h) j ≡ none
  pub holds_remove : (s : S) (k : ℕ) → holds (lru.lru_remove s k) k ≡ none
  pub holds_remove_other : (s : S) (k j : ℕ) → j ≢ k → holds (lru.lru_remove s k) j ≡ holds s j

differ : (a b : ℕ) → a == b ≡ false → a ≢ b
differ a b e = ground (arith, e)

==-refl : (a : ℕ) → a == a ≡ true
==-refl a = ground arith

module _ {ℓ} {S : Type ℓ} (lru : Lru S) (laws : LruLaws lru) (sha256 : List ℕ → List ℕ)
    (known : ℕ → Bool) where
  -- No packet is in reassembly.
  abbrev pub IsIdle : LpReassembler S → Type 0
  IsIdle r = (k : ℕ) → laws.holds r.pms k ≡ none

  -- The only packet in reassembly is that of `seq`.
  pub record IsBusy (seq : ℕ) (pp : PartialPacket) (r : LpReassembler S) : Type 0 where
    pub handle : ℕ
    pub there : laws.holds r.pms seq ≡ some handle
    pub others : (k : ℕ) → k ≢ seq → laws.holds r.pms k ≡ none
    pub pointed : r.objs handle ≡ pp

  abbrev pub Accepted : ℕ → PartialPacket → Verdict → LpReassembler S → Type 0
  Accepted seq pp v r = if v.discard then IsIdle r else IsBusy seq pp r

  -- The pointer that is there, and the one that is made.
  partial_at-some :
      (r : LpReassembler S) (seq h : ℕ) (g : Option ℕ × S)
      → g.0 ≡ some h
      → partial_at lru sha256 known r seq g ≡ (h, record r { pms = g.1 })
  partial_at-some r seq h (some j, s) e =
      let same : j ≡ h = cc in ap (λ k. (k, record r { pms = s })) same
  partial_at-some r seq h (none, s) e = cc

  abbrev made : LpReassembler S → ℕ → S → LpReassembler S
  made r seq s = record {
    pms = lru.lru_add s seq r.n_objs;
    objs = λ h. if h == r.n_objs then no_partial else r.objs h;
    n_objs = suc r.n_objs;
  }

  partial_at-none :
      (r : LpReassembler S) (seq : ℕ) (g : Option ℕ × S)
      → g.0 ≡ none
      → partial_at lru sha256 known r seq g ≡ (r.n_objs, made r seq g.1)
  partial_at-none r seq (some j, s) e = cc
  partial_at-none r seq (none, s) e = refl

  stored-Accepted :
      (r : LpReassembler S) (seq h : ℕ) (pp : PartialPacket) (v : Verdict)
      → laws.holds r.pms seq ≡ some h
      → ((k : ℕ) → k ≢ seq → laws.holds r.pms k ≡ none)
      → Accepted seq pp v (stored lru sha256 known r seq h pp v)
  stored-Accepted r seq h pp v there others = elim (Bool-cases v.discard) [
    | inl drops ↦ rw drops (λ k. elim (Bool-cases (k == seq)) [
      | inl same ↦ rw ((==_iff k seq).0 same) (laws.holds_remove r.pms seq)
      | inr other ↦
          laws.holds_remove_other r.pms seq k (differ k seq other) ∙ others k (differ k seq other)
    ])
    | inr keeps ↦
        rw keeps
          (record { handle = h; there = there; others = others; pointed = rw (==-refl h) refl })
  ]

  module _ (f : RxFragment) (lp : LpL3) (seq : ℕ) (numbered : first_seq lru sha256 known f ≡ seq)
      (r : LpReassembler S) (pp pp' : PartialPacket) (v : Verdict)
      (one : accept_partial sha256 known pp lp f ≡ ok (pp', v)) where
    pub accept-busy :
        IsBusy seq pp r
        → (r' : LpReassembler S) × (accept lru sha256 known r lp f ≡ ok (r', v.full, v.failed))
          × Accepted seq pp' v r'
    unfolding accept
    accept-busy b =
        let pms = (lru.lru_get r.pms seq).1 in
        let at : LpReassembler S = record r { pms = pms } in
        (
          stored lru sha256 known at seq b.handle pp' v,
          rw
              (
                numbered,
                partial_at-some r seq b.handle (lru.lru_get r.pms seq)
                    (laws.get_is r.pms seq ∙ b.there),
                b.pointed,
                one,
              )
              refl,
          stored-Accepted at seq b.handle pp' v (laws.holds_get r.pms seq seq ∙ b.there)
              (λ k other. laws.holds_get r.pms seq k ∙ b.others k other),
        )

    pub accept-idle :
        IsIdle r
        → pp ≡ no_partial
        → (r' : LpReassembler S) × (accept lru sha256 known r lp f ≡ ok (r', v.full, v.failed))
          × Accepted seq pp' v r'
    unfolding accept
    accept-idle idle new =
        let pms = (lru.lru_get r.pms seq).1 in
        let at = made r seq pms in
        (
          stored lru sha256 known at seq r.n_objs pp' v,
          rw
              (
                numbered,
                partial_at-none r seq (lru.lru_get r.pms seq) (laws.get_is r.pms seq ∙ idle seq),
                ==-refl r.n_objs,
                sym new,
                one,
              )
              refl,
          stored-Accepted at seq r.n_objs pp' v (laws.holds_add pms seq r.n_objs) (λ k other.
              laws.holds_add_other pms seq r.n_objs k other (laws.holds_get r.pms seq k ∙ idle k)),
        )

  -- The state of the reassembler in front of a fragment of the packet of `seq`.
  abbrev pub IsReady : ℕ → PartialPacket → LpReassembler S → Type 0
  IsReady seq pp r = IsIdle r × (pp ≡ no_partial) ⊎ IsBusy seq pp r

  pub accept-ready :
      (f : RxFragment) (lp : LpL3) (seq : ℕ) (r : LpReassembler S) (pp pp' : PartialPacket)
      (v : Verdict)
      → first_seq lru sha256 known f ≡ seq
      → accept_partial sha256 known pp lp f ≡ ok (pp', v)
      → IsReady seq pp r
      → (r' : LpReassembler S) × (accept lru sha256 known r lp f ≡ ok (r', v.full, v.failed))
        × Accepted seq pp' v r'
  accept-ready f lp seq r pp pp' v numbered one ready = elim ready [
    | inl (idle, new) ↦ accept-idle f lp seq numbered r pp pp' v one idle new
    | inr busy ↦ accept-busy f lp seq numbered r pp pp' v one busy
  ]

  abbrev pub delivers : Packet → Verdict
  delivers pkt = record { full = some pkt; discard = true; failed = none }
