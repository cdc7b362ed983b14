-- ===== src/Reassembler.antt =====
-- ndn/lp.go: the reassembly of fragments. The partial packets are in an LRU cache of a third-party package,
-- which is a parameter; it holds pointers, which are handles into `objs`.
pub mod Masks
pub mod Complete
use containernet_ndn_dpdk.Shared.{
  ℕ, suc, ◌+◌, ◌-◌, ◌%◌, ◌^◌, Bool, true, false, not, Option, none, some, List, [], ◌∷◌, ◌++◌, ltb,
  leb, ◌==◌, if◌then◌else◌, length, get_elem?, set, replicate, Error, Result, ok, err, panic,
  fragment, ◌>>=◌,
}
use containernet_ndn_dpdk.Lp.{LpL3, no_lp}
use containernet_ndn_dpdk.Packet.{Packet, no_packet, RxFragment, decode_payload}

-- lpPartialPacket; a nil slice in the buffer is none.
pub record PartialPacket : Type 0 where
  pub lpl3 : LpL3
  pub buffer : List (Option (List ℕ))
  pub accepted : ℕ

abbrev pub no_partial : PartialPacket
no_partial = record { lpl3 = no_lp; buffer = []; accepted = 0 }

-- What Accept returns: the full packet, `discard` and the error.
pub record Verdict : Type 0 where
  pub full : Option Packet
  pub discard : Bool
  pub failed : Option Error

abbrev pub waiting : Verdict
waiting = record { full = none; discard = false; failed = none }

-- acceptOne, which panics where the index is past the buffer.
pub accept_one : PartialPacket → LpL3 → RxFragment → Result PartialPacket
accept_one pp lp f =
    if ltb f.frag_index (length pp.buffer)
    then ok (record {
      lpl3 = if f.frag_index == 0 then lp else pp.lpl3;
      buffer = set pp.buffer f.frag_index f.payload;
      accepted = suc pp.accepted;
    })
    else panic

-- bytes.Join(pp.buffer, nil)
abbrev pub join_parts : List (Option (List ℕ)) → List ℕ
join_parts [] = []
join_parts (none ∷ parts) = join_parts parts
join_parts (some p ∷ parts) = p ++ join_parts parts

abbrev pub is_there : Option (Option (List ℕ)) → Bool
is_there none = false
is_there (some none) = false
is_there (some (some p)) = true

module _ (sha256 : List ℕ → List ℕ) (known : ℕ → Bool) where
  abbrev pub verdict_of : Result Packet → Result Verdict
  verdict_of (ok pkt) = ok (record { full = some pkt; discard = true; failed = none })
  verdict_of (err e) = ok (record { full = none; discard = true; failed = some e })
  verdict_of panic = panic

  -- reassemble, as what Accept returns of it.
  pub reassemble : PartialPacket → Result Verdict
  reassemble pp =
      verdict_of
        (decode_payload sha256 known (record no_packet { lp = pp.lpl3 }) (join_parts pp.buffer))

  abbrev pub accept_first : PartialPacket → LpL3 → RxFragment → Result (PartialPacket × Verdict)
  accept_first pp lp f =
      accept_one (record pp { buffer = replicate f.frag_count none }) lp f >>= λ pp'.
      ok (pp', waiting)

  abbrev pub accept_next : PartialPacket → LpL3 → RxFragment → Result (PartialPacket × Verdict)
  accept_next pp lp f = accept_one pp lp f >>= λ pp'.
      if pp'.accepted == length pp'.buffer
      then (reassemble pp' >>= λ v. ok (pp', v))
      else ok (pp', waiting)

  -- lpPartialPacket.Accept
  pub accept_partial : PartialPacket → LpL3 → RxFragment → Result (PartialPacket × Verdict)
  accept_partial pp lp f =
      if pp.accepted == 0
      then accept_first pp lp f
      else if not (f.frag_count == length pp.buffer)
      then ok (pp, record { full = none; discard = true; failed = some fragment })
      else if leb (length pp.buffer) f.frag_index
      then panic
      else if is_there (get_elem? pp.buffer f.frag_index)
      then ok (pp, record { full = none; discard = false; failed = some fragment })
      else accept_next pp lp f

-- The operations of simplelru.LRU; Get also changes the order of use.
pub record Lru {ℓ} (S : Type ℓ) : Type ℓ where
  pub lru_get : S → ℕ → Option ℕ × S
  pub lru_add : S → ℕ → ℕ → S
  pub lru_remove : S → ℕ → S

-- LpReassembler, with the partial packets that its cache points to, in the order of their making.
pub record LpReassembler {ℓ} (S : Type ℓ) : Type ℓ where
  pub pms : S
  pub objs : ℕ → PartialPacket
  pub n_objs : ℕ

-- NewLpReassembler, with the cache of the given capacity.
unfoldable pub new_lp_reassembler {ℓ} : {S : Type ℓ} → (ℕ → S) → ℕ → LpReassembler S
new_lp_reassembler new_lru capacity = record {
  pms = new_lru capacity;
  objs = λ h. no_partial;
  n_objs = 0;
}

module _ {ℓ} {S : Type ℓ} (lru : Lru S) (sha256 : List ℕ → List ℕ) (known : ℕ → Bool) where
  -- The pointer to the partial packet of a sequence number, which is made if there is none.
  abbrev pub partial_at : LpReassembler S → ℕ → Option ℕ × S → ℕ × LpReassembler S
  partial_at r seq0 (some h, pms) = (h, record r { pms = pms })
  partial_at r seq0 (none, pms) = (
    r.n_objs,
    record {
      pms = lru.lru_add pms seq0 r.n_objs;
      objs = λ h. if h == r.n_objs then no_partial else r.objs h;
      n_objs = suc r.n_objs;
    },
  )

  -- The sequence number of fragment 0, on uint64.
  abbrev pub first_seq : RxFragment → ℕ
  first_seq f = (f.seq_num + (2 ^ 64 - f.frag_index % 2 ^ 64)) % 2 ^ 64

  abbrev pub stored : LpReassembler S → ℕ → ℕ → PartialPacket → Verdict → LpReassembler S
  stored r seq0 h pp v = record r {
    pms = if v.discard then lru.lru_remove r.pms seq0 else r.pms;
    objs = λ j. if j == h then pp else r.objs j;
  }

  -- LpReassembler.Accept, of a packet by its header and its fragment.
  unfoldable pub accept :
      LpReassembler S → LpL3 → RxFragment → Result (LpReassembler S × Option Packet × Option Error)
  accept r lp f =
      let seq0 = first_seq f in
      let (h, r') = partial_at r seq0 (lru.lru_get r.pms seq0) in
      accept_partial sha256 known (r'.objs h) lp f >>= λ (pp, v).
      ok (stored r' seq0 h pp v, v.full, v.failed)
