-- ===== src/Forwarder/Announce.antt =====
-- ndn/l3/fwface.go: AddAnnouncement, RemoveAnnouncement, and the announcements of a closed face.
use containernet_ndn_dpdk.Shared.{
  [], ◌++◌, ℕ, ◌≡◌, refl, ◌≢◌, ◌↔◌, ◌⊎◌, inl, inr, Bool, true, false, ◌&&◌, not, Option, none, some,
  List, ◌∷◌, arith, ◌==◌, Bool-cases,
}
use containernet_ndn_dpdk.Shared.Assoc.{
  nat_eq, bytes_eq, lookup, lookup-insert, lookup-delete, beq_bytes_iff,
}
use containernet_ndn_dpdk.Name.{Name}
use containernet_ndn_dpdk.Forwarder.{
  Forwarder, Event, close_tx, advertise, withdraw, to_all, MultiMap, name_key, add_announcement,
  remove_announcement, remove_announcement_impl, withdraw_all, close,
}

abbrev pub is_some {ℓ} : {A : Type ℓ} → Option A → Bool
is_some (some a) = true
is_some none = false

module _ {M : Type 0} (mm : MultiMap M) where
  -- The multimap holds what the faces hold.
  abbrev pub Matches : Forwarder M → Type 0
  Matches fw =
      (h : ℕ) (key : List ℕ)
      → mm.contains fw.announcements key h ≡ is_some (lookup key (fw.objs h).announced)

  pub add_announcement-Matches :
      (fw : Forwarder M) (h : ℕ) (name : Name)
      → Matches fw
      → Matches (add_announcement mm fw h name).0
  unfolding add_announcement
  add_announcement-Matches fw h name ok_before g key = ground (
    arith,
    ok_before g key,
    mm.contains-put fw.announcements (name_key name) key h g,
    lookup-insert (name_key name) key name (fw.objs h).announced,
  )

  remove_impl-Matches :
      (fw : Forwarder M) (h : ℕ) (name : Name) (k : List ℕ)
      → Matches fw
      → Matches (remove_announcement_impl mm fw h name k).0
  unfolding remove_announcement_impl
  remove_impl-Matches fw h name k ok_before g key = ground (
    arith,
    ok_before g key,
    mm.contains-remove fw.announcements k key h g,
    lookup-delete k key (fw.objs h).announced,
  )

  no_face :
      (m : M) (key : List ℕ) → mm.contains_key m key ≡ false → (f : ℕ) → mm.contains m key f ≡ false
  no_face m key gone f = elim (Bool-cases (mm.contains m key f)) [
    | inl held ↦ cc (mm.contains_key_of m key f held)
    | inr free ↦ free
  ]

  -- AddAnnouncement advertises the name to every readvertise destination if no face announces it yet,
  -- and to none if some face does.
  pub add_announcement_tells :
      (fw : Forwarder M) (h : ℕ) (name : Name)
      → ((add_announcement mm fw h name).1 ≡ to_all advertise name fw.readvertise)
          × ((f : ℕ) → mm.contains fw.announcements (name_key name) f ≡ false)
        ⊎ ((add_announcement mm fw h name).1 ≡ [])
          × (f : ℕ) × (mm.contains fw.announcements (name_key name) f ≡ true)
  unfolding add_announcement
  add_announcement_tells fw h name =
      elim (Bool-cases (mm.contains_key fw.announcements (name_key name))) [
        | inl known ↦
            let (f, c) = mm.contains_key_some fw.announcements (name_key name) known in
            inr (rw known, f, c)
        | inr new ↦ inl (rw new, no_face fw.announcements (name_key name) new)
      ]

  -- RemoveAnnouncement withdraws the name from every readvertise destination if no face other than this
  -- one announces it, and from none if another face does.
  pub remove_announcement_tells :
      (fw : Forwarder M) (h : ℕ) (name : Name)
      → ((remove_announcement mm fw h name).1 ≡ to_all withdraw name fw.readvertise)
          × ((f : ℕ) → (mm.contains fw.announcements (name_key name) f && not (h == f)) ≡ false)
        ⊎ ((remove_announcement mm fw h name).1 ≡ [])
          × (f : ℕ) × (f ≢ h)
          × (mm.contains fw.announcements (name_key name) f ≡ true)
  unfolding remove_announcement remove_announcement_impl
  remove_announcement_tells fw h name =
      let key = name_key name in
      let m = mm.remove fw.announcements key h in
      elim (Bool-cases (mm.contains_key m key)) [
        | inl held ↦
            let (f, c) = mm.contains_key_some m key held in
            inr (
              rw held,
              f,
              ground (
                arith,
                c,
                mm.contains-remove fw.announcements key key h f,
                beq_bytes_iff key key,
              ),
              ground (arith, c, mm.contains-remove fw.announcements key key h f),
            )
        | inr gone ↦ inl (
          rw gone,
          λ f.
              ground (arith, no_face m key gone f, mm.contains-remove fw.announcements key key h f),
        )
      ]

  withdraw_all_contains :
      (l : List (List ℕ × Name)) (fw : Forwarder M) (h g : ℕ) (key : List ℕ)
      → mm.contains (withdraw_all mm fw h l).0.announcements key g
        ≡ (mm.contains fw.announcements key g && not (h == g && is_some (lookup key l)))
  unfolding withdraw_all remove_announcement_impl lookup
  withdraw_all_contains [] fw h g key = ground arith
  withdraw_all_contains ((k, name) ∷ l) fw h g key = ground (
    arith,
    withdraw_all_contains l (remove_announcement_impl mm fw h name k).0 h g key,
    mm.contains-remove fw.announcements k key h g,
  )

  -- Some face other than the one with the handle announces the name.
  abbrev pub HeldByOther : M → ℕ → List ℕ → Type 0
  HeldByOther m h key = (f : ℕ) × (f ≢ h) × (mm.contains m key f ≡ true)

  removed_key :
      (m : M) (h : ℕ) (key : List ℕ)
      → (mm.contains_key (mm.remove m key h) key ≡ false) × ¬ HeldByOther m h key
        ⊎ (mm.contains_key (mm.remove m key h) key ≡ true) × HeldByOther m h key
  removed_key m h key =
      let after = mm.remove m key h in
      elim (Bool-cases (mm.contains_key after key)) [
        | inl held ↦
            let (f, c) = mm.contains_key_some after key held in
            let before = mm.contains-remove m key key h f in
            inr (
              held,
              (f, ground (arith, c, before, beq_bytes_iff key key), ground (arith, c, before)),
            )
        | inr gone ↦ inl (
          gone,
          λ (f, other, c).
              ground (arith, no_face after key gone f, mm.contains-remove m key key h f, c, other),
        )
      ]

  -- The calls for the announcements of a face that closes: for each one in turn, Withdraw at every
  -- destination if no other face announces the name, and none if one does.
  pub data Withdrawn (m : M) (h : ℕ) (dests : List (ℕ × Bool))
      : List (List ℕ × Name) → List Event → Type 0 where
    nothing : Withdrawn m h dests [] []
    told :
        {key : List ℕ} {name : Name} {l : List (List ℕ × Name)} {out : List Event}
        → ¬ HeldByOther m h key
        → Withdrawn m h dests l out
        → Withdrawn m h dests ((key, name) ∷ l) (to_all withdraw name dests ++ out)
    kept :
        {key : List ℕ} {name : Name} {l : List (List ℕ × Name)} {out : List Event}
        → HeldByOther m h key
        → Withdrawn m h dests l out
        → Withdrawn m h dests ((key, name) ∷ l) out

  -- Only what the other faces announce counts, and the loop of Close leaves that as it is.
  other_before :
      (m : M) (h : ℕ) (k key : List ℕ) → HeldByOther (mm.remove m k h) h key ↔ HeldByOther m h key
  other_before m h k key = (
    λ (f, other, c). (f, other, ground (arith, mm.contains-remove m k key h f, c, other)),
    λ (f, other, c). (f, other, ground (arith, mm.contains-remove m k key h f, c, other)),
  )

  Withdrawn-remove :
      (m : M) (h : ℕ) (k : List ℕ) {dests : List (ℕ × Bool)} {l : List (List ℕ × Name)}
      {out : List Event}
      → Withdrawn (mm.remove m k h) h dests l out
      → Withdrawn m h dests l out
  Withdrawn-remove m h k nothing = nothing
  Withdrawn-remove m h k (told {key = key} free w) =
      told (λ held. free ((other_before m h k key).1 held)) (Withdrawn-remove m h k w)
  Withdrawn-remove m h k (kept {key = key} held w) =
      kept ((other_before m h k key).0 held) (Withdrawn-remove m h k w)

  withdraw_all-Withdrawn :
      (l : List (List ℕ × Name)) (fw : Forwarder M) (h : ℕ)
      → Withdrawn fw.announcements h fw.readvertise l (withdraw_all mm fw h l).1
  unfolding withdraw_all remove_announcement_impl
  withdraw_all-Withdrawn [] fw h = nothing
  withdraw_all-Withdrawn ((k, name) ∷ l) fw h =
      let rest =
        Withdrawn-remove fw.announcements h k
          (withdraw_all-Withdrawn l (remove_announcement_impl mm fw h name k).0 h) in
      elim (removed_key fw.announcements h k) [
        | inl (gone, free) ↦ rw gone (told free rest)
        | inr (stays, held) ↦ rw stays (kept held rest)
      ]

  -- Where the multimap holds what the faces announce, closing a face takes back its announcements, all
  -- of them, and those of no other face. For each of them in turn every readvertise destination is told to
  -- withdraw the name, unless another face announces it too; then the channel of the face is closed.
  pub close_withdraws :
      (fw : Forwarder M) (h : ℕ)
      → Matches fw
      → ((g : ℕ) (key : List ℕ)
          → mm.contains (close mm fw h).0.announcements key g
            ≡ (mm.contains fw.announcements key g && not (h == g)))
        × (out : List Event) × Withdrawn fw.announcements h fw.readvertise (fw.objs h).announced out
        × ((close mm fw h).1 ≡ out ++ close_tx h ∷ [])
  unfolding close
  close_withdraws fw h ok_before = (
    λ g key. ground (
      arith,
      withdraw_all_contains (fw.objs h).announced fw h g key,
      ok_before g key,
      ok_before h key,
    ),
    _,
    withdraw_all-Withdrawn (fw.objs h).announced fw h,
    refl,
  )
