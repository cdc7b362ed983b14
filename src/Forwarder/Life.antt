-- ===== src/Forwarder/Life.antt =====
-- ndn/l3/forwarder.go and fwface.go: AddFace, forwardDataNack and Close.
use containernet_ndn_dpdk.Shared.{
  [], ℕ, ◌^◌, ◌<◌, ◌≡◌, refl, sym, ◌∙◌, subst, ◌≢◌, inl, inr, none, some, List, ◌∷◌, arith, leb,
  ◌==◌, if◌then◌else◌, Bool-cases, Option-cases, length, All,
}
use containernet_ndn_dpdk.Shared.Assoc.{
  nat_eq, bytes_eq, lookup, delete, lookup-insert, lookup-delete,
}
use containernet_ndn_dpdk.Name.{Name}
use containernet_ndn_dpdk.Forwarder.Token.{
  token_insert_id, token_strip_id-token_insert_id, token_strip_id_short,
}
use containernet_ndn_dpdk.Forwarder.{
  Forwarder, Pkt, send, MultiMap, added, choose_id, add_face, enter, add_route, remove_route,
  add_announcement, remove_announcement_impl, withdraw_all, close, forward_data_nack, max_fw_faces,
}

-- Each active face is entered under its own id, which is a 32-bit number other than 0, and its handle
-- has been given out.
pub record IsWellFormed {M : Type 0} (fw : Forwarder M) : Type 0 where
  pub own_id : (i h : ℕ) → lookup i fw.faces ≡ some h → (fw.objs h).id ≡ i
  pub not_zero : (i h : ℕ) → lookup i fw.faces ≡ some h → i ≢ 0
  pub is_u32 : (i h : ℕ) → lookup i fw.faces ≡ some h → i < 2 ^ 32
  pub given : (i h : ℕ) → lookup i fw.faces ≡ some h → h < fw.next

module _ {M : Type 0} where
  choose_id_fresh :
      (fw : Forwarder M) (draws : List ℕ) (first id : ℕ)
      → All (λ d. d < 2 ^ 32) draws
      → first < 2 ^ 32
      → choose_id fw first draws ≡ some id
      → (id ≢ 0) × (id < 2 ^ 32) × (lookup id fw.faces ≡ none)
  unfolding choose_id
  choose_id_fresh fw [] first id hd h e = ground arith
  choose_id_fresh fw (d ∷ draws) first id (hd, hds) h e =
      ground (arith, choose_id_fresh fw draws d id hds hd)

  enter-IsWellFormed :
      (fw : Forwarder M) (id : ℕ)
      → IsWellFormed fw
      → id ≢ 0
      → id < 2 ^ 32
      → lookup id fw.faces ≡ none
      → IsWellFormed (enter fw id)
  enter-IsWellFormed fw id wf nz small free = record {
    own_id =
        λ i h e. ground (arith, lookup-insert id i fw.next fw.faces, wf.own_id i h, wf.given i h);
    not_zero = λ i h e. ground (arith, lookup-insert id i fw.next fw.faces, wf.not_zero i h);
    is_u32 = λ i h e. ground (arith, lookup-insert id i fw.next fw.faces, wf.is_u32 i h);
    given = λ i h e. ground (arith, lookup-insert id i fw.next fw.faces, wf.given i h);
  }

  added_inv : {a b : Forwarder M} {h k : ℕ} → added a h ≡ added b k → (a ≡ b) × (h ≡ k)
  added_inv e = (cc, cc)

  -- Where AddFace succeeds on a well-formed state, with 32-bit random numbers, there was room for a
  -- face, and the new one is entered under an id that was free; the state stays well formed.
  pub add_face-IsWellFormed :
      (fw fw' : Forwarder M) (draws : List ℕ) (h : ℕ)
      → IsWellFormed fw
      → All (λ d. d < 2 ^ 32) draws
      → add_face fw draws ≡ added fw' h
      → (id : ℕ) × (fw' ≡ enter fw id)
        × (h ≡ fw.next)
        × IsWellFormed fw'
        × (lookup id fw.faces ≡ none)
        × (length fw.faces < max_fw_faces)
  unfolding add_face
  add_face-IsWellFormed fw fw' draws h wf hd e =
      elim (Bool-cases (leb max_fw_faces (length fw.faces))) [
        | inl full ↦ cc (rw full at e)
        | inr room ↦ elim (Option-cases (choose_id fw 0 draws)) [
          | inl stuck ↦ cc (rw (room, stuck) at e)
          | inr (id, c) ↦
              let (same, k) = added_inv (rw (room, c) at e) in
              let (nz, small, free) = choose_id_fresh fw draws 0 id hd (omega arith) c in
              (
                id,
                sym same,
                sym k,
                subst IsWellFormed same (enter-IsWellFormed fw id wf nz small free),
                free,
                ground arith,
              )
        ]
      ]

  -- In a well-formed state, Data or a Nack with the token that tokenInsertID made for an active face
  -- goes to that face and no other, with the token from before the insertion.
  pub forward_data_nack_returns :
      (fw : Forwarder M) (h i : ℕ) (pkt : Pkt)
      → IsWellFormed fw
      → lookup i fw.faces ≡ some h
      → forward_data_nack fw
          (record pkt { pit_token = token_insert_id pkt.pit_token (fw.objs h).id })
        ≡ send h pkt ∷ []
  unfolding forward_data_nack
  forward_data_nack_returns fw h i pkt wf e = ground (
    arith,
    e,
    wf.own_id i h e,
    wf.is_u32 i h e,
    token_strip_id-token_insert_id pkt.pit_token (fw.objs h).id,
  )

  -- A packet whose token is shorter than an id is dropped, since no face has the id 0.
  pub forward_data_nack_short :
      (fw : Forwarder M) (pkt : Pkt)
      → IsWellFormed fw
      → length pkt.pit_token < 4
      → forward_data_nack fw pkt ≡ []
  unfolding forward_data_nack
  forward_data_nack_short fw pkt wf short = elim (Option-cases (lookup 0 fw.faces)) [
    | inl free ↦ ground (arith, token_strip_id_short pkt.pit_token short, free)
    | inr (h, e) ↦ absurd (wf.not_zero 0 h e refl)
  ]

  add_route-IsWellFormed :
      (fw : Forwarder M) (h : ℕ) (name : Name)
      → IsWellFormed fw
      → IsWellFormed (add_route fw h name)
  unfolding add_route
  add_route-IsWellFormed fw h name wf = record {
    own_id = λ i k e. ground (arith, wf.own_id i k);
    not_zero = wf.not_zero;
    is_u32 = wf.is_u32;
    given = wf.given;
  }

  remove_route-IsWellFormed :
      (fw : Forwarder M) (h : ℕ) (name : Name)
      → IsWellFormed fw
      → IsWellFormed (remove_route fw h name)
  unfolding remove_route
  remove_route-IsWellFormed fw h name wf = record {
    own_id = λ i k e. ground (arith, wf.own_id i k);
    not_zero = wf.not_zero;
    is_u32 = wf.is_u32;
    given = wf.given;
  }

  module _ (mm : MultiMap M) where
    add_announcement-IsWellFormed :
        (fw : Forwarder M) (h : ℕ) (name : Name)
        → IsWellFormed fw
        → IsWellFormed (add_announcement mm fw h name).0
    unfolding add_announcement
    add_announcement-IsWellFormed fw h name wf = record {
      own_id = λ i k e. ground (arith, wf.own_id i k);
      not_zero = wf.not_zero;
      is_u32 = wf.is_u32;
      given = wf.given;
    }

    withdraw_one-IsWellFormed :
        (fw : Forwarder M) (h : ℕ) (name : Name) (key : List ℕ)
        → IsWellFormed fw
        → IsWellFormed (remove_announcement_impl mm fw h name key).0
    unfolding remove_announcement_impl
    withdraw_one-IsWellFormed fw h name key wf = record {
      own_id = λ i k e. ground (arith, wf.own_id i k);
      not_zero = wf.not_zero;
      is_u32 = wf.is_u32;
      given = wf.given;
    }

    withdraw_one_keeps :
        (fw : Forwarder M) (h : ℕ) (name : Name) (key : List ℕ)
        → ((remove_announcement_impl mm fw h name key).0.faces ≡ fw.faces)
          × (((remove_announcement_impl mm fw h name key).0.objs h).id ≡ (fw.objs h).id)
    unfolding remove_announcement_impl
    withdraw_one_keeps fw h name key = (refl, ground arith)

    withdraw_all-IsWellFormed :
        (l : List (List ℕ × Name)) (fw : Forwarder M) (h : ℕ)
        → IsWellFormed fw
        → IsWellFormed (withdraw_all mm fw h l).0
          × ((withdraw_all mm fw h l).0.faces ≡ fw.faces)
          × (((withdraw_all mm fw h l).0.objs h).id ≡ (fw.objs h).id)
    unfolding withdraw_all
    withdraw_all-IsWellFormed [] fw h wf = (wf, refl, refl)
    withdraw_all-IsWellFormed ((key, name) ∷ l) fw h wf =
        let (wf', e, f) =
          withdraw_all-IsWellFormed l (remove_announcement_impl mm fw h name key).0 h
            (withdraw_one-IsWellFormed fw h name key wf) in
        let (e', f') = withdraw_one_keeps fw h name key in (wf', e ∙ e', f ∙ f')

    delete-IsWellFormed :
        (fw : Forwarder M) (i : ℕ)
        → IsWellFormed fw
        → IsWellFormed (record fw { faces = delete i fw.faces })
    delete-IsWellFormed fw i wf = record {
      own_id = λ j k e. ground (arith, lookup-delete i j fw.faces, wf.own_id j k);
      not_zero = λ j k e. ground (arith, lookup-delete i j fw.faces, wf.not_zero j k);
      is_u32 = λ j k e. ground (arith, lookup-delete i j fw.faces, wf.is_u32 j k);
      given = λ j k e. ground (arith, lookup-delete i j fw.faces, wf.given j k);
    }

    -- Closing an active face of a well-formed state keeps it well formed and takes exactly the id of
    -- that face out of the active faces.
    pub close-IsWellFormed :
        (fw : Forwarder M) (h i j : ℕ)
        → IsWellFormed fw
        → lookup i fw.faces ≡ some h
        → IsWellFormed (close mm fw h).0
          × (lookup j (close mm fw h).0.faces ≡ (if i == j then none else lookup j fw.faces))
    unfolding close
    close-IsWellFormed fw h i j wf e =
        let (wf', faces, id) = withdraw_all-IsWellFormed (fw.objs h).announced fw h wf in
        let fw' = (withdraw_all mm fw h (fw.objs h).announced).0 in
        let same : (fw'.objs h).id ≡ i = id ∙ wf.own_id i h e in
        (delete-IsWellFormed fw' (fw'.objs h).id wf', rw (same, faces) (lookup-delete i j fw.faces))
