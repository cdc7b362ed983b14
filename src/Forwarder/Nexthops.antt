-- ===== src/Forwarder/Nexthops.antt =====
-- ndn/l3/forwarder.go: forwardInterest, and lpmRoute of ndn/l3/fwface.go.
use containernet_ndn_dpdk.Shared.{
  [], All, ℕ, ◌≤◌, ◌≡◌, refl, ◌≢◌, ◌⊎◌, inl, inr, Bool, true, false, ◌&&◌, not, List, ◌∷◌, ◌++◌,
  append-nil, append_assoc, arith, ltb, ◌==◌, if◌then◌else◌, Bool-cases, length,
}
use containernet_ndn_dpdk.Shared.Int.{ℤ, pos, negsuc}
use containernet_ndn_dpdk.Name.{Name, is_prefix_of}
use containernet_ndn_dpdk.Forwarder.{
  Forwarder, Pkt, send_all, lpm_route, consider, choose_nexthops, forward_interest,
}

-- A match length as `lpmRoute` returns it: whether it is `n`, and the larger of it and `low`.
abbrev pub is_len : ℤ → ℕ → Bool
is_len (pos m) n = m == n
is_len (negsuc m) n = false

abbrev pub grow : ℕ → ℤ → ℕ
grow low (pos m) = if ltb low m then m else low
grow low (negsuc m) = low

-- An entry of an association list.
abbrev pub Listed : {A : Type 0} → A → List A → Type 0
Listed a [] = ⊥
Listed a (x ∷ xs) = (x ≡ a) ⊎ Listed a xs

module _ {M : Type 0} (fw : Forwarder M) (rx : ℕ) (name : Name) where
  abbrev pub score : ℕ → ℤ
  score h = lpm_route (fw.objs h).routes name

  -- The faces, other than the one received from, whose match has the length `best`.
  pub select : ℕ → List (ℕ × ℕ) → List ℕ
  select best [] = []
  select best ((id, h) ∷ faces) =
      let rest = select best faces in
      if not (rx == h) && is_len (score h) best then h ∷ rest else rest

  -- The largest of `low` and the matches of the faces other than the one received from.
  pub best_match : ℕ → List (ℕ × ℕ) → ℕ
  best_match low [] = low
  best_match low ((id, h) ∷ faces) = best_match (if rx == h then low else grow low (score h)) faces

  low-le-best : (faces : List (ℕ × ℕ)) (low : ℕ) → low ≤ best_match low faces
  unfolding best_match
  low-le-best [] low = omega arith
  low-le-best ((id, h) ∷ faces) low = ground (
    arith,
    low-le-best faces (if rx == h then low else grow low (score h)),
    low-le-best faces low,
  )

  -- What the loop makes of the rest of the faces.
  abbrev after_loop : ℕ → List ℕ → List (ℕ × ℕ) → ℤ × List ℕ
  after_loop low acc faces = (
    pos (best_match low faces),
    if best_match low faces == low
        then acc ++ select low faces
        else select (best_match low faces) faces,
  )

  choose-cons :
      (id h low : ℕ) (faces : List (ℕ × ℕ)) (acc : List ℕ)
      → choose_nexthops fw rx name ((id, h) ∷ faces) (pos low, acc)
        ≡ choose_nexthops fw rx name faces
            (if rx == h then (pos low, acc) else consider (score h) h (pos low, acc))
  unfolding choose_nexthops
  choose-cons id h low faces acc = refl

  best-cons :
      (id h low : ℕ) (faces : List (ℕ × ℕ))
      → best_match low ((id, h) ∷ faces)
        ≡ best_match (if rx == h then low else grow low (score h)) faces
  unfolding best_match
  best-cons id h low faces = refl

  select-cons :
      (id h best : ℕ) (faces : List (ℕ × ℕ))
      → select best ((id, h) ∷ faces) ≡ (
          if not (rx == h) && is_len (score h) best
          then h ∷ select best faces
          else select best faces)
  unfolding select
  select-cons id h best faces = refl

  -- A face that cannot be chosen.
  skip_face :
      (id h low : ℕ) (faces : List (ℕ × ℕ)) (acc : List ℕ)
      → (rx ≡ h) ⊎ ((rx ≢ h) × (n : ℕ) × (score h ≡ negsuc n))
      → choose_nexthops fw rx name faces (pos low, acc) ≡ after_loop low acc faces
      → choose_nexthops fw rx name ((id, h) ∷ faces) (pos low, acc)
        ≡ after_loop low acc ((id, h) ∷ faces)
  skip_face id h low faces acc why ih = ground (
    arith,
    choose-cons id h low faces acc,
    best-cons id h low faces,
    select-cons id h low faces,
    select-cons id h (best_match low faces) faces,
  )

  -- A face with a match of length `m`.
  take_face :
      (id h low m : ℕ) (faces : List (ℕ × ℕ)) (acc : List ℕ)
      → rx ≢ h
      → score h ≡ pos m
      → choose_nexthops fw rx name faces (pos low, acc) ≡ after_loop low acc faces
      → choose_nexthops fw rx name faces (pos low, acc ++ (h ∷ []))
        ≡ after_loop low (acc ++ (h ∷ [])) faces
      → choose_nexthops fw rx name faces (pos m, h ∷ []) ≡ after_loop m (h ∷ []) faces
      → choose_nexthops fw rx name ((id, h) ∷ faces) (pos low, acc)
        ≡ after_loop low acc ((id, h) ∷ faces)
  take_face id h low m faces acc other e ih ih' ih'' = ground (
    arith,
    choose-cons id h low faces acc,
    best-cons id h low faces,
    select-cons id h low faces,
    select-cons id h (best_match low faces) faces,
    select-cons id h (best_match m faces) faces,
    low-le-best faces low,
    low-le-best faces m,
    append_assoc acc (h ∷ []) (select low faces),
  )

  scored :
      (z : ℤ) (id h low : ℕ) (faces : List (ℕ × ℕ)) (acc : List ℕ)
      → ((l : ℕ) (a : List ℕ) → choose_nexthops fw rx name faces (pos l, a) ≡ after_loop l a faces)
      → score h ≡ z
      → rx ≢ h
      → choose_nexthops fw rx name ((id, h) ∷ faces) (pos low, acc)
        ≡ after_loop low acc ((id, h) ∷ faces)
  scored (pos m) id h low faces acc ih e other =
      take_face id h low m faces acc other e (ih low acc) (ih low (acc ++ (h ∷ []))) (ih m (h ∷ []))
  scored (negsuc n) id h low faces acc ih e other =
      skip_face id h low faces acc (inr (other, n, e)) (ih low acc)

  choose_nexthops_lem :
      (faces : List (ℕ × ℕ)) (low : ℕ) (acc : List ℕ)
      → choose_nexthops fw rx name faces (pos low, acc) ≡ after_loop low acc faces
  choose_nexthops_lem [] low acc =
      unfold choose_nexthops best_match select in ground (arith, append-nil acc)
  choose_nexthops_lem ((id, h) ∷ faces) low acc = elim (Bool-cases (rx == h)) [
    | inl same ↦
        skip_face id h low faces acc (inl (ground arith)) (choose_nexthops_lem faces low acc)
    | inr other ↦
        scored (score h) id h low faces acc (choose_nexthops_lem faces) refl (ground arith)
  ]

  -- An Interest is sent, in the order of the faces, to each face other than the one received from
  -- whose match has the largest length; a face with no match (-1) is never among them.
  pub forward_interest-select :
      (pkt : Pkt)
      → forward_interest fw rx name pkt ≡ send_all (select (best_match 0 fw.faces) fw.faces) pkt
  unfolding forward_interest
  forward_interest-select pkt =
      rw (choose_nexthops_lem fw.faces 0 []) (ground (arith, low-le-best fw.faces 0))

-- `lpmRoute` returns the length of a route that is a prefix of the name, or -1 where no route is.
pub lpm_route_sound :
    (routes : List (List ℕ × Name)) (query : Name)
    → ((key : List ℕ) × (route : Name) × Listed (key, route) routes
        × (is_prefix_of route query ≡ true)
        × (lpm_route routes query ≡ pos (length route)))
      ⊎ ((lpm_route routes query ≡ negsuc 0)
          × All (λ (r : List ℕ × Name). is_prefix_of r.1 query ≡ false) routes)
unfolding lpm_route
lpm_route_sound [] query = inr (refl, tt)
lpm_route_sound ((k, name) ∷ routes) query = elim (Bool-cases (is_prefix_of name query)) [
  | inl hit ↦ inl (k, name, inl refl, hit, rw hit)
  | inr miss ↦ elim (lpm_route_sound routes query) [
    | inl (key, route, m, p, e) ↦ inl (key, route, inr m, p, rw miss e)
    | inr (e, none_fits) ↦ inr (rw miss e, (miss, none_fits))
  ]
]
