-- ===== src/Tests/Forwarding.antt =====
-- The forwarder with a multimap of pairs, and two faces.
use mathlib.Core.List.{Permᴰ}
use containernet_ndn_dpdk.Shared.{
  [], ℕ, ◌^◌, ◌<◌, ◌≡◌, refl, ◌↔◌, inl, inr, Bool, true, false, ◌&&◌, ◌||◌, not, none, some, List,
  ◌∷◌, ◌++◌, arith, ◌==◌, if◌then◌else◌, Bool-cases, length,
}
use containernet_ndn_dpdk.Shared.Int.{pos}
use containernet_ndn_dpdk.Shared.Assoc.{nat_eq, bytes_eq, lookup, insert, beq_bytes, beq_bytes_iff}
use containernet_ndn_dpdk.Name.{Name}
use containernet_ndn_dpdk.Forwarder.{
  MultiMap, Forwarder, data_kind, Pkt, send, send_all, lpm_route, forward_interest,
  forward_data_nack, add_face, added, enter, choose_id, close, update, Event, withdraw, close_tx,
  withdraw_all, remove_announcement_impl,
}
use containernet_ndn_dpdk.Forwarder.Token.{token_insert_id}
use containernet_ndn_dpdk.Forwarder.Nexthops.{select, best_match, forward_interest-select}
use containernet_ndn_dpdk.Forwarder.Routes.{Possible, lpm_route_orders}
use containernet_ndn_dpdk.Forwarder.Life.{
  IsWellFormed, add_face-IsWellFormed, forward_data_nack_returns,
}
use containernet_ndn_dpdk.Forwarder.Announce.{Matches, Withdrawn, close_withdraws}

abbrev Pairs : Type 0
Pairs = List (List ℕ × ℕ)

abbrev has : Pairs → List ℕ → ℕ → Bool
has [] k f = false
has ((j, g) ∷ m) k f = beq_bytes j k && g == f || has m k f

abbrev has_key : Pairs → List ℕ → Bool
has_key [] k = false
has_key ((j, g) ∷ m) k = beq_bytes j k || has_key m k

abbrev without : Pairs → List ℕ → ℕ → Pairs
without [] k f = []
without ((j, g) ∷ m) k f =
    let rest = without m k f in if beq_bytes k j && f == g then rest else (j, g) ∷ rest

has-without :
    (m : Pairs) (k j : List ℕ) (f g : ℕ)
    → has (without m k f) j g ≡ (has m j g && not (beq_bytes k j && f == g))
has-without [] k j f g = refl
has-without ((i, e) ∷ m) k j f g =
    ground (arith, has-without m k j f g, beq_bytes_iff k i, beq_bytes_iff i j, beq_bytes_iff k j)

has_key_some : (m : Pairs) (k : List ℕ) → has_key m k ≡ true → (f : ℕ) × (has m k f ≡ true)
has_key_some [] k h = cc
has_key_some ((j, g) ∷ m) k h = elim (Bool-cases (beq_bytes j k)) [
  | inl hit ↦ (g, ground (arith, hit))
  | inr miss ↦ let (f, e) = has_key_some m k (ground (arith, h, miss)) in (f, ground (arith, e))
]

has_key_of : (m : Pairs) (k : List ℕ) (f : ℕ) → has m k f ≡ true → has_key m k ≡ true
has_key_of [] k f h = cc
has_key_of ((j, g) ∷ m) k f h = ground (arith, has_key_of m k f)

abbrev pairs : MultiMap Pairs
pairs = record {
  contains = has;
  contains_key = has_key;
  put = λ m k f. (k, f) ∷ m;
  remove = without;
  contains-put = λ m k j f g. refl;
  contains-remove = has-without;
  contains_key_some = has_key_some;
  contains_key_of = has_key_of;
}

abbrev root_a : Name
root_a = record { typ = 8; value = 65 ∷ [] } ∷ []

abbrev name_ab : Name
name_ab = record { typ = 8; value = 65 ∷ [] } ∷ record { typ = 8; value = 66 ∷ [] } ∷ []

abbrev key_a : List ℕ
key_a = 8 ∷ 1 ∷ 65 ∷ []

abbrev key_ab : List ℕ
key_ab = 8 ∷ 1 ∷ 65 ∷ 8 ∷ 1 ∷ 66 ∷ []

-- Face 0 has the id 5 and the route /A, face 1 the id 6 and no route.
abbrev two_faces : Forwarder Pairs
two_faces = record {
  objs =
      update (λ h. record { id = 6; routes = []; announced = [] }) 0
        (record { id = 5; routes = ([], root_a) ∷ []; announced = [] });
  next = 2;
  faces = (5, 0) ∷ (6, 1) ∷ [];
  announcements = [];
  readvertise = (9, true) ∷ [];
}

two_faces-IsWellFormed : IsWellFormed two_faces
unfolding lookup
two_faces-IsWellFormed = record {
  own_id = λ i h e. ground arith;
  not_zero = λ i h e. ground arith;
  is_u32 = λ i h e. ground arith;
  given = λ i h e. ground arith;
}

abbrev pkt : Pkt
pkt = record { kind = data_kind; pit_token = 1 ∷ 2 ∷ [] }

forward_interest-select_example :
    forward_interest two_faces 1 name_ab pkt
    ≡ send_all
        (select two_faces 1 name_ab
          (best_match two_faces 1 name_ab 0 two_faces.faces)
          two_faces.faces)
        pkt
forward_interest-select_example = forward_interest-select two_faces 1 name_ab pkt

abbrev nested : List (List ℕ × Name)
nested = (key_a, root_a) ∷ (key_ab, name_ab) ∷ []

lpm_route_orders_example :
    ((order : List (List ℕ × Name)) × Permᴰ order nested × (lpm_route order name_ab ≡ pos 1))
    ↔ Possible nested name_ab (pos 1)
lpm_route_orders_example = lpm_route_orders nested name_ab (pos 1)

add_face_run : add_face two_faces (5 ∷ 0 ∷ 7 ∷ []) ≡ added (enter two_faces 7) 2
unfolding add_face choose_id lookup insert
add_face_run = refl

add_face-IsWellFormed_example :
    (id : ℕ) × (enter two_faces 7 ≡ enter two_faces id)
    × (2 ≡ two_faces.next)
    × IsWellFormed (enter two_faces 7)
    × (lookup id two_faces.faces ≡ none)
    × (length two_faces.faces < 2 ^ 23)
add_face-IsWellFormed_example =
    add_face-IsWellFormed two_faces (enter two_faces 7) (5 ∷ 0 ∷ 7 ∷ []) 2 two_faces-IsWellFormed
      (omega arith) add_face_run

found_five : lookup 5 two_faces.faces ≡ some 0
unfolding lookup
found_five = refl

forward_data_nack_returns_example :
    forward_data_nack two_faces (record pkt { pit_token = token_insert_id (1 ∷ 2 ∷ []) 5 })
    ≡ send 0 pkt ∷ []
forward_data_nack_returns_example =
    forward_data_nack_returns two_faces 0 5 pkt two_faces-IsWellFormed found_five

-- Face 0 announces /A and /A/B, face 1 announces /A too, and one destination is told.
abbrev announcing : Forwarder Pairs
announcing = record two_faces {
  objs =
      update
        (update (λ h. record { id = 7; routes = []; announced = [] }) 0
          (record { id = 5; routes = []; announced = (key_a, root_a) ∷ (key_ab, name_ab) ∷ [] }))
        1 (record { id = 6; routes = []; announced = (key_a, root_a) ∷ [] });
  announcements = (key_a, 0) ∷ (key_ab, 0) ∷ (key_a, 1) ∷ [];
}

announcing-Matches : Matches pairs announcing
unfolding lookup
announcing-Matches h key = ground (arith, beq_bytes_iff key_a key, beq_bytes_iff key_ab key)

-- Closing face 0 withdraws /A/B, which no other face announces, and keeps /A.
closes : (close pairs announcing 0).1 ≡ withdraw 9 name_ab ∷ close_tx 0 ∷ []
unfolding close withdraw_all remove_announcement_impl lookup
closes = refl

close_withdraws_example :
    ((g : ℕ) (key : List ℕ)
      → has (close pairs announcing 0).0.announcements key g
        ≡ (has announcing.announcements key g && not (0 == g)))
    × (out : List Event) × Withdrawn pairs announcing.announcements 0 announcing.readvertise
        (announcing.objs 0).announced
        out
    × ((close pairs announcing 0).1 ≡ out ++ close_tx 0 ∷ [])
close_withdraws_example = close_withdraws pairs announcing 0 announcing-Matches
