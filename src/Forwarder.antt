-- ===== src/Forwarder.antt =====
-- ndn/l3/forwarder.go and ndn/l3/fwface.go: the logical forwarding plane, as a state and the functions
-- that its loop runs one after the other. A face is a handle into `objs`, as in the code a pointer;
-- `faces` maps the ids of the active faces to handles. Each function returns what is sent or called.
pub mod Token
pub mod Nexthops
pub mod Routes
pub mod Life
pub mod Announce
use containernet_ndn_dpdk.Shared.{
  [], ℕ, suc, ◌^◌, ◌≡◌, Bool, true, false, ◌&&◌, ◌||◌, not, Option, none, some, List, ◌∷◌, ◌++◌,
  leb, ◌==◌, if◌then◌else◌, length, ok, err, panic,
}
use containernet_ndn_dpdk.Shared.Int.{ℤ, pos, negsuc, ltb_ℤ, leb_ℤ}
use containernet_ndn_dpdk.Shared.Assoc.{nat_eq, lookup, insert, delete, bytes_eq}
use containernet_ndn_dpdk.Name
use containernet_ndn_dpdk.Name.{Name, is_prefix_of, marshal_binary}
use Token.{token_insert_id, token_strip_id}

abbrev pub max_fw_faces : ℕ
max_fw_faces = 2 ^ 23

-- The fields of fwFace that change.
pub record FwFace : Type 0 where
  pub id : ℕ
  pub routes : List (List ℕ × Name)
  pub announced : List (List ℕ × Name)

-- `nameV, _ := name.MarshalBinary(); nameS := string(nameV)`
unfoldable pub name_key : Name → List ℕ
name_key name = elim (marshal_binary name) [ ok v ↦ v | err e ↦ [] | panic ↦ [] ]

-- setmultimap.MultiMap of github.com/jwangsadinata/go-multimap: a set of (key, face) pairs.
pub record MultiMap (M : Type 0) : Type 0 where
  pub contains : M → List ℕ → ℕ → Bool
  pub contains_key : M → List ℕ → Bool
  pub put : M → List ℕ → ℕ → M
  pub remove : M → List ℕ → ℕ → M
  pub contains-put :
      (m : M) (k j : List ℕ) (f g : ℕ)
      → contains (put m k f) j g ≡ (bytes_eq.beq k j && f == g || contains m j g)
  pub contains-remove :
      (m : M) (k j : List ℕ) (f g : ℕ)
      → contains (remove m k f) j g ≡ (contains m j g && not (bytes_eq.beq k j && f == g))
  pub contains_key_some :
      (m : M) (k : List ℕ) → contains_key m k ≡ true → (f : ℕ) × (contains m k f ≡ true)
  pub contains_key_of :
      (m : M) (k : List ℕ) (f : ℕ) → contains m k f ≡ true → contains_key m k ≡ true

pub record Forwarder (M : Type 0) : Type 0 where
  pub objs : ℕ → FwFace
  pub next : ℕ
  pub faces : List (ℕ × ℕ)
  pub announcements : M
  pub readvertise : List (ℕ × Bool)

pub data Kind : Type 0 where
  interest : Name → Kind
  data_kind nack other : Kind

pub record Pkt : Type 0 where
  pub kind : Kind
  pub pit_token : List ℕ

-- What a function does outside the state: `f.tx <- pkt`, `go dest.Advertise(name)`, `close(f.tx)`.
pub data Event : Type 0 where
  send : ℕ → Pkt → Event
  advertise withdraw : ℕ → Name → Event
  close_tx : ℕ → Event

abbrev pub update : (ℕ → FwFace) → ℕ → FwFace → ℕ → FwFace
update objs h f k = if h == k then f else objs k

-- fwFace.lpmRoute: the first route of the range loop that is a prefix.
pub lpm_route : List (List ℕ × Name) → Name → ℤ
lpm_route [] query = negsuc 0
lpm_route ((k, name) ∷ routes) query =
    if is_prefix_of name query then pos (length name) else lpm_route routes query

-- One round of the loop of forwardInterest, with `lpmLen` and `nexthops`.
abbrev pub consider : ℤ → ℕ → ℤ × List ℕ → ℤ × List ℕ
consider match_len h (lpm_len, nexthops) =
    if ltb_ℤ lpm_len match_len
    then (match_len, h ∷ [])
    else if leb_ℤ lpm_len match_len
    then (lpm_len, nexthops ++ (h ∷ []))
    else (lpm_len, nexthops)

abbrev pub send_all : List ℕ → Pkt → List Event
send_all [] pkt = []
send_all (h ∷ hs) pkt = send h pkt ∷ send_all hs pkt

abbrev pub to_all : (ℕ → Name → Event) → Name → List (ℕ × Bool) → List Event
to_all act name [] = []
to_all act name ((dest, b) ∷ dests) = act dest name ∷ to_all act name dests

-- The results of AddFace: the new state and the handle, or ErrMaxFwFaces. `no_draw` is no Go value.
pub data Added (M : Type 0) : Type 0 where
  added : Forwarder M → ℕ → Added M
  too_many no_draw : Added M

abbrev pub deliver : Option ℕ → Pkt → List Event
deliver none pkt = []
deliver (some h) pkt = send h pkt ∷ []

module _ {M : Type 0} where
  -- The state with a new face under `id`.
  abbrev pub enter : Forwarder M → ℕ → Forwarder M
  enter fw id = record fw {
    objs = update fw.objs fw.next (record { id = id; routes = []; announced = [] });
    next = suc fw.next;
    faces = insert id fw.next fw.faces;
  }

  pub choose_nexthops : Forwarder M → ℕ → Name → List (ℕ × ℕ) → ℤ × List ℕ → ℤ × List ℕ
  choose_nexthops fw rx name [] st = st
  choose_nexthops fw rx name ((id, h) ∷ faces) st =
      choose_nexthops fw rx name faces
        (if rx == h then st else consider (lpm_route (fw.objs h).routes name) h st)

  -- forwardInterest
  pub forward_interest : Forwarder M → ℕ → Name → Pkt → List Event
  forward_interest fw rx name pkt = send_all (choose_nexthops fw rx name fw.faces (pos 0, [])).1 pkt

  -- forwardDataNack, with `if f := fw.faces[id]; f != nil { f.tx <- pkt.Packet }`.
  pub forward_data_nack : Forwarder M → Pkt → List Event
  forward_data_nack fw pkt =
      let (id, token) = token_strip_id pkt.pit_token in
      deliver (lookup id fw.faces) (record pkt { pit_token = token })

  -- The loop's case on a received packet.
  pub forward : Forwarder M → ℕ → Pkt → List Event
  forward fw rx pkt = elim pkt.kind [
    | interest name ↦ forward_interest fw rx name pkt
    | data_kind ↦ forward_data_nack fw pkt
    | nack ↦ forward_data_nack fw pkt
    | other ↦ []
  ]

  -- fwFace.rxLoop on one packet: an Interest gets the id of the face, other packets are dropped.
  pub rx_packet : Forwarder M → ℕ → Pkt → List Event
  unfolding forward
  rx_packet fw h pkt = elim pkt.kind [
    | interest name ↦
        forward fw h (record pkt { pit_token = token_insert_id pkt.pit_token (fw.objs h).id })
    | data_kind ↦ forward fw h pkt
    | nack ↦ forward fw h pkt
    | other ↦ []
  ]

  -- `for f.id == 0 || fw.faces[f.id] != nil { f.id = rand.Uint32() }`, over the random numbers that
  -- are drawn; none if they run out.
  abbrev pub taken : Forwarder M → ℕ → Bool
  taken fw id = id == 0 || (elim (lookup id fw.faces) [ some h ↦ true | none ↦ false ])

  unfoldable pub choose_id : Forwarder M → ℕ → List ℕ → Option ℕ
  choose_id fw id [] = if taken fw id then none else some id
  choose_id fw id (draw ∷ draws) =
      let rest = choose_id fw draw draws in if taken fw id then rest else some id

  -- AddFace
  unfoldable pub add_face : Forwarder M → List ℕ → Added M
  add_face fw draws =
      if leb max_fw_faces (length fw.faces)
      then too_many
      else elim (choose_id fw 0 draws) [ none ↦ no_draw | some id ↦ added (enter fw id) fw.next ]

  -- AddReadvertiseDestination, RemoveReadvertiseDestination
  pub add_readvertise_destination : Forwarder M → ℕ → Forwarder M
  add_readvertise_destination fw dest = record fw { readvertise = insert dest true fw.readvertise }

  pub remove_readvertise_destination : Forwarder M → ℕ → Forwarder M
  remove_readvertise_destination fw dest = record fw { readvertise = delete dest fw.readvertise }

  -- AddRoute, RemoveRoute
  pub add_route : Forwarder M → ℕ → Name → Forwarder M
  add_route fw h name =
      let f = fw.objs h in
      record fw {
        objs = update fw.objs h (record f { routes = insert (name_key name) name f.routes });
      }

  pub remove_route : Forwarder M → ℕ → Name → Forwarder M
  remove_route fw h name =
      let f = fw.objs h in
      record fw { objs = update fw.objs h (record f { routes = delete (name_key name) f.routes }) }

  module _ (mm : MultiMap M) where
    open mm use {contains_key, put, remove}

    -- AddAnnouncement
    pub add_announcement : Forwarder M → ℕ → Name → Forwarder M × List Event
    add_announcement fw h name =
        let key = name_key name in
        let f = fw.objs h in
        (
          record fw {
            objs = update fw.objs h (record f { announced = insert key name f.announced });
            announcements = put fw.announcements key h;
          },
          if not (contains_key fw.announcements key)
              then to_all advertise name fw.readvertise
              else [],
        )

    -- removeAnnouncementImpl
    unfoldable pub remove_announcement_impl :
        Forwarder M → ℕ → Name → List ℕ → Forwarder M × List Event
    remove_announcement_impl fw h name key =
        let f = fw.objs h in
        let m = remove fw.announcements key h in
        (
          record fw {
            objs = update fw.objs h (record f { announced = delete key f.announced });
            announcements = m;
          },
          if not (contains_key m key) then to_all withdraw name fw.readvertise else [],
        )

    -- RemoveAnnouncement
    pub remove_announcement : Forwarder M → ℕ → Name → Forwarder M × List Event
    remove_announcement fw h name = remove_announcement_impl fw h name (name_key name)

    -- The loop of Close over the announcements of the face.
    unfoldable pub withdraw_all : Forwarder M → ℕ → List (List ℕ × Name) → Forwarder M × List Event
    withdraw_all fw h [] = (fw, [])
    withdraw_all fw h ((key, name) ∷ l) =
        let (fw', out) = remove_announcement_impl fw h name key in
        let (fw'', out') = withdraw_all fw' h l in (fw'', out ++ out')

    -- Close
    unfoldable pub close : Forwarder M → ℕ → Forwarder M × List Event
    close fw h =
        let (fw', out) = withdraw_all fw h (fw.objs h).announced in
        (record fw' { faces = delete (fw'.objs h).id fw'.faces }, out ++ (close_tx h ∷ []))
