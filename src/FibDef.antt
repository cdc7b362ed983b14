-- ===== src/FibDef.antt =====
-- container/fib/fibdef/entry.go and update.go: the contents of FIB entries, and the commands that update
-- them. An iface.ID is a number.
pub mod Laws
use containernet_ndn_dpdk.Shared.{
  ℕ, Bool, true, false, ◌||◌, not, Option, none, some, List, [], ◌∷◌, ltb, ◌==◌, if◌then◌else◌,
  length, ◌>>=◌,
}
use containernet_ndn_dpdk.Name.{Name, tlv_length}

abbrev pub max_name_length : ℕ
max_name_length = 494

abbrev pub max_nexthops : ℕ
max_nexthops = 8

pub record EntryBody : Type 0 where
  pub nexthops : List ℕ
  pub strategy : ℕ

-- The loop of Equals, after the lengths were compared.
pub same_nexthops : List ℕ → List ℕ → Bool
same_nexthops [] other = true
same_nexthops (n ∷ ns) [] = false
same_nexthops (n ∷ ns) (m ∷ ms) = let rest = same_nexthops ns ms in if n == m then rest else false

-- EntryBody.Equals
pub equals : EntryBody → EntryBody → Bool
equals body other =
    if not (body.strategy == other.strategy) || not (length body.nexthops == length other.nexthops)
    then false
    else same_nexthops body.nexthops other.nexthops

pub record Entry : Type 0 where
  pub body : EntryBody
  pub name : Name

pub data Invalid : Type 0 where
  name_too_long nexthops_count missing_strategy : Invalid

-- Entry.Validate: the error, if any.
unfoldable pub validate : Entry → Option Invalid
validate entry =
    if ltb max_name_length (tlv_length entry.name)
    then some name_too_long
    else if ltb (length entry.body.nexthops) 1 || ltb max_nexthops (length entry.body.nexthops)
    then some nexthops_count
    else if entry.body.strategy == 0
    then some missing_strategy
    else none

-- container/fib/fibdef/update.go
pub data UpdateAction : Type 0 where
  act_insert act_replace act_erase : UpdateAction

pub record VirtUpdate : Type 0 where
  pub name : Name
  pub action : UpdateAction
  pub has_real : Bool
  pub virt_height : ℕ

pub record RealUpdate : Type 0 where
  pub name : Name
  pub action : UpdateAction
  pub entry_body : EntryBody
  pub with_virt : Option VirtUpdate
