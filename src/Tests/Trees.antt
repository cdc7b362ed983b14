-- ===== src/Tests/Trees.antt =====
-- container/fib on a tree with the entries /A and /A/B, of start depth 1.
use containernet_ndn_dpdk.Shared.{
  ◌≤◌, ◌≡◌, refl, sym, ◌∙◌, subst, none, some, [], ◌∷◌, arith, if◌then◌else◌, ok,
}
use containernet_ndn_dpdk.Tlv.VarNum
use containernet_ndn_dpdk.Tlv.Element
use containernet_ndn_dpdk.Tlv.Encode.{
  encode_all, append_all, append, output, encode, tlv, tlv_bytes, element_field, encode_tlv_finish,
}
use containernet_ndn_dpdk.Name.Component
use containernet_ndn_dpdk.Name.{Name, equal, tlv_length}
use containernet_ndn_dpdk.Name.Component.{valid}
use containernet_ndn_dpdk.Name.Codec.{IsName}
use containernet_ndn_dpdk.FibDef.{Entry, validate}
use containernet_ndn_dpdk.FibTree.Nodes.{
  find_node, child, component_to_string, node, kid, no_kids, kids, height, kids_height, prune, Node,
  put_child, drop_child,
}
use containernet_ndn_dpdk.FibTree.{Tree, Update, insert, erase, find, revert_update}
use containernet_ndn_dpdk.FibTree.Entries.{find-insert}
use containernet_ndn_dpdk.FibTree.Erase.{find-erase}
use containernet_ndn_dpdk.FibTree.Revert.{find-revert_update, find-revert_erase}
use containernet_ndn_dpdk.FibTree.Sizes.{IsWellFormed, insert-IsWellFormed, erase-IsWellFormed}
use containernet_ndn_dpdk.FibTree.Counts.{total_weight, IsUnique}
use containernet_ndn_dpdk.FibTree.Heights.{IsHigh}
use containernet_ndn_dpdk.FibTree.HeightBounds.Updates.{insert-erase-IsHigh}

abbrev at_a : Name
at_a = record { typ = 8; value = 65 ∷ [] } ∷ []

abbrev at_ab : Name
at_ab = record { typ = 8; value = 65 ∷ [] } ∷ record { typ = 8; value = 66 ∷ [] } ∷ []

abbrev entry_a : Entry
entry_a = record { body = record { nexthops = 5 ∷ []; strategy = 1 }; name = at_a }

at_a-IsName : IsName at_a
unfolding valid
at_a-IsName = (record { good = refl; fits = omega arith }, tt)

at_ab-IsName : IsName at_ab
unfolding valid
at_ab-IsName =
    (record { good = refl; fits = omega arith }, (record { good = refl; fits = omega arith }, tt))

valid_a : validate entry_a ≡ none
unfolding validate tlv_length Element.size VarNum.size
valid_a = refl

abbrev entry_ab : Entry
entry_ab = record { body = entry_a.body; name = at_ab }

valid_ab : validate entry_ab ≡ none
unfolding validate tlv_length Element.size VarNum.size
valid_ab = refl

abbrev empty_tree : Tree
empty_tree = record {
  root = node (record { nexthops = []; strategy = 0 }) 0 no_kids;
  start_depth = 1;
  n_nodes = 1;
  n_entries = 0;
}

abbrev one_entry : Tree
one_entry = record {
  root =
      node (record { nexthops = []; strategy = 0 }) 1
        (kid (8 ∷ 1 ∷ 65 ∷ []) (node (record { nexthops = 5 ∷ []; strategy = 1 }) 0 no_kids)
          no_kids);
  start_depth = 1;
  n_nodes = 2;
  n_entries = 1;
}

found_a : find one_entry at_a ≡ some entry_a
unfolding find find_node child component_to_string encode_all append_all append output encode
    Component.field valid element_field tlv_bytes tlv encode_tlv_finish VarNum.encode
found_a = refl

nothing_at_ab : find empty_tree at_ab ≡ none
unfolding find find_node child
nothing_at_ab = refl

one_entry-IsWellFormed : IsWellFormed one_entry
unfolding total_weight IsUnique child
one_entry-IsWellFormed = record { unique = (refl, tt, tt); nodes = refl; entries = refl }

find-insert_example :
    (t' : Tree) × (u : Update) × (insert empty_tree entry_a ≡ ok (t', u))
    × (find t' at_ab ≡ (
        if equal at_a at_ab
        then some (record { body = entry_a.body; name = at_ab })
        else find empty_tree at_ab))
find-insert_example = find-insert empty_tree entry_a at_ab valid_a at_a-IsName at_ab-IsName

find-erase_example :
    find (erase one_entry at_a).0 at_a ≡ (if equal at_a at_a then none else find one_entry at_a)
find-erase_example = find-erase one_entry at_a at_a at_a-IsName at_a-IsName

sound_a : (old : Entry) → find one_entry at_a ≡ some old → validate old ≡ none
sound_a old e = subst (λ o. validate o ≡ none) (some_inj (sym found_a ∙ e)) valid_a
  where
    some_inj : {x y : Entry} → some x ≡ some y → x ≡ y
    some_inj p = cc

find-revert_update_example :
    (t' : Tree) × (u : Update) × (t'' : Tree) × (u' : Update) × (insert one_entry entry_a
      ≡ ok (t', u))
    × (revert_update t' u ≡ ok (t'', u'))
    × (find t'' at_ab ≡ find one_entry at_ab)
find-revert_update_example =
    find-revert_update one_entry entry_a at_ab valid_a at_a-IsName at_ab-IsName sound_a

find-revert_erase_example :
    (t'' : Tree) × (u' : Update) × (revert_update (erase one_entry at_a).0 (erase one_entry at_a).1
      ≡ ok (t'', u'))
    × (find t'' at_a ≡ find one_entry at_a)
find-revert_erase_example = find-revert_erase one_entry at_a at_a at_a-IsName at_a-IsName sound_a

insert-IsWellFormed_example :
    (t' : Tree) × (u : Update) × (insert one_entry entry_a ≡ ok (t', u)) × IsWellFormed t'
insert-IsWellFormed_example = insert-IsWellFormed one_entry entry_a valid_a one_entry-IsWellFormed

erase-IsWellFormed_example : IsWellFormed (erase one_entry at_a).0
erase-IsWellFormed_example = erase-IsWellFormed one_entry at_a one_entry-IsWellFormed

-- The height of node 1 stays 2 where the child of its child is erased, as the child is an entry.
abbrev two_levels : Node
two_levels = node entry_a.body 2 (
    kid (1 ∷ [])
      (node entry_a.body 1
        (kid (2 ∷ []) (node (record { nexthops = []; strategy = 0 }) 0 no_kids) no_kids))
      no_kids)

stale_height :
    let n = (prune 0 [] ((1 ∷ []) ∷ (2 ∷ []) ∷ []) two_levels).root in
    (height n ≡ 2) × (kids_height (kids n) ≡ 1)
unfolding prune child put_child drop_child kids_height
stale_height = (refl, refl)

one_entry-IsHigh : IsHigh one_entry.root
unfolding IsHigh kids_height
one_entry-IsHigh = (omega arith, ((omega arith, tt), tt))

insert-erase-IsHigh_example :
    ((t' : Tree) × (u : Update) × (insert one_entry entry_ab ≡ ok (t', u)) × IsHigh t'.root)
    × IsHigh (erase one_entry at_a).0.root
    × (height (erase one_entry at_a).0.root ≤ height one_entry.root)
insert-erase-IsHigh_example = insert-erase-IsHigh one_entry entry_ab at_a valid_ab one_entry-IsHigh
