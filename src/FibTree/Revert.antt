-- ===== src/FibTree/Revert.antt =====
-- container/fib/fibtree/tree.go: Revert behind Insert and behind Erase.
use containernet_ndn_dpdk.Shared.{
  ℕ, ◌≡◌, refl, sym, ap, ◌∙◌, subst, ◌⊎◌, inl, inr, true, false, Option, none, some, arith,
  if◌then◌else◌, Bool-cases, Option-cases, ok,
}
use containernet_ndn_dpdk.Name.{Name, equal}
use containernet_ndn_dpdk.Name.Order.{equal_iff}
use containernet_ndn_dpdk.Name.Codec.{IsName}
use containernet_ndn_dpdk.FibDef.{EntryBody, Entry, equals, validate}
use containernet_ndn_dpdk.FibDef.Laws.{equals_iff, validate_iff}
use containernet_ndn_dpdk.FibTree.Nodes.{
  path_of, Node, body, is_entry, has_nexthops, find_node, seek_insert,
}
use containernet_ndn_dpdk.FibTree.Children.{body_of}
use containernet_ndn_dpdk.FibTree.View.{view-seek_insert, seek_insert-IsThere}
use containernet_ndn_dpdk.FibTree.Entries.{
  as_entry-some, find-view, the_node_view, find-insert, find-insert_node,
}
use containernet_ndn_dpdk.FibTree.Erase.{find-erase, find_at}
use containernet_ndn_dpdk.FibTree.{
  Tree, Update, Undo, undo_insert, undo_erase, insert, insert_node, erase, erase_node, find,
  the_node, undo, revert_update, no_update,
}

-- What Insert returns to be undone, by the node that is there.
insert_node_undo :
    (t : Tree) (entry : Entry) (root : Node) (created : ℕ) (n : Node)
    → (insert_node t entry root created n).1.revert ≡ (
        if equals (body n) entry.body
        then none
        else some (
            if is_entry n
            then undo_insert (record { body = body n; name = entry.name })
            else undo_erase entry.name))
unfolding insert_node
insert_node_undo t entry root created n = elim (Bool-cases (equals (body n) entry.body)) [
  | inl old ↦ rw old
  | inr new ↦ rw new
]

-- Undoing brings the tree `t'` back to what Find returned on `t`.
abbrev Undone : Tree → Tree → Option Undo → Name → Type 0
Undone t t' u q =
    (t'' : Tree) × (u' : Update) × (undo t' u ≡ ok (t'', u')) × (find t'' q ≡ find t q)

-- Find where an entry was changed and changed back.
back :
    (t : Tree) (name q : Name) (x : Option Entry) (y : Option EntryBody)
    → find t name ≡ elim y [ none ↦ none | some b ↦ some (record { body = b; name = name }) ]
    → x ≡ (
        if equal name q
        then elim y [ none ↦ none | some b ↦ some (record { body = b; name = q }) ]
        else find t q)
    → x ≡ find t q
back t name q x y before e = elim (Bool-cases (equal name q)) [
  | inl same ↦
      subst
        (λ m.
          find t m ≡ elim y [ none ↦ none | some b ↦ some (record { body = b; name = m }) ]
          → x ≡ find t q)
        (sym ((equal_iff name q).0 same)) (λ f. rw same at e ∙ sym f) before
  | inr differ ↦ rw differ at e
]

module _ (t : Tree) (entry : Entry) (q : Name) (valid : validate entry ≡ none)
    (he : IsName entry.name) (hq : IsName q) where
  -- The tree behind Insert, with the node `n` that is there.
  abbrev behind : Node → Tree × Update
  behind n =
      let (root, created) = seek_insert (path_of entry.name) t.root in
      insert_node t entry root created n

  abbrev IsAt : Node → Type 0
  IsAt n = find_node (path_of entry.name) (seek_insert (path_of entry.name) t.root).0 ≡ some n

  found_behind :
      (n : Node)
      → IsAt n
      → find (behind n).0 q
        ≡ (if equal entry.name q then some (record { body = entry.body; name = q }) else find t q)
  found_behind n at =
      subst
        (λ m. find (behind (the_node m)).0 q ≡ (
          if equal entry.name q then some (record { body = entry.body; name = q }) else find t q))
        at (find-insert_node t entry q valid he hq)

  found_before :
      (n : Node)
      → IsAt n
      → find t entry.name
        ≡ elim (body_of n) [ none ↦ none | some b ↦ some (record { body = b; name = entry.name }) ]
  found_before n at =
      find-view t entry.name
      ∙ rw (
          sym (view-seek_insert (path_of entry.name) (path_of entry.name) t.root)
          ∙ the_node_view (path_of entry.name) (seek_insert (path_of entry.name) t.root).0 n at)

  undo_same : (n : Node) → IsAt n → equals (body n) entry.body ≡ true → Undone t (behind n).0 none q
  undo_same n at e =
      let held : body_of n ≡ some entry.body =
        entry_held (body n) ((equals_iff (body n) entry.body).0 e) in
      (
        (behind n).0,
        no_update,
        refl,
        back t entry.name q (find (behind n).0 q) (some entry.body) (rw held at (found_before n at))
            (found_behind n at),
      )
    where
      entry_held :
          (b : EntryBody)
          → b ≡ entry.body
          → (if has_nexthops b.nexthops then some b else none) ≡ some entry.body
      entry_held b e' = rw e' (as_entry-some entry.body ((validate_iff entry).0 valid).1)

  undo_replaced :
      (n : Node)
      → IsAt n
      → is_entry n ≡ true
      → ((old : Entry) → find t entry.name ≡ some old → validate old ≡ none)
      → Undone t (behind n).0 (some (undo_insert (record { body = body n; name = entry.name }))) q
  undo_replaced n at held sound =
      let old : Entry = record { body = body n; name = entry.name } in
      let before = rw held at (found_before n at) in
      let (t'', u', e, f) = find-insert (behind n).0 old q (sound old before) he hq in
      (
        t'',
        u',
        e,
        back t entry.name q (find t'' q) (some (body n)) before
            (f ∙ rw (found_behind n at) (ground arith)),
      )

  undo_new :
      (n : Node)
      → IsAt n
      → is_entry n ≡ false
      → Undone t (behind n).0 (some (undo_erase entry.name)) q
  undo_new n at empty = (
    (erase (behind n).0 entry.name).0,
    (erase (behind n).0 entry.name).1,
    refl,
    back t entry.name q _ none (rw empty at (found_before n at))
        (find-erase (behind n).0 entry.name q he hq ∙ rw (found_behind n at) (ground arith)),
  )

  undo_behind :
      (n : Node)
      → IsAt n
      → ((old : Entry) → find t entry.name ≡ some old → validate old ≡ none)
      → Undone t (behind n).0 (behind n).1.revert q
  undo_behind n at sound =
      let (root, created) = seek_insert (path_of entry.name) t.root in
      subst (λ u. Undone t (behind n).0 u q) (sym (insert_node_undo t entry root created n))
        (elim (Bool-cases (equals (body n) entry.body)) [
          | inl e ↦ rw e (undo_same n at e)
          | inr e ↦ elim (Bool-cases (is_entry n)) [
            | inl held ↦ rw (e, held) (undo_replaced n at held sound)
            | inr empty ↦ rw (e, empty) (undo_new n at empty)
          ]
        ])

  -- Insert and then Revert, where Validate accepts the entry, and also the one that was there under its
  -- name if there was one: both succeed, and Find returns again what it returned before; the names are
  -- of valid components.
  pub find-revert_update :
      ((old : Entry) → find t entry.name ≡ some old → validate old ≡ none)
      → (t' : Tree) × (u : Update) × (t'' : Tree) × (u' : Update) × (insert t entry ≡ ok (t', u))
        × (revert_update t' u ≡ ok (t'', u'))
        × (find t'' q ≡ find t q)
  unfolding insert revert_update
  find-revert_update sound =
      let path = path_of entry.name in
      let (root, created) = seek_insert path t.root in
      let (n, at) = seek_insert-IsThere path t.root in
      let (t'', u', e, f) = undo_behind n at sound in
      (
        (behind n).0,
        (behind n).1,
        t'',
        u',
        rw (valid, insert) (ap (λ m. ok (behind (the_node m))) at),
        e,
        f,
      )

erase_held :
    (t : Tree) (name : Name) (n : Node)
    → find_node (path_of name) t.root ≡ some n
    → is_entry n ≡ true
    → erase t name ≡ erase_node t name n
unfolding erase
erase_held t name n e held = rw (e, held, erase)

erase_nothing :
    (t : Tree) (name : Name)
    → (find_node (path_of name) t.root ≡ none)
      ⊎ ((n : Node) × (find_node (path_of name) t.root ≡ some n) × (is_entry n ≡ false))
    → erase t name ≡ (t, no_update)
unfolding erase
erase_nothing t name (inl e) = rw (e, erase)
erase_nothing t name (inr (n, e, empty)) = rw (e, empty, erase)

erase_node_undo :
    (t : Tree) (name : Name) (n : Node)
    → (erase_node t name n).1.revert ≡ some (undo_insert (record { body = body n; name = name }))
unfolding erase_node
erase_node_undo t name n = refl

-- Erase and then Revert, where Validate accepts the entry that was there if there was one: Revert
-- succeeds, and Find returns again what it returned before; the names are of valid components.
pub find-revert_erase :
    (t : Tree) (name q : Name)
    → IsName name
    → IsName q
    → ((old : Entry) → find t name ≡ some old → validate old ≡ none)
    → (t'' : Tree) × (u' : Update) × (revert_update (erase t name).0 (erase t name).1
        ≡ ok (t'', u'))
      × (find t'' q ≡ find t q)
unfolding revert_update
find-revert_erase t name q hn hq sound = elim (Option-cases (find_node (path_of name) t.root)) [
  | inl e ↦ nothing (inl e)
  | inr (n, e) ↦ elim (Bool-cases (is_entry n)) [
    | inl held ↦
        let old : Entry = record { body = body n; name = name } in
        let before : find t name ≡ some old = find_at t name n e ∙ rw held in
        let same = erase_held t name n e held in
        let (t'', u', done, f) = find-insert (erase t name).0 old q (sound old before) hn hq in
        let undone : Undone t (erase t name).0 (some (undo_insert old)) q = (
          t'',
          u',
          done,
          back t name q (find t'' q) (some (body n)) before
              (f ∙ rw (find-erase t name q hn hq) (ground arith)),
        ) in
        subst (λ v. Undone t (erase t name).0 v q)
          (sym (ap (λ (r : Tree × Update). r.1.revert) same ∙ erase_node_undo t name n)) undone
    | inr empty ↦ nothing (inr (n, e, empty))
  ]
]
  where
    nothing :
        (find_node (path_of name) t.root ≡ none)
          ⊎ ((n : Node) × (find_node (path_of name) t.root ≡ some n) × (is_entry n ≡ false))
        → Undone t (erase t name).0 (erase t name).1.revert q
    nothing why =
        subst (λ (r : Tree × Update). Undone t r.0 r.1.revert q) (sym (erase_nothing t name why))
          (t, no_update, refl, refl)
