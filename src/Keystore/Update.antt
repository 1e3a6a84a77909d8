-- ===== src/Keystore/Update.antt =====
-- `set_device_status` and `set_device_note` of core/keystore.cpp, in terms of the table.
use x_auth.Base.{
  ℕ, Bool, true, false, Bytes, Option, none, some, if◌then◌else◌, ltb, ◌≡◌, refl, sym, ap, ◌∙◌,
  Bool-cases, c_str, equal, equal_iff, inl, inr,
}
use x_auth.Base.Int.{ℤ}
use x_auth.Keystore.Id.{valid_device_id}
use x_auth.Keystore.Sqlite.{
  read_write, Row, Change, set_status, set_note, apply_change, changed, row_count, Sqlite,
  SqliteLaws,
}
use x_auth.Keystore.Store.{
  Lookup, found, not_found, error, update_statement, bound, update_one, set_device_status,
  set_device_note,
}
use x_auth.Keystore.Find.{c_str-valid}

abbrev pub Table : Type 0
Table = Bytes → Option Row

-- What the result of an update of `id` says of the table before and after it.
pub data UpdateResult (valid : Bool) (id : Bytes) (c : Change) (before after : Table)
    : Lookup → Type 0 where
  hit :
      (r : Row)
      → valid ≡ true
      → before id ≡ some r
      → ((j : Bytes) → after j ≡ (if equal id j then some (apply_change c r) else before j))
      → UpdateResult valid id c before after found
  malformed :
      valid ≡ false
      → ((j : Bytes) → after j ≡ before j)
      → UpdateResult valid id c before after not_found
  missing :
      valid ≡ true
      → before id ≡ none
      → ((j : Bytes) → after j ≡ before j)
      → UpdateResult valid id c before after not_found
  fault : ((j : Bytes) → after j ≡ before j) → UpdateResult valid id c before after error

-- An update of a row that is not there changes nothing.
update_nothing :
    (id j : Bytes) (c : Change) (before after : Table)
    → before id ≡ none
    → after j ≡ (if equal id j then changed c (before id) else before j)
    → after j ≡ before j
update_nothing id j c before after absent h = elim (Bool-cases (equal id j)) [
  | inl same ↦
      let e : id ≡ j = (equal_iff id j).0 same in
      (rw same at h) ∙ ap (changed c) absent ∙ sym absent ∙ ap before e
  | inr other ↦ rw other at h
]

count-UpdateResult :
    (id : Bytes) (c : Change) (before after : Table) (o : Option Row) (n : ℕ)
    → before id ≡ o
    → n ≡ row_count o
    → ((j : Bytes) → after j ≡ (if equal id j then changed c (before id) else before j))
    → UpdateResult true id c before after (if ltb 0 n then found else not_found)
count-UpdateResult id c before after none n ho hn h =
    rw hn (missing refl ho (λ j. update_nothing id j c before after ho (h j)))
count-UpdateResult id c before after (some r) n ho hn h =
    rw hn (hit r refl ho (λ j. rw ho at (h j)))

module _ (q : Sqlite) (laws : SqliteLaws q) (id : Bytes) (c : Change) (w : q.World) where
  abbrev opened : Bool × q.World
  opened = q.open_v2 read_write w

  abbrev prepared : Bool × q.World
  prepared = q.prepare_v2 (update_statement c) opened.1

  abbrev stepped : Bool × q.World
  stepped = q.step_update (bound c) id prepared.1

  same_prepared : laws.find prepared.1 ≡ laws.find w
  same_prepared = laws.find-prepare (update_statement c) opened.1 ∙ laws.find-open read_write w

  stepped-UpdateResult :
      stepped.0 ≡ true
      → UpdateResult true id
          (bound c)
          (laws.find w)
          (laws.find stepped.1)
          (if ltb 0 (q.changes stepped.1) then found else not_found)
  stepped-UpdateResult ok =
      count-UpdateResult id (bound c) (laws.find w) (laws.find stepped.1) (laws.find w id)
        (q.changes stepped.1) refl
        (rw (← same_prepared) (laws.update-changes (bound c) id prepared.1 ok))
        (λ j. rw (← same_prepared) (laws.update-done (bound c) id prepared.1 j ok))

  pub update_one-UpdateResult :
      UpdateResult
        (valid_device_id id)
        id
        (bound c)
        (laws.find w)
        (laws.find (update_one q id c w).1)
        (update_one q id c w).0
  unfolding update_one
  update_one-UpdateResult = elim (Bool-cases (valid_device_id id)) [
    | inr bad ↦ rw bad (malformed refl (λ j. refl))
    | inl valid ↦ rw valid (elim (Bool-cases opened.0) [
      | inr shut ↦ rw shut (fault (λ j. ap (λ t. t j) (laws.find-open read_write w)))
      | inl open_ok ↦ rw open_ok (elim (Bool-cases prepared.0) [
        | inr refused ↦ rw refused (fault (λ j. ap (λ t. t j) same_prepared))
        | inl ready ↦ rw ready (
            rw (c_str-valid id valid) (elim (Bool-cases stepped.0) [
              | inl ok ↦ rw ok (stepped-UpdateResult ok)
              | inr broken ↦ rw broken (
                  fault (λ j.
                    ap (λ t. t j)
                      (laws.update-failed (bound c) id prepared.1 broken ∙ same_prepared)))
            ]))
      ])
    ])
  ]

module _ (q : Sqlite) (laws : SqliteLaws q) (id : Bytes) (w : q.World) where
  -- A status is written to the row of the ID and to no other row; NotFound and Error write nothing.
  pub set_device_status-UpdateResult :
      (s : ℤ)
      → UpdateResult
          (valid_device_id id)
          id
          (set_status s)
          (laws.find w)
          (laws.find (set_device_status q id s w).1)
          (set_device_status q id s w).0
  unfolding set_device_status
  set_device_status-UpdateResult s = update_one-UpdateResult q laws id (set_status s) w

  -- The same for the label, up to its first NUL.
  pub set_device_note-UpdateResult :
      (note : Bytes)
      → UpdateResult
          (valid_device_id id)
          id
          (set_note (c_str note))
          (laws.find w)
          (laws.find (set_device_note q id note w).1)
          (set_device_note q id note w).0
  unfolding set_device_note
  set_device_note-UpdateResult note = update_one-UpdateResult q laws id (set_note note) w
