-- ===== src/Keystore/Insert.antt =====
-- `add_device` of core/keystore.cpp, in terms of the table.
use x_auth.Base.{
  Bool, true, false, Bytes, none, some, if◌then◌else◌, ◌≡◌, refl, ap, ◌∙◌, Bool-cases, c_str, equal,
  inl, inr,
}
use x_auth.Keystore.Id.{valid_device_id}
use x_auth.Keystore.Sqlite.{read_write, insert_device, Row, Sqlite, SqliteLaws}
use x_auth.Keystore.Store.{Device, add_device}
use x_auth.Keystore.Find.{c_str-valid}
use x_auth.Keystore.Update.{Table}

abbrev pub row_of : Device → Bytes → Row
row_of d now = record {
  key = some (c_str d.key);
  status = d.status;
  note = some (c_str d.note);
  created = some now;
}

-- What the result of an insert says of the table before and after it.
pub data InsertResult (d : Device) (before after : Table) : Bool → Type 0 where
  placed :
      (now : Bytes)
      → valid_device_id d.id ≡ true
      → before d.id ≡ none
      → ((j : Bytes) → after j ≡ (if equal d.id j then some (row_of d now) else before j))
      → InsertResult d before after true
  refused : ((j : Bytes) → after j ≡ before j) → InsertResult d before after false

module _ (q : Sqlite) (laws : SqliteLaws q) (d : Device) (w : q.World) where
  abbrev opened : Bool × q.World
  opened = q.open_v2 read_write w

  abbrev prepared : Bool × q.World
  prepared = q.prepare_v2 insert_device opened.1

  abbrev stepped : Bool × q.World
  stepped = q.step_insert d.id (c_str d.key) d.status (c_str d.note) prepared.1

  same_prepared : laws.find prepared.1 ≡ laws.find w
  same_prepared = laws.find-prepare insert_device opened.1 ∙ laws.find-open read_write w

  -- True is returned only for a valid ID that had no row, and then the new row is there and every
  -- other row is as it was; false leaves the whole table as it was.
  pub add_device-InsertResult :
      InsertResult d (laws.find w) (laws.find (add_device q d w).1) (add_device q d w).0
  unfolding add_device
  add_device-InsertResult = elim (Bool-cases (valid_device_id d.id)) [
    | inr bad ↦ rw bad (refused (λ j. refl))
    | inl valid ↦ rw valid (elim (Bool-cases opened.0) [
      | inr shut ↦ rw shut (refused (λ j. ap (λ t. t j) (laws.find-open read_write w)))
      | inl open_ok ↦ rw open_ok (elim (Bool-cases prepared.0) [
        | inr unready ↦ rw unready (refused (λ j. ap (λ t. t j) same_prepared))
        | inl ready ↦ rw ready (
            rw (c_str-valid d.id valid) (elim (Bool-cases stepped.0) [
              | inl ok ↦ rw ok (stepped-placed valid ok)
              | inr broken ↦ rw broken (refused (λ j. ap (λ t. t j) (unchanged broken)))
            ]))
      ])
    ])
  ]
    where
      stepped-placed :
          valid_device_id d.id ≡ true
          → stepped.0 ≡ true
          → InsertResult d (laws.find w) (laws.find stepped.1) true
      stepped-placed valid ok =
          placed (q.datetime_now prepared.1) valid
            (rw (← same_prepared)
              (laws.insert-new d.id (c_str d.key) d.status (c_str d.note) prepared.1 ok))
            (λ j.
              rw (← same_prepared)
                (laws.insert-done d.id (c_str d.key) d.status (c_str d.note) prepared.1 j ok))

      unchanged : stepped.0 ≡ false → laws.find stepped.1 ≡ laws.find w
      unchanged broken =
          laws.insert-failed d.id (c_str d.key) d.status (c_str d.note) prepared.1 broken
          ∙ same_prepared
