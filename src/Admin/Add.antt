-- ===== src/Admin/Add.antt =====
-- `handle_add` of admin/main.cpp, in terms of the table.
use x_auth.Base.{
  ℕ, zero, suc, Bool, true, false, Bytes, Option, none, some, if◌then◌else◌, equal, ◌≡◌, refl, sym,
  ap, ◌∙◌, subst, Bool-cases, Option-cases, inl, inr,
}
use x_auth.Base.Int.{pos}
use x_auth.Keygen.{generate_device_id, generate_key, valid_label}
use x_auth.Keystore.Id.{valid_device_id, device_id_min}
use x_auth.Keystore.Sqlite.{Sqlite, SqliteLaws}
use x_auth.Keystore.Store.{
  Device, default_device, Lookup, found, not_found, error, find_device, add_device,
}
use x_auth.Keystore.Find.{find_device_sound}
use x_auth.Keystore.Update.{Table}
use x_auth.Keystore.Insert.{row_of, InsertResult, add_device-InsertResult}
use x_auth.Admin.{
  reply_err, reply_added, Attempt, placed, gave_up, next_id, after_lookup, attempt, after_attempt,
  add_loop, handle_add,
}

-- A new row for the device, and every other row as it was.
pub record HasNewRow (d : Device) (before after : Table) : Type 0 where
  pub now : Bytes
  pub valid : valid_device_id d.id ≡ true
  pub free : before d.id ≡ none
  pub rows : (j : Bytes) → after j ≡ (if equal d.id j then some (row_of d now) else before j)

abbrev pub Unchanged : Table → Table → Type 0
Unchanged before after = (j : Bytes) → after j ≡ before j

pub data AttemptResult (d : Device) (before after : Table) : Attempt → Type 0 where
  put_in : HasNewRow d before after → AttemptResult d before after placed
  no_answer : Unchanged before after → AttemptResult d before after gave_up
  taken : Unchanged before after → AttemptResult d before after next_id

-- What a reply says of the table before and after it; `make` is the device with a given ID.
pub data AddResult (make : Bytes → Device) (before after : Table) : Option Bytes → Type 0 where
  created :
      (id : Bytes)
      → HasNewRow (make id) before after
      → AddResult make before after (some (reply_added (make id).id (make id).key))
  refused : Unchanged before after → AddResult make before after (some reply_err)
  threw : Unchanged before after → AddResult make before after none

insert-AttemptResult :
    (d : Device) (before after : Table) (added : Bool)
    → InsertResult d before after added
    → AttemptResult d before after (if added then placed else next_id)
insert-AttemptResult d before after true (InsertResult.placed now valid free rows) =
    put_in (record { now = now; valid = valid; free = free; rows = rows })
insert-AttemptResult d before after false (InsertResult.refused same) = taken same

-- A table that is pointwise the same may stand before.
pub HasNewRow-before :
    (d : Device) (first before after : Table)
    → Unchanged first before
    → HasNewRow d before after
    → HasNewRow d first after
HasNewRow-before d first before after same new = record {
  now = new.now;
  valid = new.valid;
  free = sym (same d.id) ∙ new.free;
  rows = λ j. new.rows j ∙ ap (λ o. if equal d.id j then some (row_of d new.now) else o) (same j);
}

AddResult-before :
    (make : Bytes → Device) (first before after : Table) (reply : Option Bytes)
    → Unchanged first before
    → AddResult make before after reply
    → AddResult make first after reply
AddResult-before make first before after _ same (created id new) =
    created id (HasNewRow-before (make id) first before after same new)
AddResult-before make first before after _ same (refused h) = refused (λ j. h j ∙ same j)
AddResult-before make first before after _ same (threw h) = threw (λ j. h j ∙ same j)

module _ (q : Sqlite) (laws : SqliteLaws q) where
  after_lookup-AttemptResult :
      (d : Device) (l : Lookup) (w : q.World)
      → AttemptResult d (laws.find w) (laws.find (after_lookup q d l w).1) (after_lookup q d l w).0
  unfolding after_lookup
  after_lookup-AttemptResult d error w = no_answer (λ j. refl)
  after_lookup-AttemptResult d found w = taken (λ j. refl)
  after_lookup-AttemptResult d not_found w =
      insert-AttemptResult d (laws.find w) (laws.find (add_device q d w).1) (add_device q d w).0
        (add_device-InsertResult q laws d w)

  pub attempt-AttemptResult :
      (d : Device) (w : q.World)
      → AttemptResult d (laws.find w) (laws.find (attempt q d w).1) (attempt q d w).0
  unfolding attempt
  attempt-AttemptResult d w =
      let looked = find_device q d.id default_device w in
      subst
        (λ (t : Table).
          AttemptResult d t (laws.find (after_lookup q d looked.0.0 looked.1).1)
            (after_lookup q d looked.0.0 looked.1).0)
        (find_device_sound q laws d.id default_device w).1
        (after_lookup-AttemptResult d looked.0.0 looked.1)

  after_attempt-AddResult :
      (make : Bytes → Device) (id : Bytes) (before : Table) (tried : Attempt) (w : q.World)
      (later : Option Bytes × q.World)
      → AttemptResult (make id) before (laws.find w) tried
      → AddResult make (laws.find w) (laws.find later.1) later.0
      → AddResult make before
          (laws.find (after_attempt q (make id) (tried, w) later).1)
          (after_attempt q (make id) (tried, w) later).0
  unfolding after_attempt
  after_attempt-AddResult make id before placed w later (put_in new) next = created id new
  after_attempt-AddResult make id before gave_up w later (no_answer same) next = refused same
  after_attempt-AddResult make id before next_id w later (taken same) next =
      AddResult-before make before (laws.find w) (laws.find later.1) later.0 same next

  module _ (draws : ℕ → ℕ → Option Bytes) where
    add_loop-AddResult :
        (left call : ℕ) (d : Device) (w : q.World)
        → AddResult
            (λ id. record d { id = id })
            (laws.find w)
            (laws.find (add_loop q draws left call d w).1)
            (add_loop q draws left call d w).0
    unfolding add_loop
    add_loop-AddResult zero call d w = refused (λ j. refl)
    add_loop-AddResult (suc left) call d w =
        elim (Option-cases (generate_device_id (draws call) device_id_min)) [
          | inl failed ↦ rw (add_loop, failed) (threw (λ j. refl))
          | inr (id, drawn) ↦
              let d' : Device = record d { id = id } in
              let tried = attempt q d' w in
              rw (add_loop, drawn)
                (after_attempt-AddResult (λ i. record d { id = i }) id (laws.find w) tried.0 tried.1
                  (add_loop q draws left (suc call) d' tried.1) (attempt-AttemptResult d' w)
                  (add_loop-AddResult left (suc call) d' tried.1))
        ]

    -- The device that `ADD` makes from a key, a label and an ID.
    abbrev pub new_device : Bytes → Bytes → Bytes → Device
    new_device label key id = record default_device {
      id = id;
      key = key;
      status = pos 1;
      note = label;
    }

    -- What the whole of `handle_add` says.
    pub data AddAnswer (label : Bytes) (before after : Table) : Option Bytes → Type 0 where
      bad_label :
          valid_label label ≡ false
          → Unchanged before after
          → AddAnswer label before after (some reply_err)
      no_key :
          generate_key (draws 0) ≡ none → Unchanged before after → AddAnswer label before after none
      tried :
          (reply : Option Bytes) (key : Bytes)
          → valid_label label ≡ true
          → generate_key (draws 0) ≡ some key
          → AddResult (new_device label key) before after reply
          → AddAnswer label before after reply

    -- `ADD label` answers `OK id key` only for a valid label, and then the ID is valid and had no row,
    -- the key is the one that was drawn, the new row of the ID is active with that key and label, and
    -- every other row is as it was. The reply `ERR`, and a throw, leave the whole table as it was.
    pub handle_add-AddAnswer :
        (label : Bytes) (w : q.World)
        → AddAnswer label
            (laws.find w)
            (laws.find (handle_add q draws label w).1)
            (handle_add q draws label w).0
    unfolding handle_add
    handle_add-AddAnswer label w = elim (Bool-cases (valid_label label)) [
      | inr bad ↦ rw bad (bad_label bad (λ j. refl))
      | inl good ↦ elim (Option-cases (generate_key (draws 0))) [
        | inl failed ↦ rw (handle_add, good, failed) (no_key failed (λ j. refl))
        | inr (key, drawn) ↦
            rw (handle_add, good, drawn)
              (tried _ key good drawn (
                add_loop-AddResult 16 1
                  (record default_device { status = pos 1; note = label; key = key }) w))
      ]
    ]
