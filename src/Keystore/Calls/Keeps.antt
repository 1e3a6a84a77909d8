-- ===== src/Keystore/Calls/Keeps.antt =====
-- What a call of the keystore does to the table, and what no call takes away.
use x_auth.Base.{
  Bool, true, Bytes, none, some, if◌then◌else◌, equal, equal_iff, ◌≡◌, refl, sym, ap, ◌∙◌,
  Bool-cases, inl, inr, some_inj, c_str,
}
use x_auth.Base.Int.{ℤ}
use x_auth.Keystore.Id.{valid_device_id}
use x_auth.Keystore.Sqlite.{Row, set_status, set_note, apply_change, Sqlite, SqliteLaws}
use x_auth.Keystore.Store.{Device, Lookup}
use x_auth.Keystore.Find.{find_device_sound}
use x_auth.Keystore.Update.{
  Table, UpdateResult, hit, malformed, missing, fault, set_device_status-UpdateResult,
  set_device_note-UpdateResult,
}
use x_auth.Keystore.Insert.{InsertResult, placed, refused, row_of, add_device-InsertResult}
use x_auth.Keystore.Unchanged.{migrate_keystore-Unchanged, list_devices-Unchanged}
use x_auth.Keystore.Calls.{Call, find, add, status, note, list, migrate, perform, Run, Run-keeps}

-- What a call does to the table: nothing, a change of one row, or a new row.
pub data Effect (before after : Table) : Call → Type 0 where
  nothing : (c : Call) → ((j : Bytes) → after j ≡ before j) → Effect before after c
  new_status :
      (id : Bytes) (s : ℤ) (r : Row)
      → before id ≡ some r
      → ((j : Bytes)
          → after j ≡ (if equal id j then some (apply_change (set_status s) r) else before j))
      → Effect before after (status id s)
  new_note :
      (id n : Bytes) (r : Row)
      → before id ≡ some r
      → ((j : Bytes)
          → after j ≡ (if equal id j then some (apply_change (set_note (c_str n)) r) else before j))
      → Effect before after (note id n)
  new_row :
      (d : Device) (now : Bytes)
      → valid_device_id d.id ≡ true
      → before d.id ≡ none
      → ((j : Bytes) → after j ≡ (if equal d.id j then some (row_of d now) else before j))
      → Effect before after (add d)

status-Effect :
    (valid : Bool) (id : Bytes) (s : ℤ) (before after : Table) (l : Lookup)
    → UpdateResult valid id (set_status s) before after l
    → Effect before after (status id s)
status-Effect valid id s before after _ (hit r v at rows) = new_status id s r at rows
status-Effect valid id s before after _ (malformed v same) = nothing _ same
status-Effect valid id s before after _ (missing v absent same) = nothing _ same
status-Effect valid id s before after _ (fault same) = nothing _ same

note-Effect :
    (valid : Bool) (id n : Bytes) (before after : Table) (l : Lookup)
    → UpdateResult valid id (set_note (c_str n)) before after l
    → Effect before after (note id n)
note-Effect valid id n before after _ (hit r v at rows) = new_note id n r at rows
note-Effect valid id n before after _ (malformed v same) = nothing _ same
note-Effect valid id n before after _ (missing v absent same) = nothing _ same
note-Effect valid id n before after _ (fault same) = nothing _ same

add-Effect :
    (d : Device) (before after : Table) (added : Bool)
    → InsertResult d before after added
    → Effect before after (add d)
add-Effect d before after _ (placed now valid free rows) = new_row d now valid free rows
add-Effect d before after _ (refused same) = nothing _ same

module _ (q : Sqlite) (laws : SqliteLaws q) where
  unchanged : (a b : Table) → b ≡ a → (j : Bytes) → b j ≡ a j
  unchanged a b e j = ap (λ (t : Table). t j) e

  pub perform-Effect : (c : Call) (w : q.World) → Effect (laws.find w) (laws.find (perform q c w)) c
  unfolding perform
  perform-Effect (find id out) w = nothing _ (unchanged _ _ (find_device_sound q laws id out w).1)
  perform-Effect (add d) w = add-Effect d _ _ _ (add_device-InsertResult q laws d w)
  perform-Effect (status id s) w =
      status-Effect _ id s _ _ _ (set_device_status-UpdateResult q laws id w s)
  perform-Effect (note id n) w =
      note-Effect _ id n _ _ _ (set_device_note-UpdateResult q laws id w n)
  perform-Effect list w = nothing _ (unchanged _ _ (list_devices-Unchanged q laws w))
  perform-Effect migrate w = nothing _ (unchanged _ _ (migrate_keystore-Unchanged q laws w))

-- The row of the ID is still there, with the same key and time of creation.
pub record StillHas (t : Table) (id : Bytes) (r : Row) : Type 0 where
  pub row : Row
  pub at_id : t id ≡ some row
  pub same_key : row.key ≡ r.key
  pub same_created : row.created ≡ r.created

-- One row is replaced by another of the same key and time, if it is that of the ID at all.
replaced-StillHas :
    (before after : Table) (id changed_id : Bytes) (r old new : Row)
    → before changed_id ≡ some old
    → new.key ≡ old.key
    → new.created ≡ old.created
    → after id ≡ (if equal changed_id id then some new else before id)
    → StillHas before id r
    → StillHas after id r
replaced-StillHas before after id changed_id r old new at key created rows h =
    elim (Bool-cases (equal changed_id id)) [
      | inr other ↦ record {
        row = h.row;
        at_id = (rw other at rows) ∙ h.at_id;
        same_key = h.same_key;
        same_created = h.same_created;
      }
      | inl hit_it ↦
          let same_id : changed_id ≡ id = (equal_iff changed_id id).0 hit_it in
          let same_row : old ≡ h.row = some_inj (sym at ∙ ap before same_id ∙ h.at_id) in
          record {
            row = new;
            at_id = rw hit_it at rows;
            same_key = key ∙ ap (λ (x : Row). x.key) same_row ∙ h.same_key;
            same_created = created ∙ ap (λ (x : Row). x.created) same_row ∙ h.same_created;
          }
    ]

Effect-StillHas :
    (before after : Table) (id : Bytes) (r : Row) (c : Call)
    → Effect before after c
    → StillHas before id r
    → StillHas after id r
Effect-StillHas before after id r c (nothing _ same) h = record {
  row = h.row;
  at_id = same id ∙ h.at_id;
  same_key = h.same_key;
  same_created = h.same_created;
}
Effect-StillHas before after id r _ (new_status i s old at rows) h =
    replaced-StillHas before after id i r old _ at refl refl (rows id) h
Effect-StillHas before after id r _ (new_note i n old at rows) h =
    replaced-StillHas before after id i r old _ at refl refl (rows id) h
Effect-StillHas before after id r _ (new_row d now valid free rows) h = record {
  row = h.row;
  at_id = elim (Bool-cases (equal d.id id)) [
    | inr other ↦ (rw other at (rows id)) ∙ h.at_id
    | inl taken ↦
        let same_id : d.id ≡ id = (equal_iff d.id id).0 taken in
        absurd (cc (sym free ∙ ap before same_id ∙ h.at_id))
  ];
  same_key = h.same_key;
  same_created = h.same_created;
}

module _ (q : Sqlite) (laws : SqliteLaws q) where
  -- Whatever calls the programs make of the keystore, in any order: a device that is in the table
  -- stays in it, with the same key and the same time of creation.
  pub Run-StillHas :
      (P : Call → Type 0) (id : Bytes) (r : Row) (w v : q.World)
      → laws.find w id ≡ some r
      → Run q P w v
      → StillHas (laws.find v) id r
  Run-StillHas P id r w v at run =
      Run-keeps q (λ (u : q.World). StillHas (laws.find u) id r)
        (λ c u p h.
          Effect-StillHas (laws.find u) (laws.find (perform q c u)) id r c
            (perform-Effect q laws c u) h)
        (record { row = r; at_id = at; same_key = refl; same_created = refl }) run
