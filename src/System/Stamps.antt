-- ===== src/System/Stamps.antt =====
-- The times of creation in the keystore.
use x_auth.Base.{
  Bool, true, Bytes, Option, none, some, Lacks, equal, equal_refl, if◌then◌else◌, ◌≡◌, refl, sym,
  ◌∙◌, Bool-cases, inl, inr, some_inj, subst, c_str,
}
use x_auth.Keystore.Id.{valid_device_id}
use x_auth.Keystore.Sqlite.{
  read_write, insert_device, Row, Change, set_status, set_note, apply_change, Sqlite, SqliteLaws,
}
use x_auth.Keystore.Store.{Device, Lookup, add_device}
use x_auth.Keystore.Find.{c_str-valid, find_device_sound}
use x_auth.Keystore.Insert.{InsertResult, placed, refused, row_of, add_device-InsertResult}
use x_auth.Keystore.Update.{
  Table, UpdateResult, hit, malformed, missing, fault, set_device_status-UpdateResult,
  set_device_note-UpdateResult,
}
use x_auth.Keystore.Unchanged.{migrate_keystore-Unchanged, list_devices-Unchanged}
use x_auth.Keystore.Calls.{Call, find, add, status, note, list, migrate, perform, Run, Run-keeps}
use x_auth.Admin.Dates.Listing.{IsStamp}

-- A text as `datetime('now')` gives it.
abbrev pub IsTime : Bytes → Type 0
IsTime t = IsStamp t × Lacks 0 t

abbrev pub IsCreated : Option Bytes → Type 0
IsCreated none = Unit
IsCreated (some t) = IsTime t

-- Every row has such a time, or none.
abbrev pub IsStampedTable : Table → Type 0
IsStampedTable t = (j : Bytes) (r : Row) → t j ≡ some r → IsCreated r.created

same-IsStampedTable :
    (before after : Table)
    → ((j : Bytes) → after j ≡ before j)
    → IsStampedTable before
    → IsStampedTable after
same-IsStampedTable before after same h j r at = h j r (sym (same j) ∙ at)

replaced-IsStampedTable :
    (before after : Table) (id : Bytes) (new : Row)
    → IsCreated new.created
    → ((j : Bytes) → after j ≡ (if equal id j then some new else before j))
    → IsStampedTable before
    → IsStampedTable after
replaced-IsStampedTable before after id new good rows h j r at = elim (Bool-cases (equal id j)) [
  | inr other ↦ h j r (sym (rw other at (rows j)) ∙ at)
  | inl there ↦
      subst (λ (x : Row). IsCreated x.created) (some_inj (sym (rw there at (rows j)) ∙ at)) good
]

apply_change-IsCreated :
    (c : Change) (r : Row) → IsCreated r.created → IsCreated (apply_change c r).created
apply_change-IsCreated (set_status s) r h = h
apply_change-IsCreated (set_note n) r h = h

UpdateResult-IsStampedTable :
    (valid : Bool) (id : Bytes) (c : Change) (before after : Table) (l : Lookup)
    → UpdateResult valid id c before after l
    → IsStampedTable before
    → IsStampedTable after
UpdateResult-IsStampedTable valid id c before after _ (hit r v at rows) h =
    replaced-IsStampedTable before after id (apply_change c r)
      (apply_change-IsCreated c r (h id r at)) rows h
UpdateResult-IsStampedTable valid id c before after _ (malformed v same) h =
    same-IsStampedTable before after same h
UpdateResult-IsStampedTable valid id c before after _ (missing v absent same) h =
    same-IsStampedTable before after same h
UpdateResult-IsStampedTable valid id c before after _ (fault same) h =
    same-IsStampedTable before after same h

InsertResult-IsStampedTable :
    (d : Device) (before after : Table) (added : Bool)
    → InsertResult d before after added
    → (added ≡ true → (now : Bytes) × IsTime now × (after d.id ≡ some (row_of d now)))
    → IsStampedTable before
    → IsStampedTable after
InsertResult-IsStampedTable d before after _ (placed now valid free rows) made h =
    let (time, good, at) = made refl in
    let same : row_of d time ≡ row_of d now = some_inj (sym at ∙ (rw equal_refl at (rows d.id))) in
    replaced-IsStampedTable before after d.id (row_of d now)
      (subst (λ (x : Row). IsCreated x.created) same good) rows h
InsertResult-IsStampedTable d before after _ (refused same) made h =
    same-IsStampedTable before after same h

module _ (q : Sqlite) (laws : SqliteLaws q) where
  -- A device that was added has the present time.
  add_device-time :
      (d : Device) (w : q.World)
      → (add_device q d w).0 ≡ true
      → (v : q.World) × (laws.find (add_device q d w).1 d.id ≡ some (row_of d (q.datetime_now v)))
  unfolding add_device
  add_device-time d w h =
      let opened = q.open_v2 read_write w in
      let prepared = q.prepare_v2 insert_device opened.1 in
      elim (Bool-cases (valid_device_id d.id)) [
        | inr bad ↦ absurd (cc (rw bad at h))
        | inl valid ↦ elim (Bool-cases opened.0) [
          | inr shut ↦ absurd (cc (rw (valid, shut) at h))
          | inl open_ok ↦ elim (Bool-cases prepared.0) [
            | inr unready ↦ absurd (cc (rw (valid, open_ok, unready) at h))
            | inl ready ↦
                let ok = rw (valid, open_ok, ready, c_str-valid d.id valid) at h in
                (
                  prepared.1,
                  rw (valid, open_ok, ready, c_str-valid d.id valid)
                      (laws.insert-done d.id (c_str d.key) d.status (c_str d.note) prepared.1 d.id
                          ok
                        ∙ rw equal_refl refl),
                )
          ]
        ]
      ]

  module _ (times : (w : q.World) → IsTime (q.datetime_now w)) where
    perform-IsStampedTable :
        (c : Call) (w : q.World)
        → IsStampedTable (laws.find w)
        → IsStampedTable (laws.find (perform q c w))
    unfolding perform
    perform-IsStampedTable (find id out) w h = rw (find_device_sound q laws id out w).1 h
    perform-IsStampedTable (add d) w h =
        InsertResult-IsStampedTable d (laws.find w) (laws.find (add_device q d w).1)
          (add_device q d w).0 (add_device-InsertResult q laws d w)
          (λ ok. let (v, at) = add_device-time d w ok in (q.datetime_now v, times v, at)) h
    perform-IsStampedTable (status id s) w h =
        UpdateResult-IsStampedTable _ id (set_status s) _ _ _
          (set_device_status-UpdateResult q laws id w s) h
    perform-IsStampedTable (note id n) w h =
        UpdateResult-IsStampedTable _ id (set_note (c_str n)) _ _ _
          (set_device_note-UpdateResult q laws id w n) h
    perform-IsStampedTable list w h = rw (list_devices-Unchanged q laws w) h
    perform-IsStampedTable migrate w h = rw (migrate_keystore-Unchanged q laws w) h

    pub Run-IsStampedTable :
        (P : Call → Type 0) (w v : q.World)
        → IsStampedTable (laws.find w)
        → Run q P w v
        → IsStampedTable (laws.find v)
    Run-IsStampedTable P w v h run =
        Run-keeps q (λ (u : q.World). IsStampedTable (laws.find u))
          (λ c u p good. perform-IsStampedTable c u good) h run
