-- ===== src/Keystore/Calls/Race.antt =====
-- Two processes that add a device under the same ID, with any calls of theirs and of others between: the
-- lookup before an insert may be out of date when the insert comes.
use x_auth.Base.{Bool, true, false, some, equal_refl, ◌≡◌, refl, sym, ap, ◌∙◌, c_str}
use x_auth.Keystore.Sqlite.{Row, Sqlite, SqliteLaws}
use x_auth.Keystore.Store.{Device, add_device}
use x_auth.Keystore.Insert.{InsertResult, placed, refused, row_of, add_device-InsertResult}
use x_auth.Keystore.Update.{Table}
use x_auth.Keystore.Calls.{Call, Run}
use x_auth.Keystore.Calls.Keeps.{Run-StillHas}

-- The row that a successful insert made.
record Placed (d : Device) (after : Table) : Type 0 where
  pub row : Row
  pub at_id : after d.id ≡ some row
  pub at_key : row.key ≡ some (c_str d.key)

InsertResult-Placed :
    (d : Device) (before after : Table) (added : Bool)
    → InsertResult d before after added
    → added ≡ true
    → Placed d after
InsertResult-Placed d before after _ (placed now valid free rows) e = record {
  row = row_of d now;
  at_id = rw equal_refl at (rows d.id);
  at_key = refl;
}
InsertResult-Placed d before after _ (refused same) e = absurd (cc e)

-- An ID that is taken is not inserted again, and the row stays as it is.
InsertResult-taken :
    (d : Device) (before after : Table) (added : Bool) (r : Row)
    → before d.id ≡ some r
    → InsertResult d before after added
    → (added ≡ false) × (after d.id ≡ some r)
InsertResult-taken d before after _ r at (placed now valid free rows) = absurd (cc (sym free ∙ at))
InsertResult-taken d before after _ r at (refused same) = (refl, same d.id ∙ at)

module _ (q : Sqlite) (laws : SqliteLaws q) where
  -- If a device was inserted, then after any calls of the keystore by any processes an insert under the
  -- same ID fails, whatever a lookup said before, and the row of the ID still has the key of the
  -- first device.
  pub add_device-once :
      (P : Call → Type 0) (first second : Device) (w v : q.World)
      → (add_device q first w).0 ≡ true
      → first.id ≡ second.id
      → Run q P (add_device q first w).1 v
      → ((add_device q second v).0 ≡ false)
        × (r : Row) × (laws.find (add_device q second v).1 second.id ≡ some r)
        × (r.key ≡ some (c_str first.key))
  add_device-once P first second w v added same run =
      let p =
        InsertResult-Placed first (laws.find w) (laws.find (add_device q first w).1)
          (add_device q first w).0 (add_device-InsertResult q laws first w) added in
      let kept = Run-StillHas q laws P first.id p.row (add_device q first w).1 v p.at_id run in
      let (refused_now, still) =
        InsertResult-taken second (laws.find v) (laws.find (add_device q second v).1)
          (add_device q second v).0 kept.row (ap (laws.find v) (sym same) ∙ kept.at_id)
          (add_device-InsertResult q laws second v) in
      (refused_now, kept.row, still, kept.same_key ∙ p.at_key)
