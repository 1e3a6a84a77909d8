-- ===== src/Keystore/Calls/Revoked.antt =====
-- A device that is not active, under calls that do not activate it.
use mathlib.Core.Path.{ap₂}
use x_auth.Base.{
  Bytes, some, if◌then◌else◌, equal, equal_iff, ◌≡◌, ◌≢◌, sym, ap, ◌∙◌, Bool-cases, inl, inr,
  some_inj,
}
use x_auth.Base.Int.{pos}
use x_auth.Keystore.Sqlite.{Row, Sqlite, SqliteLaws}
use x_auth.Keystore.Update.{Table}
use x_auth.Keystore.Calls.{Call, status, perform, Run, Run-keeps}
use x_auth.Keystore.Calls.Keeps.{Effect, nothing, new_status, new_note, new_row, perform-Effect}

-- The device is in the table, and not active.
pub record IsOut (t : Table) (id : Bytes) : Type 0 where
  pub row : Row
  pub at_id : t id ≡ some row
  pub inactive : row.status ≢ pos 1

abbrev pub Spares : Bytes → Call → Type 0
Spares id c = c ≢ status id (pos 1)

replaced-IsOut :
    (before after : Table) (id changed_id : Bytes) (new : Row)
    → (changed_id ≡ id → new.status ≢ pos 1)
    → after id ≡ (if equal changed_id id then some new else before id)
    → IsOut before id
    → IsOut after id
replaced-IsOut before after id changed_id new still rows h =
    elim (Bool-cases (equal changed_id id)) [
      | inr other ↦ record {
        row = h.row;
        at_id = (rw other at rows) ∙ h.at_id;
        inactive = h.inactive;
      }
      | inl hit_it ↦ record {
        row = new;
        at_id = rw hit_it at rows;
        inactive = still ((equal_iff changed_id id).0 hit_it);
      }
    ]

Effect-IsOut :
    (before after : Table) (id : Bytes) (c : Call)
    → Spares id c
    → Effect before after c
    → IsOut before id
    → IsOut after id
Effect-IsOut before after id c spares (nothing _ same) h = record {
  row = h.row;
  at_id = same id ∙ h.at_id;
  inactive = h.inactive;
}
Effect-IsOut before after id _ spares (new_status i s old at rows) h =
    replaced-IsOut before after id i _ (λ same. λ active. spares (ap₂ status same active)) (rows id)
      h
Effect-IsOut before after id _ spares (new_note i n old at rows) h =
    replaced-IsOut before after id i _
      (λ same. λ active.
        let same_row : old ≡ h.row = some_inj (sym at ∙ ap before same ∙ h.at_id) in
        h.inactive (sym (ap (λ (x : Row). x.status) same_row) ∙ active))
      (rows id) h
Effect-IsOut before after id _ spares (new_row d now valid free rows) h =
    replaced-IsOut before after id d.id _
      (λ same. absurd (cc (sym free ∙ ap before same ∙ h.at_id))) (rows id) h

module _ (q : Sqlite) (laws : SqliteLaws q) (id : Bytes) where
  pub Run-IsOut :
      (w v : q.World) → IsOut (laws.find w) id → Run q (Spares id) w v → IsOut (laws.find v) id
  Run-IsOut w v h run =
      Run-keeps q (λ (u : q.World). IsOut (laws.find u) id)
        (λ c u spares out.
          Effect-IsOut (laws.find u) (laws.find (perform q c u)) id c spares
            (perform-Effect q laws c u) out)
        h run
