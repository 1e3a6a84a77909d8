-- ===== src/Keystore/Answers.antt =====
-- `find_device` of core/keystore.cpp while the file can be read.
use x_auth.Base.{true, Bytes, Option, none, some, ◌≡◌, ◌≢◌, refl, sym, ap, ◌∙◌}
use x_auth.Keystore.Id.{valid_device_id}
use x_auth.Keystore.Sqlite.{
  Flags, Statement, read_only, select_device, Row, Step, row, done, failed, Sqlite, SqliteLaws,
}
use x_auth.Keystore.Store.{Device, Lookup, not_found, read_columns, read_step, find_device}
use x_auth.Keystore.Find.{c_str-valid}

-- No call of a lookup fails.
pub record Answers (q : Sqlite) : Type 0 where
  pub opens : (f : Flags) (w : q.World) → (q.open_v2 f w).0 ≡ true
  pub prepares : (s : Statement) (w : q.World) → (q.prepare_v2 s w).0 ≡ true
  pub selects : (id : Bytes) (w : q.World) → (q.step_select id w).0 ≢ failed

-- The lookup in the table.
abbrev pub lookup_row : Bytes → Device → Option Row → Lookup × Device
lookup_row id out none = (not_found, out)
lookup_row id out (some r) = read_columns id out r.key r

read_step-lookup_row :
    (id : Bytes) (out : Device) (o : Option Row) (rc : Step)
    → rc ≢ failed
    → ((r : Row) → rc ≡ row r → o ≡ some r)
    → (rc ≡ done → o ≡ none)
    → read_step id out rc ≡ lookup_row id out o
unfolding read_step
read_step-lookup_row id out o (row r) ok hr hd = rw (hr r refl)
read_step-lookup_row id out o done ok hr hd = rw (hd refl)
read_step-lookup_row id out o failed ok hr hd = absurd (ok refl)

module _ (q : Sqlite) (laws : SqliteLaws q) (answers : Answers q) (id : Bytes) (out : Device)
    (w : q.World) where
  same : laws.find (q.prepare_v2 select_device (q.open_v2 read_only w).1).1 ≡ laws.find w
  same = laws.find-prepare select_device (q.open_v2 read_only w).1 ∙ laws.find-open read_only w

  -- For a valid ID the result is the row's, and NotFound where there is no row.
  pub find_device-lookup :
      valid_device_id id ≡ true → (find_device q id out w).0 ≡ lookup_row id out (laws.find w id)
  unfolding find_device
  find_device-lookup valid =
      let w2 = (q.prepare_v2 select_device (q.open_v2 read_only w).1).1 in
      rw valid (
        rw (answers.opens read_only w) (
          rw (answers.prepares select_device (q.open_v2 read_only w).1) (
            rw (c_str-valid id valid) (
              read_step-lookup_row id out (laws.find w id) (q.step_select id w2).0
                (answers.selects id w2)
                (λ r e. sym (ap (λ t. t id) same) ∙ laws.select-row id w2 r e)
                (λ e. sym (ap (λ t. t id) same) ∙ laws.select-done id w2 e)))))
