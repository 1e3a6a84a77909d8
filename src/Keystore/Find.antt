-- ===== src/Keystore/Find.antt =====
-- `find_device` of core/keystore.cpp, in terms of the table.
use x_auth.Base.{
  Bool, true, false, Bytes, Option, none, some, ◌≡◌, refl, sym, ap, ◌∙◌, inl, inr, Bool-cases,
  c_str, c_str-Lacks,
}
use x_auth.Keystore.Id.{valid_device_id, valid_device_id-Lacks}
use x_auth.Keystore.Sqlite.{
  read_only, select_device, Row, Step, row, done, failed, Sqlite, SqliteLaws,
}
use x_auth.Keystore.Store.{
  Device, Lookup, found, not_found, error, column_text, read_columns, read_step, find_device,
}

pub c_str-valid : (id : Bytes) → valid_device_id id ≡ true → c_str id ≡ id
c_str-valid id h = c_str-Lacks id (valid_device_id-Lacks id h).0

-- The device that a row with a key stands for.
abbrev pub device_of : Bytes → Bytes → Row → Device → Device
device_of id key r out = record out {
  id = id;
  key = c_str key;
  status = r.status;
  note = column_text r.note;
}

-- The row of a device: it has a key.
pub record HasKey (o : Option Row) (r : Row) (key : Bytes) : Type 0 where
  pub at_id : o ≡ some r
  pub at_key : r.key ≡ some key

-- What a result of `find_device` says of the row `o` at the ID.
pub data FindResult (valid : Bool) (o : Option Row) (id : Bytes) (out : Device)
    : Lookup → Device → Type 0 where
  hit :
      (r : Row) (key : Bytes)
      → valid ≡ true
      → HasKey o r key
      → FindResult valid o id out found (device_of id key r out)
  malformed : valid ≡ false → FindResult valid o id out not_found out
  missing : valid ≡ true → o ≡ none → FindResult valid o id out not_found out
  no_key :
      (r : Row) → valid ≡ true → o ≡ some r → r.key ≡ none → FindResult valid o id out not_found out
  fault : FindResult valid o id out error out

read_columns-FindResult :
    (id : Bytes) (out : Device) (o : Option Row) (r : Row) (k : Option Bytes)
    → o ≡ some r
    → r.key ≡ k
    → FindResult true o id out (read_columns id out k r).0 (read_columns id out k r).1
unfolding read_columns
read_columns-FindResult id out o r none h e = no_key r refl h e
read_columns-FindResult id out o r (some key) h e =
    hit r key refl (record { at_id = h; at_key = e })

read_step-FindResult :
    (id : Bytes) (out : Device) (o : Option Row) (rc : Step)
    → ((r : Row) → rc ≡ row r → o ≡ some r)
    → (rc ≡ done → o ≡ none)
    → FindResult true o id out (read_step id out rc).0 (read_step id out rc).1
unfolding read_step
read_step-FindResult id out o (row r) hr hd =
    read_columns-FindResult id out o r r.key (hr r refl) refl
read_step-FindResult id out o done hr hd = missing refl (hd refl)
read_step-FindResult id out o failed hr hd = fault

module _ (q : Sqlite) (laws : SqliteLaws q) (id : Bytes) (out : Device) (w : q.World) where
  abbrev opened : Bool × q.World
  opened = q.open_v2 read_only w

  abbrev prepared : Bool × q.World
  prepared = q.prepare_v2 select_device opened.1

  -- The steps before the last leave the table alone.
  same_opened : laws.find opened.1 ≡ laws.find w
  same_opened = laws.find-open read_only w

  same_prepared : laws.find prepared.1 ≡ laws.find w
  same_prepared = laws.find-prepare select_device opened.1 ∙ same_opened

  stepped-FindResult :
      valid_device_id id ≡ true
      → FindResult true
          (laws.find w id)
          id
          out
          (read_step id out (q.step_select (c_str id) prepared.1).0).0
          (read_step id out (q.step_select (c_str id) prepared.1).0).1
  stepped-FindResult valid = rw (c_str-valid id valid) (
      read_step-FindResult id out (laws.find w id) (q.step_select id prepared.1).0
        (λ r e. sym (ap (λ t. t id) same_prepared) ∙ laws.select-row id prepared.1 r e)
        (λ e. sym (ap (λ t. t id) same_prepared) ∙ laws.select-done id prepared.1 e))

  -- Whatever fails on the way, the result tells the truth about the row at the ID, `out` is written
  -- only where the row was found, and the table is as it was.
  pub find_device_sound :
      FindResult
        (valid_device_id id)
        (laws.find w id)
        id
        out
        (find_device q id out w).0.0
        (find_device q id out w).0.1
      × (laws.find (find_device q id out w).1 ≡ laws.find w)
  unfolding find_device
  find_device_sound = elim (Bool-cases (valid_device_id id)) [
    | inr bad ↦ rw bad (malformed refl, refl)
    | inl valid ↦ rw valid (elim (Bool-cases opened.0) [
      | inr shut ↦ rw shut (fault, same_opened)
      | inl open_ok ↦ rw open_ok (elim (Bool-cases prepared.0) [
        | inr refused ↦ rw refused (fault, same_prepared)
        | inl ready ↦
            rw ready
              (stepped-FindResult valid, laws.find-select (c_str id) prepared.1 ∙ same_prepared)
      ])
    ])
  ]
