-- ===== src/Keystore/Store.antt =====
-- The functions of core/keystore.cpp over the interface of `Keystore.Sqlite`. What goes to the log
-- is left out. A connection is closed at each return and holds nothing that a later call reads.
use x_auth.Base.{
  Bool, true, false, not, Bytes, codes, List, [], ◌∷◌, Option, none, some, ltb, if◌then◌else◌,
  equal, c_str,
}
use x_auth.Base.Int.{ℤ, pos}
use x_auth.Keystore.Id.{valid_device_id}
use x_auth.Keystore.Sqlite.{
  Flags, read_only, read_write, Statement, select_device, update_status, update_note, insert_device,
  select_all, table_info, Row, Listed, Step, row, done, failed, Change, set_status, set_note,
  Sqlite,
}

pub record Device : Type 0 where
  pub id : Bytes
  pub key : Bytes
  pub status : ℤ
  pub note : Bytes
  pub created : Bytes

abbrev pub default_device : Device
default_device = record { id = []; key = []; status = pos 0; note = codes "OK"; created = [] }

pub data Lookup : Type 0 where
  found not_found error : Lookup

-- The environment variable, and the path that the build bakes in.
unfoldable pub db_path : Option Bytes → Bytes → Bytes
db_path none xauth_db_default = xauth_db_default
db_path (some []) xauth_db_default = xauth_db_default
db_path (some (c ∷ env)) xauth_db_default = c ∷ env

unfoldable pub column_text : Option Bytes → Bytes
column_text none = []
column_text (some v) = c_str v

-- The columns of a row that was found. A NULL key leaves `out` as it was.
unfoldable pub read_columns : Bytes → Device → Option Bytes → Row → Lookup × Device
unfolding column_text
read_columns id out none r = (not_found, out)
read_columns id out (some key) r =
    (found, record out { id = id; key = c_str key; status = r.status; note = column_text r.note })

unfoldable pub read_step : Bytes → Device → Step → Lookup × Device
unfolding read_columns
read_step id out (row r) = read_columns id out r.key r
read_step id out done = (not_found, out)
read_step id out failed = (error, out)

abbrev pub device_of_listed : Listed → Device
device_of_listed l = record default_device {
  id = c_str l.id;
  status = l.status;
  note = column_text l.note;
  created = c_str l.created;
}

-- The statement is `update_status` or `update_note`, by the value that is bound.
abbrev pub update_statement : Change → Statement
update_statement (set_status s) = update_status
update_statement (set_note n) = update_note

abbrev pub bound : Change → Change
bound (set_status s) = set_status s
bound (set_note n) = set_note (c_str n)

unfoldable pub has_column : Bytes → List (Option Bytes) → Bool
unfolding column_text
has_column name [] = false
has_column name (c ∷ cs) = if equal (column_text c) name then true else has_column name cs

unfoldable pub collect : List Listed → List Device
unfolding column_text
collect [] = []
collect (l ∷ ls) = device_of_listed l ∷ collect ls

module _ (q : Sqlite) where
  open q use {
    World, open_v2, prepare_v2, step_select, step_update, changes, step_insert, step_all,
    step_table_info, exec_add_created,
  }

  unfoldable pub open_db : Flags → World → Bool × World
  open_db flags w = open_v2 flags w

  unfoldable pub update_one : Bytes → Change → World → Lookup × World
  unfolding open_db
  update_one id value w =
      if not (valid_device_id id)
      then (not_found, w)
      else let (opened, w1) = open_db read_write w in
        if not opened
        then (error, w1)
        else let (prepared, w2) = prepare_v2 (update_statement value) w1 in
          if not prepared
          then (error, w2)
          else let (stepped, w3) = step_update (bound value) (c_str id) w2 in
            if not stepped
            then (error, w3)
            else ((if ltb 0 (changes w3) then found else not_found), w3)

  unfoldable pub find_device : Bytes → Device → World → (Lookup × Device) × World
  unfolding open_db read_step
  find_device id out w =
      if not (valid_device_id id)
      then ((not_found, out), w)
      else let (opened, w1) = open_db read_only w in
        if not opened
        then ((error, out), w1)
        else let (prepared, w2) = prepare_v2 select_device w1 in
          if not prepared
          then ((error, out), w2)
          else let (rc, w3) = step_select (c_str id) w2 in (read_step id out rc, w3)

  unfoldable pub migrate_keystore : World → Bool × World
  unfolding open_db has_column
  migrate_keystore w =
      let (opened, w1) = open_db read_write w in
      if not opened
      then (false, w1)
      else let (prepared, w2) = prepare_v2 table_info w1 in
        if not prepared
        then (false, w2)
        else let (columns, w3) = step_table_info w2 in
          if not (has_column (codes "Created") columns) then exec_add_created w3 else (true, w3)

  unfoldable pub add_device : Device → World → Bool × World
  unfolding open_db
  add_device device w =
      if not (valid_device_id device.id)
      then (false, w)
      else let (opened, w1) = open_db read_write w in
        if not opened
        then (false, w1)
        else let (prepared, w2) = prepare_v2 insert_device w1 in
          if not prepared
          then (false, w2)
          else step_insert (c_str device.id) (c_str device.key) device.status (c_str device.note) w2

  unfoldable pub set_device_status : Bytes → ℤ → World → Lookup × World
  unfolding update_one
  set_device_status id status w = update_one id (set_status status) w

  unfoldable pub set_device_note : Bytes → Bytes → World → Lookup × World
  unfolding update_one
  set_device_note id note w = update_one id (set_note note) w

  unfoldable pub list_devices : World → (Bool × List Device) × World
  unfolding open_db collect
  list_devices w =
      let (opened, w1) = open_db read_only w in
      if not opened
      then ((false, []), w1)
      else let (prepared, w2) = prepare_v2 select_all w1 in
        if not prepared
        then ((false, []), w2)
        else let (rows, complete, w3) = step_all w2 in ((complete, collect rows), w3)
