-- ===== src/Keystore/Sqlite.antt =====
-- The part of SQLite that core/keystore.cpp calls, as an interface: the operations, and what the
-- keystore relies on. `World` is the database file with the locks on it. The laws leave every call
-- free to fail, and say that the file changes only by the program's own writes while a function
-- of the keystore runs.
use x_auth.Base.{ℕ, Bool, true, false, Bytes, List, Option, none, some, if◌then◌else◌, ◌≡◌, equal}
use x_auth.Base.Int.{ℤ}

pub data Flags : Type 0 where
  read_only read_write : Flags

-- The SQL texts that the keystore prepares, one constructor each.
pub data Statement : Type 0 where
  select_device update_status update_note insert_device select_all table_info : Statement

-- A row of `secure_key_data` behind its primary key. A column of text is `none` where it is NULL.
pub record Row : Type 0 where
  pub key : Option Bytes
  pub status : ℤ
  pub note : Option Bytes
  pub created : Option Bytes

-- A row of the listing, which selects no key. `COALESCE` leaves no NULL in the last column.
pub record Listed : Type 0 where
  pub id : Bytes
  pub status : ℤ
  pub note : Option Bytes
  pub created : Bytes

-- What `sqlite3_step` returns: SQLITE_ROW with the columns, SQLITE_DONE, or an error code.
pub data Step : Type 0 where
  row : Row → Step
  done failed : Step

-- The value bound to the first parameter of an UPDATE.
pub data Change : Type 0 where
  set_status : ℤ → Change
  set_note : Bytes → Change

pub record Sqlite : Type 1 where
  pub World : Type 0
  -- A call that returns a Bool returns whether its code was SQLITE_OK or SQLITE_DONE.
  pub open_v2 : Flags → World → Bool × World
  pub prepare_v2 : Statement → World → Bool × World
  pub step_select : Bytes → World → Step × World
  pub step_update : Change → Bytes → World → Bool × World
  -- `sqlite3_changes`: the rows that the last statement changed.
  pub changes : World → ℕ
  pub step_insert : Bytes → Bytes → ℤ → Bytes → World → Bool × World
  -- The rows that stepping gives in turn, and whether it ended with SQLITE_DONE.
  pub step_all : World → List Listed × Bool × World
  -- The names in column 1 of the rows of PRAGMA table_info.
  pub step_table_info : World → List (Option Bytes) × World
  pub exec_add_created : World → Bool × World
  -- The text of `datetime('now')`.
  pub datetime_now : World → Bytes

abbrev pub apply_change : Change → Row → Row
apply_change (set_status s) r = record r { status = s }
apply_change (set_note n) r = record r { note = some n }

abbrev pub changed : Change → Option Row → Option Row
changed c none = none
changed c (some r) = some (apply_change c r)

abbrev pub row_count : Option Row → ℕ
row_count none = 0
row_count (some r) = 1

-- What SQLite documents of these calls, in terms of the table that the file holds.
pub record SqliteLaws (q : Sqlite) : Type 0 where
  pub find : q.World → Bytes → Option Row
  pub find-open : (f : Flags) (w : q.World) → find (q.open_v2 f w).1 ≡ find w
  pub find-prepare : (s : Statement) (w : q.World) → find (q.prepare_v2 s w).1 ≡ find w
  pub find-select : (id : Bytes) (w : q.World) → find (q.step_select id w).1 ≡ find w
  pub find-table_info : (w : q.World) → find (q.step_table_info w).1 ≡ find w
  -- The column is added with NULL in every row, which is how a row without it reads.
  pub find-add_created : (w : q.World) → find (q.exec_add_created w).1 ≡ find w
  pub find-all : (w : q.World) → find (q.step_all w).2 ≡ find w
  pub select-row :
      (id : Bytes) (w : q.World) (r : Row) → (q.step_select id w).0 ≡ row r → find w id ≡ some r
  pub select-done : (id : Bytes) (w : q.World) → (q.step_select id w).0 ≡ done → find w id ≡ none
  pub update-done :
      (c : Change) (id : Bytes) (w : q.World) (j : Bytes)
      → (q.step_update c id w).0 ≡ true
      → find (q.step_update c id w).1 j ≡ (if equal id j then changed c (find w id) else find w j)
  pub update-changes :
      (c : Change) (id : Bytes) (w : q.World)
      → (q.step_update c id w).0 ≡ true
      → q.changes (q.step_update c id w).1 ≡ row_count (find w id)
  pub update-failed :
      (c : Change) (id : Bytes) (w : q.World)
      → (q.step_update c id w).0 ≡ false
      → find (q.step_update c id w).1 ≡ find w
  -- The primary key: an insert of an ID that has a row fails.
  pub insert-new :
      (id key : Bytes) (s : ℤ) (note : Bytes) (w : q.World)
      → (q.step_insert id key s note w).0 ≡ true
      → find w id ≡ none
  pub insert-done :
      (id key : Bytes) (s : ℤ) (note : Bytes) (w : q.World) (j : Bytes)
      → (q.step_insert id key s note w).0 ≡ true
      → find (q.step_insert id key s note w).1 j ≡ (
          if equal id j
          then some (record {
            key = some key;
            status = s;
            note = some note;
            created = some (q.datetime_now w);
          })
          else find w j)
  pub insert-failed :
      (id key : Bytes) (s : ℤ) (note : Bytes) (w : q.World)
      → (q.step_insert id key s note w).0 ≡ false
      → find (q.step_insert id key s note w).1 ≡ find w
