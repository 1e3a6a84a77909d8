-- ===== src/Tests/Fixtures.antt =====
-- A keystore in memory, a stand-in for the HMAC and a board of plain fields. They satisfy what the
-- models ask of SQLite, OpenSSL, mbedTLS and the chip.
use x_auth.Base.{
  List, some_inj, length, ℕ, zero, suc, ◌+◌, ◌%◌, Bool, true, false, Bytes, codes, [], ◌∷◌, Option,
  none, some, replicate, All, IsByte, equal, if◌then◌else◌, ◌≡◌, refl, arith,
}
use x_auth.Base.Int.{ℤ, pos}
use x_auth.Otp.{IsSha256}
use x_auth.Keygen.{FillsBuffer}
use x_auth.Keystore.Sqlite.{
  Listed, Row, Step, row, done, failed, Change, changed, row_count, Sqlite, SqliteLaws,
}
use x_auth.Keystore.Answers.{Answers}
use x_auth.Firmware.Clock.Hardware.{Board, BoardLaws}

pub record Memory : Type 0 where
  pub table : Bytes → Option Row
  pub last : ℕ

abbrev pub now_text : Bytes
now_text = codes "2026-01-01 00:00:00"

abbrev select : Option Row → Step
select none = done
select (some r) = row r

abbrev put_row : Bytes → Option Row → Memory → Memory
put_row id o w = record { table = λ j. if equal id j then o else w.table j; last = row_count o }

abbrev insert : Bytes → Row → Option Row → Memory → Bool × Memory
insert id r none w = (true, put_row id (some r) w)
insert id r (some old) w = (false, w)

abbrev new_row : Bytes → ℤ → Bytes → Row
new_row key s note = record {
  key = some key;
  status = s;
  note = some note;
  created = some now_text;
}

abbrev pub text_of : Option Bytes → Bytes
text_of none = []
text_of (some t) = t

-- The query sees one ID.
abbrev pub listed_row : Bytes → Option Row → List Listed
listed_row i none = []
listed_row i (some r) =
    record { id = i; status = r.status; note = r.note; created = text_of r.created } ∷ []

abbrev pub memory : Sqlite
memory = record {
  World = Memory;
  open_v2 = λ f w. (true, w);
  prepare_v2 = λ s w. (true, w);
  step_select = λ id w. (select (w.table id), w);
  step_update = λ c id w. (true, put_row id (changed c (w.table id)) w);
  changes = λ w. w.last;
  step_insert = λ id key s note w. insert id (new_row key s note) (w.table id) w;
  step_all = λ w. (listed_row (codes "AB12") (w.table (codes "AB12")), true, w);
  step_table_info = λ w. ([], w);
  exec_add_created = λ w. (true, w);
  datetime_now = λ w. now_text;
}

abbrev select_row : (o : Option Row) (r : Row) → select o ≡ row r → o ≡ some r
select_row none r h = cc h
select_row (some x) r h = cc h

abbrev select_done : (o : Option Row) → select o ≡ done → o ≡ none
select_done none h = refl
select_done (some x) h = cc h

select_answers : (o : Option Row) → select o ≡ failed → ⊥
select_answers none h = cc h
select_answers (some x) h = cc h

abbrev row_count-changed : (c : Change) (o : Option Row) → row_count (changed c o) ≡ row_count o
row_count-changed c none = refl
row_count-changed c (some r) = refl

abbrev insert_new :
    (id : Bytes) (r : Row) (o : Option Row) (w : Memory) → (insert id r o w).0 ≡ true → o ≡ none
insert_new id r none w h = refl
insert_new id r (some x) w h = cc h

abbrev insert_done :
    (id : Bytes) (r : Row) (o : Option Row) (w : Memory) (j : Bytes)
    → (insert id r o w).0 ≡ true
    → (insert id r o w).1.table j ≡ (if equal id j then some r else w.table j)
insert_done id r none w j h = refl
insert_done id r (some x) w j h = cc h

abbrev insert_failed :
    (id : Bytes) (r : Row) (o : Option Row) (w : Memory)
    → (insert id r o w).0 ≡ false
    → (insert id r o w).1.table ≡ w.table
insert_failed id r none w h = cc h
insert_failed id r (some x) w h = refl

abbrev pub memory_laws : SqliteLaws memory
memory_laws = record {
  find = λ w. w.table;
  find-open = λ f w. refl;
  find-prepare = λ s w. refl;
  find-select = λ id w. refl;
  find-table_info = λ w. refl;
  find-add_created = λ w. refl;
  find-all = λ w. refl;
  select-row = λ id w r h. select_row (w.table id) r h;
  select-done = λ id w h. select_done (w.table id) h;
  update-done = λ c id w j h. refl;
  update-changes = λ c id w h. row_count-changed c (w.table id);
  update-failed = λ c id w h. cc h;
  insert-new = λ id key s note w h. insert_new id (new_row key s note) (w.table id) w h;
  insert-done = λ id key s note w j h. insert_done id (new_row key s note) (w.table id) w j h;
  insert-failed = λ id key s note w h. insert_failed id (new_row key s note) (w.table id) w h;
}

pub memory_answers : Answers memory
memory_answers = record {
  opens = λ f w. refl;
  prepares = λ s w. refl;
  selects = λ id w h. select_answers (w.table id) h;
}

-- The bytes of the text added up stand in every place of the digest.
abbrev pub total : Bytes → ℕ
total [] = 0
total (c ∷ s) = c + total s

abbrev pub checksum : Bytes → Bytes → Bytes
checksum key msg = replicate 32 ((total key + total msg) % 256)

abbrev pub hmac : Bytes → Bytes → Option Bytes
hmac key msg = some (checksum key msg)

All-replicate-IsByte : (n b : ℕ) → IsByte b → All IsByte (replicate n b)
All-replicate-IsByte zero b h = tt
All-replicate-IsByte (suc n) b h = (h, All-replicate-IsByte n b h)

pub hmac_sha : IsSha256 hmac
hmac_sha key msg = (
  checksum key msg,
  refl,
  refl,
  All-replicate-IsByte 32 ((total key + total msg) % 256) (omega arith),
)

-- The device AB12.
abbrev pub id : Bytes
id = codes "AB12"

abbrev pub key : Bytes
key = replicate 128 b'a'

abbrev pub device_row : Row
device_row = record {
  key = some key;
  status = pos 1;
  note = some (codes "OK");
  created = some now_text;
}

abbrev pub keystore : Memory
keystore = record { table = λ j. if equal id j then some device_row else none; last = 0 }

pub record Chip : Type 0 where
  pub begins : Bool
  pub lost : Bool
  pub time : ℕ
  pub provisioned : Bool
  pub mark : ℕ

abbrev pub board : Board
board = record {
  State = Chip;
  rtc_begin = λ s. s.begins;
  rtc_lost_power = λ s. s.lost;
  rtc_time = λ s. s.time;
  rtc_adjust = λ t s. record s { time = t; lost = false };
  get_provisioned = λ s. s.provisioned;
  put_provisioned = λ s. record s { provisioned = true };
  get_last_seen = λ s. s.mark;
  put_last_seen = λ t s. record s { mark = t };
}

pub board_laws : BoardLaws board
board_laws = record {
  adjust-begin = λ t s. refl;
  adjust-power = λ t s. refl;
  adjust-time = λ t s. refl;
  adjust-provisioned = λ t s. refl;
  adjust-last_seen = λ t s. refl;
  provision-begin = λ s. refl;
  provision-power = λ s. refl;
  provision-time = λ s. refl;
  provision-provisioned = λ s. refl;
  provision-last_seen = λ s. refl;
  mark-begin = λ t s. refl;
  mark-power = λ t s. refl;
  mark-time = λ t s. refl;
  mark-provisioned = λ t s. refl;
  mark-last_seen = λ t s. refl;
}

-- Random bytes that are all 200.
abbrev pub drawn : ℕ → Option Bytes
drawn n = some (replicate n 200)

high_bytes : (n : ℕ) → (length (replicate {A = ℕ} n 200) ≡ n) × All IsByte (replicate n 200)
high_bytes zero = (refl, tt)
high_bytes (suc n) = let (size, all) = high_bytes n in (omega arith, (omega arith, all))

pub drawn_fills : FillsBuffer drawn
drawn_fills n buf h = rw (← some_inj h) (high_bytes n)
