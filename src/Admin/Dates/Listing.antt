-- ===== src/Admin/Dates/Listing.antt =====
-- A reader of the reply to `LIST`: a specification of the lines that the comment at the top of
-- admin/main.cpp promises, one per device, with four fields of which the last keeps its spaces. It is no
-- code of the repository. The admin page has a reader of its own, which also refuses a reply of more
-- than 64 KiB.
use x_auth.Base.{
  ℕ, Bool, true, false, Bytes, codes, List, [], ◌∷◌, ◌++◌, Option, none, some, ◌>>=◌, ◌==◌,
  if◌then◌else◌, equal, length, break_at, Lacks, ◌≡◌, ◌≢◌,
}
use x_auth.Base.Int.{ℤ, pos, negsuc}
use x_auth.Keystore.Store.{Device}
use x_auth.Admin.Dates.{strip_prefix}

-- What a line says of a device.
pub record Entry : Type 0 where
  pub id : Bytes
  pub active : Bool
  pub created : Bytes
  pub label : Bytes

abbrev pub active_status : ℤ → Bool
active_status (pos n) = n == 1
active_status (negsuc n) = false

abbrev pub entry : Device → Entry
entry d = record { id = d.id; active = active_status d.status; created = d.created; label = d.note }

abbrev pub add_front : ℕ → List Bytes → List Bytes
add_front c [] = (c ∷ []) ∷ []
add_front c (line ∷ lines) = (c ∷ line) ∷ lines

-- `split('\n')`, without the piece behind the last newline if that is empty.
unfoldable pub lines : Bytes → List Bytes
lines [] = []
lines (c ∷ s) = if c == b'\n' then [] ∷ lines s else add_front c (lines s)

abbrev with_space : Bytes × Option Bytes → Bytes
with_space (s, none) = s
with_space (date, some time) = date ++ b' ' ∷ time

-- `-` stands for no date, and the first T for a space.
unfoldable pub read_created : Bytes → Bytes
read_created s = if equal s (codes "-") then [] else with_space (break_at b'T' s)

unfoldable pub read_status : Bytes → Option Bool
read_status s =
    if equal s (codes "active")
    then some true
    else if equal s (codes "revoked")
    then some false
    else none

abbrev cut : Bytes × Option Bytes → Option (Bytes × Bytes)
cut (front, none) = none
cut (front, some rest) = some (front, rest)

-- The text up to the first space, and the text behind it.
abbrev pub token : Bytes → Option (Bytes × Bytes)
token s = cut (break_at b' ' s)

unfoldable pub read_entry : Bytes → Option Entry
read_entry s = do
  r0 ← strip_prefix (codes "DEVICE ") s
  (id, r1) ← token r0
  (status, r2) ← token r1
  active ← read_status status
  (created, label) ← token r2
  some (record { id = id; active = active; created = read_created created; label = label })

-- All lines up to the line `END`, which is the last.
unfoldable pub read_lines : List Bytes → Option (List Entry)
read_lines [] = none
read_lines (line ∷ []) = if equal line (codes "END") then some [] else none
read_lines (line ∷ next ∷ lines) = do
  e ← read_entry line
  es ← read_lines (next ∷ lines)
  some (e ∷ es)

-- A date of ten characters and a time, as SQLite writes them, or none of both.
pub data IsStamp : Bytes → Type 0 where
  undated : IsStamp []
  dated :
      (c : ℕ) (date time : Bytes)
      → length date ≡ 9
      → c ≢ b'-'
      → Lacks b' ' (c ∷ date)
      → Lacks b'T' (c ∷ date)
      → Lacks b'\n' (c ∷ date)
      → Lacks b' ' time
      → Lacks b'\n' time
      → IsStamp (c ∷ date ++ b' ' ∷ time)

pub record IsListable (d : Device) : Type 0 where
  pub id_space : Lacks b' ' d.id
  pub id_line : Lacks b'\n' d.id
  pub stamp : IsStamp d.created
  pub note_line : Lacks b'\n' d.note
