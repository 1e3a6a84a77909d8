-- ===== src/Provision.antt =====
-- tools/provision/main.cpp: the command that adds, lists, revokes and labels devices. `draws` says what
-- each call of `RAND_bytes` gives, `stoi` is the function of the standard library, and `event` is how
-- the operating system answers where the header is written. What goes to the error stream is left
-- out.
pub mod Place
pub mod Add
pub mod Flash
pub mod Args
pub mod Results
pub mod Commands
pub mod Calls
use x_auth.Base.{
  ℕ, zero, suc, Bool, true, false, not, ◌&&◌, ◌||◌, Bytes, codes, List, [], ◌∷◌, ◌++◌, Option, none,
  some, ◌>>=◌, ◌-◌, ◌==◌, if◌then◌else◌, equal, length, take, replicate,
}
use x_auth.Base.Int.{ℤ, pos, lt_ℤ, pos_part}
use x_auth.Keygen.{generate_device_id, generate_key, valid_label, firmware_header}
use x_auth.Keystore.Id.{device_id_min, device_id_max}
use x_auth.Keystore.Sqlite.{Sqlite}
use x_auth.Keystore.Store.{
  Device, default_device, Lookup, found, not_found, error, set_device_status, set_device_note,
  list_devices, migrate_keystore,
}
use x_auth.Admin.{Attempt, placed, gave_up, next_id, attempt, status_word, or_dash, no_text}

-- `open` fails, or `write` fails, or it takes so many bytes.
pub data FileEvent : Type 0 where
  open_failed write_failed : FileEvent
  wrote : ℕ → FileEvent

-- Whether it went well, and what the file holds then, `none` where it was not opened.
unfoldable pub write_firmware_header : FileEvent → Device → Bool × Option Bytes
write_firmware_header open_failed d = (false, none)
write_firmware_header write_failed d = (false, some [])
write_firmware_header (wrote n) d =
    let body = firmware_header d.id d.key in (n == length body, some (take n body))

-- The exit status, what is printed, and what the header file holds, `none` where it was not opened.
pub record Outcome : Type 0 where
  pub status : ℕ
  pub out : Bytes
  pub file : Option Bytes

abbrev pub exits : ℕ → Outcome
exits n = record { status = n; out = []; file = none }

abbrev pub usage : Outcome
usage = exits 2

unfoldable pub report : Lookup → Bytes → Bytes → Outcome
report found id done = record {
  status = 0;
  out = id ++ (codes " " ++ (done ++ codes "\n"));
  file = none;
}
report not_found id done = exits 1
report error id done = exits 1

pub record AddOptions : Type 0 where
  pub label : Bytes
  pub header : Bytes
  pub id_length : ℤ

abbrev pub add_defaults : AddOptions
add_defaults = record { label = codes "OK"; header = []; id_length = pos device_id_min }

-- `std::left << std::setw(width)`.
unfoldable pub column : ℕ → Bytes → Bytes
column width s = s ++ replicate (width - length s) b' '

unfoldable pub device_row : Device → Bytes
unfolding column status_word
device_row d =
    column 10 d.id
    ++ (column 10 (status_word d.status)
        ++ (column 21 (or_dash d.created) ++ (d.note ++ codes "\n")))

unfoldable pub device_rows : List Device → Bytes
unfolding device_row
device_rows [] = []
device_rows (d ∷ devices) = device_row d ++ device_rows devices

unfoldable pub title_row : Bytes
unfolding column
title_row =
    column 10 (codes "ID")
    ++ (column 10 (codes "STATUS") ++ (column 21 (codes "CREATED (UTC)") ++ codes "LABEL\n"))

module _ (stoi : Bytes → Option ℤ) where
  -- One option with its value; `none` is the way to `usage`.
  unfoldable pub set_option : Bytes → Bytes → AddOptions → Option AddOptions
  set_option arg v o =
      if equal arg (codes "--label")
      then some (record o { label = v })
      else if equal arg (codes "--firmware-header")
      then some (record o { header = v })
      else if equal arg (codes "--id-length")
      then (do n ← stoi v; some (record o { id_length = n }))
      else none

  unfoldable pub parse_add : List Bytes → AddOptions → Option AddOptions
  unfolding set_option
  parse_add [] o = some o
  parse_add (arg ∷ []) o = none
  parse_add (arg ∷ v ∷ args) o = do o' ← set_option arg v o; parse_add args o'

abbrev pub no_arguments : List Bytes → Bool
no_arguments [] = true
no_arguments (a ∷ args) = false

module _ (q : Sqlite) where
  unfoldable pub cmd_list : q.World → Outcome × q.World
  unfolding device_rows title_row
  cmd_list w =
      let ((complete, devices), w') = list_devices q w in
      (
        (if not complete
            then exits 1
            else record { status = 0; out = title_row ++ device_rows devices; file = none }),
        w',
      )

  -- The end of a pass of the loop; `later` is what the rest of the loop gives.
  unfoldable pub after_try :
      Device
      → Attempt × q.World
      → Option (Bool × Device) × q.World
      → Option (Bool × Device) × q.World
  after_try d (placed, w) later = (some (true, d), w)
  after_try d (gave_up, w) later = (some (false, d), w)
  after_try d (next_id, w) later = later

  -- What follows the loop.
  unfoldable pub finish : FileEvent → Bytes → Bool × Device → q.World → Outcome × q.World
  unfolding write_firmware_header
  finish event header (false, d) w = (exits 1, w)
  finish event [] (true, d) w = (record { status = 0; out = d.id ++ codes "\n"; file = none }, w)
  finish event (c ∷ path) (true, d) w =
      let (ok, file) = write_firmware_header event d in
      if not ok
      then (let (l, w') = set_device_status q d.id (pos 0) w in
          (record { status = 1; out = []; file = file }, w'))
      else (record { status = 0; out = d.id ++ codes "\n"; file = file }, w)

  module _ (draws : ℕ → ℕ → Option Bytes) where
    -- The loop with `left` attempts to go; its body behind `generate_device_id` is that of the admin
    -- daemon. `none` is a throw.
    unfoldable pub place_loop : ℕ → ℕ → ℕ → Device → q.World → Option (Bool × Device) × q.World
    unfolding after_try
    place_loop len zero call d w = (some (false, d), w)
    place_loop len (suc left) call d w = elim (generate_device_id (draws call) len) [
      | none ↦ (none, w)
      | some id ↦
          let d' : Device = record d { id = id } in
          let tried = attempt q d' w in
          after_try d' tried (place_loop len left (suc call) d' tried.1)
    ]

    -- A throw is caught in `main`, which then exits with 1.
    unfoldable pub after_loop :
        FileEvent → Bytes → Option (Bool × Device) × q.World → Outcome × q.World
    unfolding finish
    after_loop event header (none, w) = (exits 1, w)
    after_loop event header (some r, w) = finish event header r w

    unfoldable pub add : FileEvent → AddOptions → q.World → Outcome × q.World
    unfolding after_loop place_loop
    add event o w =
        if not (valid_label o.label)
        then (exits 2, w)
        else if lt_ℤ o.id_length (pos device_id_min) || lt_ℤ (pos device_id_max) o.id_length
        then (exits 2, w)
        else elim (generate_key (draws 0)) [
          | none ↦ (exits 1, w)
          | some key ↦ after_loop event o.header (
              place_loop (pos_part o.id_length) 16 1
                (record default_device { status = pos 1; note = o.label; key = key }) w)
        ]

    module _ (stoi : Bytes → Option ℤ) where
      unfoldable pub cmd_add : FileEvent → List Bytes → q.World → Outcome × q.World
      unfolding add
      cmd_add event args w = elim (parse_add stoi args add_defaults) [
        | none ↦ (usage, w)
        | some o ↦ add event o w
      ]

      -- The commands with one argument, and with two.
      unfoldable pub with_one : Bytes → Bytes → q.World → Outcome × q.World
      unfolding report
      with_one cmd id w =
          if equal cmd (codes "revoke")
          then (let (l, w') = set_device_status q id (pos 0) w in
              (report l id (codes "revoked"), w'))
          else if equal cmd (codes "activate")
          then (let (l, w') = set_device_status q id (pos 1) w in
              (report l id (codes "active"), w'))
          else (usage, w)

      unfoldable pub with_two : Bytes → Bytes → Bytes → q.World → Outcome × q.World
      unfolding report
      with_two cmd id label w =
          if not (equal cmd (codes "label"))
          then (usage, w)
          else if not (valid_label label)
          then (exits 2, w)
          else (let (l, w') = set_device_note q id label w in
              (report l id (codes "relabelled"), w'))

      unfoldable pub by_count : Bytes → List Bytes → q.World → Outcome × q.World
      unfolding with_one with_two
      by_count cmd (a ∷ []) w = with_one cmd a w
      by_count cmd (a ∷ b ∷ []) w = with_two cmd a b w
      by_count cmd args w = (usage, w)

      unfoldable pub command : FileEvent → Bytes → List Bytes → q.World → Outcome × q.World
      unfolding cmd_add cmd_list by_count
      command event cmd args w =
          if equal cmd (codes "add")
          then cmd_add event args w
          else if equal cmd (codes "list") && no_arguments args
          then cmd_list w
          else by_count cmd args w

      -- `argv` behind the name of the program.
      unfoldable pub main : FileEvent → List Bytes → q.World → Outcome × q.World
      unfolding command
      main event [] w = (usage, w)
      main event (cmd ∷ args) w =
          let (ready, w') = migrate_keystore q w in
          if not ready then (exits 1, w') else command event cmd args w'
