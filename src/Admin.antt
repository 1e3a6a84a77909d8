-- ===== src/Admin.antt =====
-- admin/main.cpp: the daemon that adds, lists, revokes and labels devices. A throw is `none`; `draws`
-- says what each call of `RAND_bytes` gives, in the order of the calls.
pub mod Add
pub mod Revoke
pub mod Enroll
pub mod Dates
pub mod Serve
pub mod Startup
pub mod Calls
pub mod Life
use x_auth.Base.{
  ℕ, zero, suc, Bool, true, false, not, ◌&&◌, Bytes, codes, List, [], ◌∷◌, ◌++◌, Option, none, some,
  ◌==◌, if◌then◌else◌, equal, break_at,
}
use x_auth.Base.Int.{ℤ, pos, negsuc}
use x_auth.Keygen.{generate_device_id, generate_key, valid_label}
use x_auth.Keystore.Id.{device_id_min}
use x_auth.Keystore.Sqlite.{Sqlite}
use x_auth.Keystore.Store.{
  Device, default_device, Lookup, found, not_found, error, find_device, add_device,
  set_device_status, set_device_note, list_devices,
}

abbrev pub reply_err : Bytes
reply_err = codes "ERR\n"

unfoldable pub ok_no : Lookup → Bytes
ok_no found = codes "OK\n"
ok_no not_found = codes "NO\n"
ok_no error = codes "ERR\n"

abbrev pub reply_added : Bytes → Bytes → Bytes
reply_added id key = codes "OK " ++ (id ++ (codes " " ++ (key ++ codes "\n")))

-- How one pass of the loop in `handle_add` ends.
pub data Attempt : Type 0 where
  placed gave_up next_id : Attempt

unfoldable pub status_word : ℤ → Bytes
status_word (pos n) = if n == 1 then codes "active" else codes "revoked"
status_word (negsuc n) = codes "revoked"

abbrev pub or_dash : Bytes → Bytes
or_dash [] = codes "-"
or_dash (c ∷ s) = c ∷ s

unfoldable pub device_line : Device → Bytes
unfolding status_word
device_line d =
    codes "DEVICE "
    ++ (d.id
        ++ (codes " "
            ++ (status_word d.status
                ++ (codes " " ++ (or_dash d.created ++ (codes " " ++ (d.note ++ codes "\n")))))))

-- The loop over the devices, with `END` behind it.
unfoldable pub list_lines : List Device → Bytes
list_lines [] = codes "END\n"
list_lines (d ∷ devices) = device_line d ++ list_lines devices

abbrev pub no_text : Bytes → Bool
no_text [] = true
no_text (c ∷ s) = false

abbrev pub behind_space : Option Bytes → Bytes
behind_space none = []
behind_space (some rest) = rest

module _ (q : Sqlite) where
  unfoldable pub after_lookup : Device → Lookup → q.World → Attempt × q.World
  after_lookup d error w = (gave_up, w)
  after_lookup d found w = (next_id, w)
  after_lookup d not_found w =
      let (added, w') = add_device q d w in ((if added then placed else next_id), w')

  -- The body of the loop behind `generate_device_id`.
  unfoldable pub attempt : Device → q.World → Attempt × q.World
  unfolding after_lookup
  attempt d w = let ((l, existing), w') = find_device q d.id default_device w in after_lookup d l w'

  -- The end of a pass; `later` is what the rest of the loop gives.
  unfoldable pub after_attempt :
      Device → Attempt × q.World → Option Bytes × q.World → Option Bytes × q.World
  after_attempt d (placed, w) later = (some (reply_added d.id d.key), w)
  after_attempt d (gave_up, w) later = (some reply_err, w)
  after_attempt d (next_id, w) later = later

  unfoldable pub handle_list : q.World → Bytes × q.World
  unfolding list_lines
  handle_list w =
      let ((complete, devices), w') = list_devices q w in
      ((if not complete then reply_err else list_lines devices), w')

  -- `LABEL`, with the two parts of the text behind it.
  unfoldable pub label_command : Bytes × Option Bytes → q.World → Option Bytes × q.World
  unfolding ok_no
  label_command (id, none) w = (some reply_err, w)
  label_command (id, some label) w =
      if not (valid_label label)
      then (some reply_err, w)
      else (let (l, w') = set_device_note q id label w in (some (ok_no l), w'))

  module _ (draws : ℕ → ℕ → Option Bytes) where
    -- The loop with `left` attempts to go; `call` numbers the calls of `RAND_bytes`.
    unfoldable pub add_loop : ℕ → ℕ → Device → q.World → Option Bytes × q.World
    unfolding attempt after_attempt
    add_loop zero call d w = (some reply_err, w)
    add_loop (suc left) call d w = elim (generate_device_id (draws call) device_id_min) [
      | none ↦ (none, w)
      | some id ↦
          let d' : Device = record d { id = id } in
          let tried = attempt d' w in after_attempt d' tried (add_loop left (suc call) d' tried.1)
    ]

    unfoldable pub handle_add : Bytes → q.World → Option Bytes × q.World
    unfolding add_loop
    handle_add label w =
        if not (valid_label label) then (some reply_err, w) else elim (generate_key (draws 0)) [
          | none ↦ (none, w)
          | some key ↦
              add_loop 16 1 (record default_device { status = pos 1; note = label; key = key }) w
        ]

    unfoldable pub dispatch : Bytes → Bytes → q.World → Option Bytes × q.World
    unfolding handle_list label_command handle_add ok_no
    dispatch cmd rest w =
        if equal cmd (codes "LIST") && no_text rest
        then (let (reply, w') = handle_list w in (some reply, w'))
        else if equal cmd (codes "ADD")
        then handle_add rest w
        else if equal cmd (codes "REVOKE") && not (no_text rest)
        then (let (l, w') = set_device_status q rest (pos 0) w in (some (ok_no l), w'))
        else if equal cmd (codes "ACTIVATE") && not (no_text rest)
        then (let (l, w') = set_device_status q rest (pos 1) w in (some (ok_no l), w'))
        else if equal cmd (codes "LABEL")
        then label_command (break_at b' ' rest) w
        else (some reply_err, w)

    unfoldable pub handle_request : Bytes → q.World → Option Bytes × q.World
    unfolding dispatch
    handle_request line w = dispatch (break_at b' ' line).0 (behind_space (break_at b' ' line).1) w
