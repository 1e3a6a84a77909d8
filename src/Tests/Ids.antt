-- ===== src/Tests/Ids.antt =====
-- Two devices added, the second with a draw that gives the ID of the first.
use x_auth.Base.{
  true, false, ℕ, zero, suc, Bytes, codes, List, [], ◌∷◌, ◌++◌, Option, none, some, ◌==◌,
  if◌then◌else◌, ◌≡◌, refl, replicate, break_at, equal, c_str,
}
use x_auth.Base.Int.{negsuc, pos}
use x_auth.Keystore.Sqlite.{Row}
use x_auth.Keystore.Calls.{Call, status, perform, Run-one}
use x_auth.Keystore.Calls.Race.{add_device-once}
use x_auth.Keygen.{
  generate_device_id, generate_key, pick_chars, hex_bytes, valid_label, label_chars, label_char,
}
use x_auth.Keystore.Id.{crockford_char, crockford_chars, valid_device_id}
use x_auth.Keystore.Store.{
  column_text, read_columns, read_step, open_db, find_device, update_one, set_device_status,
  add_device, Device, default_device,
}
use x_auth.Socket.{chunk, wrote, scan_chunk, read_line, peer_allowed}
use x_auth.Admin.{
  ok_no, after_lookup, attempt, after_attempt, add_loop, handle_add, dispatch, handle_request,
}
use x_auth.Admin.Serve.{reply_to, connection}
use x_auth.System.{Event, admin, run_event, run_events}
use x_auth.System.Ids.{Distinct, added_ids_differ}
use x_auth.Tests.Fixtures.{Memory, memory, memory_laws, hmac, keystore, drawn}

abbrev draws : ℕ → ℕ → Option Bytes
draws call = drawn

abbrev other_draws : ℕ → ℕ → Option Bytes
other_draws call n = some (replicate n (if call == 1 then 200 else 201))

abbrev hex_text : Bytes → ℕ → Bytes
hex_text digits zero = []
hex_text digits (suc n) = digits ++ hex_text digits n

-- The replies behind their first letter.
abbrev told : Bytes
told = codes "K 8888 " ++ (hex_text (codes "c8") 64 ++ codes "\n")

abbrev other_told : Bytes
other_told = codes "K 9999 " ++ (hex_text (codes "c9") 64 ++ codes "\n")

abbrev add_line : Bytes
add_line = codes "ADD " ++ codes "desk"

abbrev added : Memory
added = (handle_request memory draws add_line keystore).1

-- The first device is revoked meanwhile.
abbrev events : List Event
events = admin draws (negsuc 0) none (chunk (codes "REVOKE 8888\n") ∷ []) (wrote 9 ∷ []) ∷ []

added_ok : (handle_request memory draws add_line keystore).0 ≡ some (b'O' ∷ told)
unfolding handle_request dispatch break_at equal handle_add valid_label label_chars label_char
    generate_key hex_bytes add_loop generate_device_id pick_chars attempt after_lookup after_attempt
    find_device add_device valid_device_id crockford_chars crockford_char open_db read_step
    read_columns column_text c_str
added_ok = refl

other_added_ok :
    (handle_request memory other_draws add_line (run_events hmac memory events added)).0
    ≡ some (b'O' ∷ other_told)
unfolding run_events run_event connection reply_to peer_allowed read_line scan_chunk
    set_device_status update_one ok_no handle_request dispatch break_at equal handle_add valid_label
    label_chars label_char generate_key hex_bytes add_loop generate_device_id pick_chars attempt
    after_lookup after_attempt find_device add_device valid_device_id crockford_chars crockford_char
    open_db read_step read_columns column_text c_str
other_added_ok = refl

added_ids_differ_example : Distinct (b'O' ∷ told) (b'O' ∷ other_told) (
    memory_laws.find
      (handle_request memory other_draws add_line (run_events hmac memory events added)).1)
added_ids_differ_example =
    added_ids_differ hmac memory memory_laws draws other_draws (codes "desk") (codes "desk") events
      told other_told keystore added_ok other_added_ok

-- Two devices under one ID, and the first revoked between the two inserts.
abbrev one : Device
one = record default_device { id = codes "8888"; key = codes "first"; status = pos 1 }

abbrev two : Device
two = record default_device { id = codes "8888"; key = codes "second"; status = pos 1 }

abbrev one_added : Memory
one_added = (add_device memory one keystore).1

one_ok : (add_device memory one keystore).0 ≡ true
unfolding add_device valid_device_id crockford_chars crockford_char open_db c_str equal
one_ok = refl

abbrev revoking : Call
revoking = status one.id (pos 0)

add_device-once_example :
    ((add_device memory two (perform memory revoking one_added)).0 ≡ false)
    × (r : Row) × (memory_laws.find
          (add_device memory two (perform memory revoking one_added)).1
          two.id
        ≡ some r)
    × (r.key ≡ some (c_str one.key))
add_device-once_example =
    add_device-once memory memory_laws (λ c. Unit) one two keystore
      (perform memory revoking one_added) one_ok refl
      (Run-one memory (λ c. Unit) revoking one_added tt)
