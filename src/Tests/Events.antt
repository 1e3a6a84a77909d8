-- ===== src/Tests/Events.antt =====
-- All programs around the keystore in memory.
use x_auth.Base.{
  ℕ, true, Bytes, codes, List, [], ◌∷◌, ◌++◌, Option, none, some, All, Lacks, lacks, lacks-Lacks,
  equal, equal_iff, break_at, c_str, decimal, decimal_fuel, if◌then◌else◌, ◌≡◌, ◌≢◌, refl, arith,
  inl, inr, Bool-cases, some_inj, subst,
}
use x_auth.Base.Int.{ℤ, negsuc}
use x_auth.Keygen.{valid_label, label_chars, label_char}
use x_auth.Keystore.Id.{crockford_char, crockford_chars, valid_device_id}
use x_auth.Keystore.Sqlite.{Row}
use x_auth.Keystore.Store.{
  column_text, read_columns, read_step, open_db, find_device, update_one, set_device_status,
  migrate_keystore, has_column,
}
use x_auth.Keystore.Calls.Keeps.{StillHas}
use x_auth.Keystore.Calls.Sound.{IsSound, IsSoundTable}
use x_auth.Otp.{
  mod_loop, bin_code, dynamic_truncate, counter_for_time, fill_bytes, pad_and_convert, hmac_sha256,
  totp_for_counter,
}
use x_auth.Socket.{
  ReadEvent, chunk, WriteEvent, wrote, scan_chunk, read_line, write_all, peer_allowed,
}
use x_auth.Verifier.Check.{
  all_digits, is_found, is_active, is_real, well_formed, check_counters, check_device, verify_code,
}
use x_auth.Verifier.Protocol.{split_parts, verify_reply, status_reply, answer}
use x_auth.Verifier.Protocol
use x_auth.Verifier.Serve.{serve_line, serve, Served}
use x_auth.Admin.{ok_no, dispatch, handle_request}
use x_auth.Provision.{open_failed, main, command, cmd_list, by_count}
use x_auth.System.{Event, admin, provision, login, run_event, run_events, Activates}
use x_auth.System.Keys.{run_events-StillHas}
use x_auth.System.Revoked.{revoked_stays_out}
use x_auth.System.Sessions.{revoked_sessions_end}
use x_auth.Socket.ReadLine.{stream}
use x_auth.Verifier.Status.{status_line}
use x_auth.System.Login.{CanLogIn, run_events-CanLogIn}
use x_auth.Tests.Fixtures.{
  Memory, memory, memory_laws, memory_answers, hmac, checksum, hmac_sha, id, key, device_row,
  keystore, drawn, drawn_fills,
}

abbrev pub draws : ℕ → ℕ → Option Bytes
draws call = drawn

abbrev nothing_read : Bytes → Option ℤ
nothing_read s = none

abbrev pub plenty : List WriteEvent
plenty = wrote 1000 ∷ []

-- A new label, a new device, and a login.
abbrev events : List Event
events =
    admin draws (negsuc 0) none (chunk (codes "LABEL AB12 desk\n") ∷ []) plenty
    ∷ provision draws nothing_read open_failed (codes "add" ∷ [])
    ∷ login key (negsuc 0) none (chunk (codes "VERIFY AB12 25264513\n") ∷ []) plenty 100
    ∷ []

in_table : memory_laws.find keystore id ≡ some device_row
unfolding equal
in_table = refl

run_events-StillHas_example :
    StillHas (memory_laws.find (run_events hmac memory events keystore)) id device_row
run_events-StillHas_example =
    run_events-StillHas hmac memory memory_laws events id device_row keystore in_table

-- A second device, with the same key, while the first is revoked.
abbrev other : Bytes
other = codes "CD34"

abbrev both : Memory
both = record {
  table =
      λ j. if equal id j then some device_row else if equal other j then some device_row else none;
  last = 0;
}

abbrev revoked_both : Memory
revoked_both = (handle_request memory draws (codes "REVOKE " ++ id) both).1

abbrev reads : List ReadEvent
reads = chunk (codes "VERIFY CD34 25264513\n") ∷ []

abbrev pub quiet : List Event
quiet =
    login key (negsuc 0) none (chunk (codes "STATUS AB12\n") ∷ []) plenty 100
    ∷ provision draws nothing_read open_failed (codes "revoke" ∷ other ∷ codes "now" ∷ [])
    ∷ []

revoked_ok : (handle_request memory draws (codes "REVOKE " ++ id) both).0 ≡ some (codes "OK\n")
unfolding handle_request dispatch break_at equal set_device_status update_one valid_device_id
    crockford_chars crockford_char open_db c_str ok_no
revoked_ok = refl

calm : All (λ (e : Event). ¬ Activates id e) quiet
calm = ((λ h. h), ((λ h. cc h), tt))

other_in :
    (serve hmac memory key
      (negsuc 0)
      none
      reads
      plenty
      100
      (run_events hmac memory quiet revoked_both)).0
    ≡ some (b'O' ∷ codes "K 1\n")
unfolding run_events run_event handle_request dispatch set_device_status update_one ok_no
    Protocol.handle_request answer verify_reply split_parts break_at equal verify_code check_device
    check_counters mod_loop bin_code dynamic_truncate counter_for_time fill_bytes pad_and_convert
    hmac_sha256 totp_for_counter is_real is_found is_active well_formed all_digits find_device
    open_db read_step read_columns column_text valid_device_id crockford_chars crockford_char c_str
    decimal decimal_fuel serve serve_line peer_allowed read_line scan_chunk write_all main command
    cmd_list by_count status_reply migrate_keystore has_column
other_in = refl

revoked_stays_out_example :
    (s : Served hmac
      (memory_laws.find (run_events hmac memory quiet revoked_both))
      100
      reads
      (b'O' ∷ codes "K 1\n"))
    × (s.granted.id ≢ id)
revoked_stays_out_example =
    revoked_stays_out hmac memory memory_laws id draws both quiet key (negsuc 0) none reads plenty
      100 (codes "K 1\n") revoked_ok calm other_in

everybody_allowed : peer_allowed (negsuc 0) none ≡ true
unfolding peer_allowed
everybody_allowed = refl

abbrev status_reads : List ReadEvent
status_reads = chunk (codes "STATUS A") ∷ chunk (codes "B12\n") ∷ []

status_asked : stream status_reads ≡ status_line id ++ b'\n' ∷ []
status_asked = refl

id_valid : valid_device_id id ≡ true
unfolding valid_device_id crockford_chars crockford_char
id_valid = refl

revoked_sessions_end_example :
    (serve hmac memory key
      (negsuc 0)
      none
      status_reads
      plenty
      100
      (run_events hmac memory quiet revoked_both)).0
    ≡ some (codes "INACTIVE\n")
revoked_sessions_end_example =
    revoked_sessions_end hmac memory memory_laws memory_answers id draws both quiet key (negsuc 0)
      none status_reads plenty 100 [] revoked_ok calm id_valid everybody_allowed status_asked
      (omega arith)

label_ok : valid_label (codes "OK") ≡ true
unfolding valid_label label_chars label_char
label_ok = refl

key_text : Lacks 0 key
unfolding lacks
key_text = lacks-Lacks 0 key refl

device_row-IsSound : IsSound id device_row
device_row-IsSound = record {
  valid = id_valid;
  key = key;
  at_key = refl;
  full = refl;
  text = key_text;
  label = codes "OK";
  at_note = refl;
  good_label = label_ok;
  known = inr refl;
}

pub keystore-IsSoundTable : IsSoundTable (memory_laws.find keystore)
keystore-IsSoundTable j r at = elim (Bool-cases (equal id j)) [
  | inr absent ↦ absurd (cc (rw absent at at))
  | inl there ↦
      subst (λ (i : Bytes). IsSound i r) ((equal_iff id j).0 there)
        (subst (λ (x : Row). IsSound id x) (some_inj (rw there at at)) device_row-IsSound)
]

still_there : memory_laws.find (run_events hmac memory quiet keystore) id ≡ some device_row
unfolding run_events run_event Protocol.handle_request answer split_parts break_at equal find_device
    open_db read_step read_columns column_text valid_device_id crockford_chars crockford_char c_str
    serve serve_line peer_allowed read_line scan_chunk main command cmd_list by_count status_reply
    migrate_keystore has_column
still_there = refl

run_events-CanLogIn_example :
    CanLogIn hmac checksum
      (λ k msg. refl)
      hmac_sha
      memory
      memory_laws
      memory_answers
      key
      id
      device_row
      100
      180
      (run_events hmac memory quiet keystore)
run_events-CanLogIn_example =
    run_events-CanLogIn hmac checksum (λ k msg. refl) hmac_sha memory memory_laws memory_answers
      quiet keystore key id device_row 100 180 keystore-IsSoundTable
      ((λ n buf h. cc h), (drawn_fills, tt)) still_there refl (omega arith) (omega arith)
      (omega arith) (omega arith)
