-- ===== src/Tests/Connections.antt =====
-- Connections to the verifier on the keystore in memory, and its accept loop.
use x_auth.Base.{
  ◌+◌, ◌≤◌, true, Bytes, codes, List, [], ◌∷◌, some, ◌≡◌, ◌↔◌, refl, replicate, equal, break_at,
  c_str, decimal, decimal_fuel,
}
use x_auth.Base.Int.{pos}
use x_auth.Otp.{
  mod_loop, bin_code, dynamic_truncate, counter_for_time, fill_bytes, pad_and_convert, hmac_sha256,
  totp_for_counter,
}
use x_auth.Keystore.Id.{crockford_char, crockford_chars, valid_device_id}
use x_auth.Keystore.Store.{column_text, read_columns, read_step, open_db, find_device}
use x_auth.Socket.{
  ReadEvent, chunk, WriteEvent, wrote, scan_chunk, read_line, write_all, peer_allowed,
}
use x_auth.Verifier.Check.{
  all_digits, is_found, is_active, is_real, well_formed, check_counters, check_device, verify_code,
}
use x_auth.Verifier.Protocol.{split_parts, verify_reply, answer, handle_request}
use x_auth.Verifier.Serve.{serve_line, serve, Served, serve-Served}
use x_auth.Verifier.InFlight.{
  Daemon, accepting, refusing, accept_done, start_thread, start, fetch_add, step, step_at,
  Reachable, at_start, after, pending, starts, max_in_flight, Reachable-bounds, Steps, Finishes,
  Reachable-returns,
}
use x_auth.Tests.Fixtures.{memory, memory_laws, hmac, keystore}

abbrev dummy : Bytes
dummy = replicate 128 b'0'

-- The line comes in two reads, and the reply leaves in two writes.
abbrev reads : List ReadEvent
reads = chunk (codes "VERIFY AB12 ") ∷ ReadEvent.interrupted ∷ chunk (codes "25264513\n") ∷ []

abbrev writes : List WriteEvent
writes = wrote 2 ∷ wrote 3 ∷ []

delivered :
    (serve hmac memory dummy (pos 7) (some 7) reads writes 100 keystore).0 ≡ some (codes "OK 1\n")
unfolding handle_request answer verify_reply split_parts break_at equal verify_code check_device
    check_counters mod_loop bin_code dynamic_truncate counter_for_time fill_bytes pad_and_convert
    hmac_sha256 totp_for_counter is_real is_found is_active well_formed all_digits find_device
    open_db read_step read_columns column_text valid_device_id crockford_chars crockford_char c_str
    decimal decimal_fuel serve serve_line peer_allowed read_line scan_chunk write_all
delivered = refl

serve-Served_example :
    (peer_allowed (pos 7) (some 7) ≡ true)
    × Served hmac (memory_laws.find keystore) 100 reads (codes "OK 1\n")
serve-Served_example =
    serve-Served hmac memory memory_laws dummy reads writes 100 (codes "K 1\n") keystore (pos 7)
      (some 7) delivered

-- One thread serves.
abbrev busy : Daemon
busy = record { in_flight = 1; place = accepting; serving = 1 }

busy-Reachable : Reachable busy
unfolding start step step_at fetch_add
busy-Reachable = after start_thread (after accept_done at_start refl) refl

Reachable-bounds_example :
    (busy.in_flight ≡ busy.serving + pending busy.place)
    × (busy.serving + starts busy.place ≤ max_in_flight)
    × (busy.in_flight ≤ max_in_flight + 1)
Reachable-bounds_example = Reachable-bounds busy busy-Reachable

Reachable-returns_example :
    Steps Finishes busy start
    × (busy.place ≡ accepting
        → ((fetch_add busy).place ≡ refusing) ↔ (busy.serving ≡ max_in_flight))
Reachable-returns_example = Reachable-returns busy busy-Reachable
