-- ===== src/Tests/Server.antt =====
-- The verifier on the keystore in memory.
use x_auth.Base.{
  List, ℕ, zero, suc, true, Bytes, codes, some, ◌≡◌, ◌++◌, ◌∷◌, [], refl, arith, length, replicate,
  Lacks, equal, break_at, c_str, decimal, decimal_fuel, inl, inr,
}
use x_auth.Base.Int.{pos}
use x_auth.Otp.{
  otp_step_seconds, mod_loop, bin_code, dynamic_truncate, counter_for_time, fill_bytes,
  pad_and_convert, hmac_sha256, totp_for_counter,
}
use x_auth.Keystore.Id.{crockford_char, crockford_chars, valid_device_id}
use x_auth.Firmware
use x_auth.Keystore.Store.{column_text, read_columns, read_step, open_db, find_device}
use x_auth.Keystore.Find.{HasKey}
use x_auth.Verifier.Check.{
  all_digits, is_found, is_active, is_real, well_formed, check_counters, check_device, verify_code,
  offsets,
}
use x_auth.Verifier.Check.Sound.{Authentic, verify_code_sound, IsCodeAt, InWindow}
use x_auth.Verifier.Check.Complete.{verify_code_complete}
use x_auth.Verifier.Protocol.{split_parts, verify_reply, answer, handle_request, reply_ok}
use x_auth.Verifier.Protocol.Split.{request_line}
use x_auth.Verifier.Protocol.Replies.{
  IsReply, Granted, handle_request-Granted, handle_request-served,
}
use x_auth.Verifier.Session.{serve-login}
use x_auth.Verifier.Status.{status_text, status_line, serve-status}
use x_auth.Verifier.Serve.{serve}
use x_auth.Socket.{ReadEvent, chunk, wrote, peer_allowed}
use x_auth.Socket.ReadLine.{stream}
use x_auth.Firmware.Totp.{otp_now, format_code, store_counter, power_loop}
use x_auth.Tests.Fixtures.{
  memory, memory_laws, memory_answers, hmac, checksum, hmac_sha, id, key, device_row, keystore,
}

device_has : HasKey (memory_laws.find keystore id) device_row key
unfolding equal
device_has = record { at_id = refl; at_key = refl }

abbrev screen : ℕ
screen = 25264513

abbrev dummy : Bytes
dummy = replicate 128 b'0'

abbrev code : Bytes
code = codes "25264513"

abbrev line : Bytes
line = codes "VERIFY AB12 25264513"

shows_screen : otp_now checksum key 100 ≡ some screen
unfolding otp_now Firmware.Totp.totp Firmware.Totp.dynamic_truncate store_counter power_loop c_str
shows_screen = refl

accepted : (handle_request hmac memory dummy 100 line keystore).0 ≡ some (codes "OK 1\n")
unfolding handle_request answer verify_reply split_parts break_at equal verify_code check_device
    check_counters mod_loop bin_code dynamic_truncate counter_for_time fill_bytes pad_and_convert
    hmac_sha256 totp_for_counter is_real is_found is_active well_formed all_digits find_device
    open_db read_step read_columns column_text valid_device_id crockford_chars crockford_char c_str
    decimal decimal_fuel
accepted = refl

verified : (verify_code hmac memory dummy 100 id code keystore).0 ≡ some (true, 1)
unfolding handle_request answer verify_reply split_parts break_at equal verify_code check_device
    check_counters mod_loop bin_code dynamic_truncate counter_for_time fill_bytes pad_and_convert
    hmac_sha256 totp_for_counter is_real is_found is_active well_formed all_digits find_device
    open_db read_step read_columns column_text valid_device_id crockford_chars crockford_char c_str
    decimal decimal_fuel
verified = refl

valid_id : valid_device_id id ≡ true
unfolding valid_device_id crockford_chars crockford_char
valid_id = refl

full_key : length (c_str key) ≡ 128
unfolding c_str
full_key = refl

all_of_key : Lacks 0 key
all_of_key = replicate_Lacks 128
  where
    replicate_Lacks : (n : ℕ) → Lacks 0 (replicate n b'a')
    replicate_Lacks zero = tt
    replicate_Lacks (suc n) = ((λ e. omega arith), replicate_Lacks n)

near_time : InWindow (counter_for_time 100 otp_step_seconds) 1 offsets
unfolding counter_for_time
near_time = inr (inl refl)

code_of_key : IsCodeAt hmac (c_str key) 1 code
unfolding handle_request answer verify_reply split_parts break_at equal verify_code check_device
    check_counters mod_loop bin_code dynamic_truncate counter_for_time fill_bytes pad_and_convert
    hmac_sha256 totp_for_counter is_real is_found is_active well_formed all_digits find_device
    open_db read_step read_columns column_text valid_device_id crockford_chars crockford_char c_str
    decimal decimal_fuel
code_of_key = record { code = screen; computed = refl; printed = refl }

-- The request in two pieces, with an interruption between them and more behind it.
abbrev pieces : List ReadEvent
pieces = chunk (codes "VERI") ∷ ReadEvent.interrupted ∷ chunk (codes "FY AB12 25264513\nmore") ∷ []

pieces-stream :
    stream pieces ≡ request_line (codes "VERIFY") id (format_code screen) ++ b'\n' ∷ codes "more"
unfolding format_code decimal decimal_fuel
pieces-stream = refl

owner_allowed : peer_allowed (pos 33) (some 33) ≡ true
unfolding peer_allowed
owner_allowed = refl

serve-login_example :
    (m : ℕ) × ((serve hmac memory dummy
        (pos 33)
        (some 33)
        pieces
        (wrote 2 ∷ wrote 30 ∷ [])
        180
        keystore).0
      ≡ some (reply_ok m))
serve-login_example =
    serve-login hmac checksum (λ k msg. refl) hmac_sha memory memory_laws memory_answers dummy id
      key (codes "more") device_row keystore 100 180 screen (pos 33) (some 33) pieces
      (wrote 2 ∷ wrote 30 ∷ []) valid_id device_has refl refl all_of_key shows_screen (omega arith)
      (omega arith) (omega arith) (omega arith) owner_allowed pieces-stream (omega arith)

status_asked : stream (chunk (codes "STATUS AB12\n") ∷ []) ≡ status_line id ++ b'\n' ∷ []
status_asked = refl

serve-status_example :
    (serve hmac memory dummy
      (pos 33)
      (some 33)
      (chunk (codes "STATUS AB12\n") ∷ [])
      (wrote 30 ∷ [])
      180
      keystore).0
    ≡ some (status_text (memory_laws.find keystore id))
serve-status_example =
    serve-status hmac memory memory_laws memory_answers dummy id [] 180 keystore (pos 33) (some 33)
      (chunk (codes "STATUS AB12\n") ∷ []) (wrote 30 ∷ []) valid_id owner_allowed status_asked
      (omega arith)

handle_request-Granted_example : Granted hmac (memory_laws.find keystore) 100 line (codes "OK 1\n")
handle_request-Granted_example =
    handle_request-Granted hmac memory memory_laws dummy 100 line (codes "K 1\n") keystore accepted

handle_request-served_example :
    ((r : Bytes) × ((handle_request hmac memory dummy 100 line keystore).0 ≡ some r) × IsReply r)
    × (memory_laws.find (handle_request hmac memory dummy 100 line keystore).1
        ≡ memory_laws.find keystore)
handle_request-served_example =
    handle_request-served hmac memory memory_laws dummy 100 hmac_sha line keystore

verify_code_sound_example : Authentic hmac (memory_laws.find keystore id) 100 id code 1
verify_code_sound_example =
    verify_code_sound hmac memory memory_laws dummy 100 id code keystore 1 verified

verify_code_complete_example :
    (m : ℕ) × ((verify_code hmac memory dummy 100 id code keystore).0 ≡ some (true, m))
verify_code_complete_example =
    verify_code_complete hmac hmac_sha memory memory_laws memory_answers dummy 100 id key code
      device_row 1 keystore valid_id device_has refl full_key near_time code_of_key
