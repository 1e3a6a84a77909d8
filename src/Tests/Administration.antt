-- ===== src/Tests/Administration.antt =====
-- The admin daemon on the keystore in memory.
use x_auth.Base.{
  ℕ, zero, suc, Bytes, codes, [], ◌∷◌, ◌++◌, Option, some, ◌≡◌, refl, arith, replicate, break_at,
  equal, c_str,
}
use x_auth.Keygen.{
  generate_device_id, generate_key, pick_chars, hex_bytes, valid_label, label_chars, label_char,
}
use x_auth.Keystore.Id.{crockford_char, crockford_chars, valid_device_id}
use x_auth.Keystore.Store.{
  column_text, read_columns, read_step, open_db, find_device, update_one, set_device_status,
  add_device,
}
use x_auth.Admin.{
  ok_no, after_lookup, attempt, after_attempt, add_loop, handle_add, dispatch, handle_request,
}
use x_auth.Admin.Add.{AddAnswer, handle_add-AddAnswer}
use x_auth.Admin.Enroll.{Enrolled, handle_request-Enrolled}
use x_auth.Tests.Fixtures.{
  memory, memory_laws, memory_answers, hmac, checksum, hmac_sha, id, keystore, drawn, drawn_fills,
}

abbrev draws : ℕ → ℕ → Option Bytes
draws call = drawn

abbrev label : Bytes
label = codes "desk"

revoked_ok : (handle_request memory draws (codes "REVOKE " ++ id) keystore).0 ≡ some (codes "OK\n")
unfolding handle_request dispatch break_at equal set_device_status update_one valid_device_id
    crockford_chars crockford_char open_db c_str ok_no
revoked_ok = refl

abbrev hex_text : ℕ → Bytes
hex_text zero = []
hex_text (suc n) = codes "c8" ++ hex_text n

-- The reply behind its first letter.
abbrev told : Bytes
told = codes "K 8888 " ++ (hex_text 64 ++ codes "\n")

added_ok : (handle_request memory draws (codes "ADD " ++ label) keystore).0 ≡ some (b'O' ∷ told)
unfolding handle_request dispatch break_at equal handle_add valid_label label_chars label_char
    generate_key hex_bytes add_loop generate_device_id pick_chars attempt after_lookup after_attempt
    find_device add_device valid_device_id crockford_chars crockford_char open_db read_step
    read_columns column_text c_str
added_ok = refl

handle_add-AddAnswer_example :
    AddAnswer memory memory_laws draws label
      (memory_laws.find keystore)
      (memory_laws.find (handle_add memory draws label keystore).1)
      (handle_add memory draws label keystore).0
handle_add-AddAnswer_example = handle_add-AddAnswer memory memory_laws draws label keystore

handle_request-Enrolled_example :
    Enrolled hmac checksum
      (λ k msg. refl)
      hmac_sha
      memory
      memory_laws
      memory_answers
      (replicate 128 b'0')
      draws
      (λ call. drawn_fills)
      100
      100
      (omega arith)
      (omega arith)
      (omega arith)
      (omega arith)
      (b'O' ∷ told)
      (handle_request memory draws (codes "ADD " ++ label) keystore).1
handle_request-Enrolled_example =
    handle_request-Enrolled hmac checksum (λ k msg. refl) hmac_sha memory memory_laws memory_answers
      (replicate 128 b'0') draws (λ call. drawn_fills) 100 100 (omega arith) (omega arith)
      (omega arith) (omega arith) label told keystore added_ok
