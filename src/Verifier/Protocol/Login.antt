-- ===== src/Verifier/Protocol/Login.antt =====
-- From the keychain's screen (firmware/xAuth_ID/src/totp.cpp) to the reply of verifier/main.cpp.
use x_auth.Base.{
  ℕ, ◌+◌, ◌^◌, ◌≤◌, ◌<◌, true, Bytes, codes, [], ◌∷◌, Option, some, equal, Lacks, All, IsDigit, ◌≡◌,
  sym, ap, ◌∙◌, arith, some_inj, c_str, c_str-Lacks, length,
}
use x_auth.Base.Int.{pos}
use x_auth.Otp.{
  IsSha256, counter_for_time, otp_step_seconds, otp_size, pad_and_convert, totp_for_counter,
}
use x_auth.Otp
use x_auth.Otp.Total.{totp_for_counter-total}
use x_auth.Otp.Digits.{pad_and_convert-eight_digits}
use x_auth.Firmware.Totp.{otp_now, format_code}
use x_auth.Firmware.Totp.Agree.{totp_agrees, format_code_agrees}
use x_auth.Keystore.Id.{valid_device_id, valid_device_id-Lacks}
use x_auth.Keystore.Sqlite.{Row, Sqlite, SqliteLaws}
use x_auth.Keystore.Find.{HasKey}
use x_auth.Keystore.Answers.{Answers}
use x_auth.Verifier.Check.{offsets}
use x_auth.Verifier.Check.Sound.{InWindow, IsCodeAt}
use x_auth.Verifier.Check.Complete.{verify_code_complete}
use x_auth.Verifier.Protocol.{verify_reply, reply_ok, answer, handle_request}
use x_auth.Verifier.Protocol.Split.{request_line, split_parts-request_line}

-- Two clocks that differ by one step at most show counters that differ by one at most.
pub clocks-InWindow :
    (shown now : ℕ)
    → shown ≤ now + otp_step_seconds
    → now ≤ shown + otp_step_seconds
    → shown < 2 ^ 63
    → now < 2 ^ 63
    → InWindow
        (counter_for_time now otp_step_seconds)
        (counter_for_time shown otp_step_seconds)
        offsets
unfolding counter_for_time
clocks-InWindow shown now h k fs fn = ground arith

All-digit_ne : (s : Bytes) → All IsDigit s → Lacks b' ' s
All-digit_ne [] h = tt
All-digit_ne (c ∷ s) h = ((λ e. omega (arith, h.0)), All-digit_ne s h.1)

module _ (hmac : Bytes → Bytes → Option Bytes) (mbedtls_hmac : Bytes → Bytes → Bytes)
    (same : (key msg : Bytes) → hmac key msg ≡ some (mbedtls_hmac key msg))
    (sha : IsSha256 hmac) where
  mbedtls_size : (key msg : Bytes) → length (mbedtls_hmac key msg) ≡ 32
  mbedtls_size key msg =
      let (d, made, size, _) = sha key msg in
      let e : some (mbedtls_hmac key msg) ≡ some d = sym (same key msg) ∙ made in
      ap length (some_inj e) ∙ size

  screen_totp :
      (key : Bytes) (shown : ℕ)
      → Lacks 0 key
      → otp_now mbedtls_hmac key shown ≡ Otp.totp hmac key shown otp_step_seconds otp_size
  unfolding otp_now
  screen_totp key shown text =
      (totp_agrees hmac mbedtls_hmac same mbedtls_size key shown otp_step_seconds otp_size text
        (omega arith) (omega arith)).0

  -- What the screen shows is the server's code at the counter of the keychain's clock.
  pub shown_code :
      (key : Bytes) (shown n : ℕ)
      → Lacks 0 key
      → otp_now mbedtls_hmac key shown ≡ some n
      → (n < 10 ^ 8) × IsCodeAt hmac key (counter_for_time shown otp_step_seconds) (format_code n)
  unfolding otp_now Otp.totp
  shown_code key shown n text h =
      let (code, made, small) =
        totp_for_counter-total hmac sha key (counter_for_time shown otp_step_seconds) in
      let served : totp_for_counter hmac key (counter_for_time shown otp_step_seconds) otp_size
          ≡ some n =
        sym (screen_totp key shown text) ∙ h in
      let e : n ≡ code = some_inj (sym served ∙ made) in
      let fits : n < 10 ^ 8 = omega arith in
      (fits, record { code = n; computed = served; printed = sym (format_code_agrees n fits) })

  -- The keychain always has a code to show.
  pub otp_now-total :
      (key : Bytes) (shown : ℕ) → Lacks 0 key → (n : ℕ) × (otp_now mbedtls_hmac key shown ≡ some n)
  unfolding otp_now Otp.totp
  otp_now-total key shown text =
      let (n, made, _) =
        totp_for_counter-total hmac sha key (counter_for_time shown otp_step_seconds) in
      (n, screen_totp key shown text ∙ made)

  -- The digits that the keychain shows, sent while the two clocks differ by at most 90 seconds,
  -- get `OK`. The ID is valid and stands in the table with status 1 and the keychain's key, which
  -- has 128 characters and no NUL; the keystore can be read; both HMAC routines compute the same
  -- 32 bytes; and the times are below 2 ^ 63.
  pub keychain_login :
      (q : Sqlite) (laws : SqliteLaws q)
      → Answers q
      → (dummy_key id key : Bytes) (r : Row) (w : q.World) (shown now n : ℕ)
      → valid_device_id id ≡ true
      → HasKey (laws.find w id) r key
      → r.status ≡ pos 1
      → length key ≡ 128
      → Lacks 0 key
      → otp_now mbedtls_hmac key shown ≡ some n
      → shown ≤ now + otp_step_seconds
      → now ≤ shown + otp_step_seconds
      → shown < 2 ^ 63
      → now < 2 ^ 63
      → (m : ℕ) × ((handle_request hmac q dummy_key now
            (request_line (codes "VERIFY") id (format_code n))
            w).0
          ≡ some (reply_ok m))
  unfolding handle_request answer verify_reply equal
  keychain_login q laws answers dummy_key id key r w shown now n valid has active full text
        on_screen a b c d =
      let (fits, at) = shown_code key shown n text on_screen in
      let whole : c_str key ≡ key = c_str-Lacks key text in
      let digits = pad_and_convert-eight_digits n fits in
      let spaceless : Lacks b' ' (format_code n) =
        rw (format_code_agrees n fits) (All-digit_ne (pad_and_convert n) digits.1) in
      let (m, accepted) =
        verify_code_complete hmac sha q laws answers dummy_key now id key (format_code n) r
          (counter_for_time shown otp_step_seconds) w valid has active (rw whole full)
          (clocks-InWindow shown now a b c d) (rw whole at) in
      (
        m,
        rw
            (split_parts-request_line (codes "VERIFY") id (format_code n) (omega arith)
              (valid_device_id-Lacks id valid).1 spaceless)
            (rw accepted),
      )
