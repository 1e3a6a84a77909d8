-- ===== src/Verifier/Session.antt =====
-- A login over the socket: from the keychain's screen to the bytes that `serve` of verifier/main.cpp
-- delivers.
use x_auth.Base.{
  ℕ, zero, suc, ◌+◌, ◌/◌, ◌^◌, ◌≤◌, ◌<◌, ltb, true, Bytes, codes, List, [], ◌∷◌, ◌++◌, Option, some,
  Lacks, All, IsDigit, length, length-append, decimal, decimal_fuel, ◌≡◌, ap, ◌∙◌, arith,
  Bool-cases, inl, inr,
}
use x_auth.Base.Int.{ℤ, pos}
use x_auth.Otp.{IsSha256, otp_step_seconds, pad_and_convert}
use x_auth.Otp.Digits.{pad_and_convert-eight_digits}
use x_auth.Keystore.Id.{valid_device_id, valid_device_id_iff, valid_device_id-Lacks}
use x_auth.Keystore.Sqlite.{Row, Sqlite, SqliteLaws}
use x_auth.Keystore.Find.{HasKey}
use x_auth.Keystore.Answers.{Answers}
use x_auth.Firmware.Totp.{otp_now, format_code}
use x_auth.Firmware.Totp.Agree.{format_code_agrees}
use x_auth.Socket.{ReadEvent, WriteEvent, peer_allowed}
use x_auth.Socket.ReadLine.{first_line, first_line-front, stream, read_line-stream}
use x_auth.Socket.WriteAll.{offered, write_all_complete}
use x_auth.Verifier.Protocol.{reply_ok, handle_request}
use x_auth.Verifier.Protocol.Split.{request_line}
use x_auth.Verifier.Protocol.Login.{shown_code, keychain_login}
use x_auth.Verifier.Serve.{max_request, serve_line, serve}

length-decimal_fuel : (f n : ℕ) → length (decimal_fuel f n) ≤ f
unfolding decimal_fuel
length-decimal_fuel zero n = omega arith
length-decimal_fuel (suc f) n = elim (Bool-cases (ltb n 10)) [
  | inl small ↦ rw small (omega arith)
  | inr large ↦ rw large (rw length-append (omega (arith, length-decimal_fuel f (n / 10))))
]

length-reply_ok : (m : ℕ) → length (reply_ok m) ≤ 24
unfolding decimal
length-reply_ok m = omega (arith, length-append (decimal m) (codes "\n"), length-decimal_fuel 20 m)

All-digit_line : (s : Bytes) → All IsDigit s → Lacks b'\n' s
All-digit_line [] h = tt
All-digit_line (c ∷ s) h = ((λ e. omega (arith, h.0)), All-digit_line s h.1)

pub Lacks-append : (b : ℕ) (s t : Bytes) → Lacks b s → Lacks b t → Lacks b (s ++ t)
Lacks-append b [] t hs ht = ht
Lacks-append b (c ∷ s) t hs ht = (hs.0, Lacks-append b s t hs.1 ht)

-- The request fits into the buffer and is one line.
request_line-fits :
    (id code : Bytes)
    → valid_device_id id ≡ true
    → length code ≡ 8
    → All IsDigit code
    → (length (request_line (codes "VERIFY") id code) ≤ max_request)
      × Lacks b'\n' (request_line (codes "VERIFY") id code)
request_line-fits id code valid size digits =
    let (_, short, _) = (valid_device_id_iff id).0 valid in
    let (_, _, one_line, _) = valid_device_id-Lacks id valid in
    (
      omega (arith, length-append id (b' ' ∷ code)),
      (
        (λ e. omega (arith, e)),
        (
          (λ e. omega (arith, e)),
          (
            (λ e. omega (arith, e)),
            (
              (λ e. omega (arith, e)),
              (
                (λ e. omega (arith, e)),
                (
                  (λ e. omega (arith, e)),
                  (
                    (λ e. omega (arith, e)),
                    Lacks-append b'\n' id (b' ' ∷ code) one_line
                        ((λ e. omega (arith, e)), All-digit_line code digits),
                  ),
                ),
              ),
            ),
          ),
        ),
      ),
    )

module _ (hmac : Bytes → Bytes → Option Bytes) (q : Sqlite) (dummy_key : Bytes) where
  -- An allowed peer gets the whole reply to its line.
  pub serve-delivers :
      (allow_uid : ℤ) (uid : Option ℕ) (reads : List ReadEvent) (writes : List WriteEvent)
      (time : ℕ) (w : q.World) (line reply : Bytes)
      → peer_allowed allow_uid uid ≡ true
      → first_line (suc max_request) (stream reads) ≡ some line
      → (handle_request hmac q dummy_key time line w).0 ≡ some reply
      → length reply ≤ offered writes
      → (serve hmac q dummy_key allow_uid uid reads writes time w).0 ≡ some reply
  unfolding serve serve_line
  serve-delivers allow_uid uid reads writes time w line reply allowed sent replied enough =
      rw allowed (
        rw (read_line-stream (suc max_request) reads ∙ sent)
          (rw replied (ap some (write_all_complete writes reply enough))))

module _ (hmac : Bytes → Bytes → Option Bytes) (mbedtls_hmac : Bytes → Bytes → Bytes)
    (same : (key msg : Bytes) → hmac key msg ≡ some (mbedtls_hmac key msg)) (sha : IsSha256 hmac)
    (q : Sqlite) (laws : SqliteLaws q) (answers : Answers q) where
  -- An allowed peer that sends `VERIFY`, the ID and the digits that the keychain shows, and a newline,
  -- gets exactly `OK`, a number and a newline, if the two clocks differ by at most 90 seconds. It
  -- holds however the bytes are cut into reads, with any interruptions and whatever follows them, and
  -- however the reply is cut into writes that offer to take 24 bytes. The ID is valid and stands in
  -- the table with status 1 and the keychain's key, which has 128 characters and no NUL; the keystore
  -- can be read; both HMAC routines compute the same 32 bytes; and the times are below 2 ^ 63.
  pub serve-login :
      (dummy_key id key rest : Bytes) (r : Row) (w : q.World) (shown now n : ℕ) (allow_uid : ℤ)
      (uid : Option ℕ) (reads : List ReadEvent) (writes : List WriteEvent)
      → valid_device_id id ≡ true
      → HasKey (laws.find w id) r key
      → r.status ≡ pos 1
      → length key ≡ 128
      → Lacks 0 key
      → otp_now mbedtls_hmac key shown ≡ some n
      → shown ≤ now + otp_step_seconds
      → now ≤ shown + otp_step_seconds
      → shown < 2 ^ 63
      → now < 2 ^ 63
      → peer_allowed allow_uid uid ≡ true
      → stream reads ≡ request_line (codes "VERIFY") id (format_code n) ++ b'\n' ∷ rest
      → 24 ≤ offered writes
      → (m : ℕ) × ((serve hmac q dummy_key allow_uid uid reads writes now w).0 ≡ some (reply_ok m))
  serve-login dummy_key id key rest r w shown now n allow_uid uid reads writes valid has active full
        text on_screen a b c d allowed sent enough =
      let (fits, _) = shown_code hmac mbedtls_hmac same sha key shown n text on_screen in
      let (size, digits, _) = pad_and_convert-eight_digits n fits in
      let line = request_line (codes "VERIFY") id (format_code n) in
      let (short, one) : (length line ≤ max_request) × Lacks b'\n' line =
        rw (format_code_agrees n fits)
          (request_line-fits id (pad_and_convert n) valid size digits) in
      let (m, replied) =
        keychain_login hmac mbedtls_hmac same sha q laws answers dummy_key id key r w shown now n
          valid has active full text on_screen a b c d in
      (
        m,
        serve-delivers hmac q dummy_key allow_uid uid reads writes now w line (reply_ok m) allowed
            (ap (first_line (suc max_request)) sent
              ∙ first_line-front max_request line rest short one)
            replied (omega (arith, length-reply_ok m)),
      )
