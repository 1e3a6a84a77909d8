-- ===== src/Otp/Total.antt =====
-- `totp_for_counter` of core/otp.cpp with a working HMAC.
use x_auth.Base.{ℕ, ◌<◌, ◌^◌, ◌%◌, Bytes, Option, some, ◌≡◌, arith}
use x_auth.Otp.{IsSha256, hmac_sha256, totp_for_counter, counter_bytes, mod_loop, otp_size}
use x_auth.Otp.Truncate.{rfc_4226_number, dynamic_truncate-rfc_4226, mod_loop-eight}

-- With an HMAC that gives 32 bytes, the server computes a code for every key and counter, with no
-- throw and no read outside the digest, and the code is below 10 ^ 8.
pub totp_for_counter-total :
    (hmac : Bytes → Bytes → Option Bytes)
    → IsSha256 hmac
    → (key : Bytes) (counter : ℕ)
    → (code : ℕ) × (totp_for_counter hmac key counter otp_size ≡ some code) × (code < 10 ^ 8)
unfolding totp_for_counter hmac_sha256
totp_for_counter-total hmac sha key counter =
    let (d, made, size, bytes) = sha key (counter_bytes counter) in
    let (last, e, truncated) = dynamic_truncate-rfc_4226 d otp_size size bytes in
    (rfc_4226_number last d % mod_loop 8 1, rw made truncated, rw mod_loop-eight (omega arith))
