-- ===== src/Firmware/Totp.antt =====
-- firmware/xAuth_ID/src/totp.cpp. A read outside an array is `none`.
pub mod Agree
pub mod Window
use x_auth.Base.{
  ℕ, zero, suc, ◌+◌, ◌-◌, ◌*◌, ◌/◌, ◌%◌, ◌^◌, bit_or, Bytes, [], ◌∷◌, ◌++◌, Option, none, some,
  ◌>>=◌, get_elem?, length, replicate, take, decimal, c_str,
}

abbrev pub otp_step_seconds : ℕ
otp_step_seconds = 90

abbrev pub otp_digits : ℕ
otp_digits = 8

unfoldable pub power_loop : ℕ → ℕ → ℕ
power_loop zero m = m
power_loop (suc i) m = power_loop i (m * 10 % 2 ^ 32)

-- The offset stands in the last byte of the 32.
unfoldable pub dynamic_truncate : Bytes → ℕ → Option ℕ
dynamic_truncate hmac digits = do
  last ← get_elem? hmac 31
  let offset = last % 0x10
  b0 ← get_elem? hmac offset
  b1 ← get_elem? hmac (offset + 1)
  b2 ← get_elem? hmac (offset + 2)
  b3 ← get_elem? hmac (offset + 3)
  let bin_code =
      bit_or (bit_or (bit_or (b0 % 0x80 * 2 ^ 24) (b1 % 0x100 * 2 ^ 16)) (b2 % 0x100 * 2 ^ 8))
        (b3 % 0x100)
  some (bin_code % power_loop digits 1)

-- `counter_bytes`, from index 7 down to 0.
unfoldable pub store_counter : ℕ → ℕ → Bytes → Bytes
store_counter zero counter out = out
store_counter (suc i) counter out = store_counter i (counter / 2 ^ 8) ((counter % 0x100) ∷ out)

-- mbedTLS's HMAC-SHA256: what `hmacResult` holds after the five calls, whose codes are not read.
module _ (mbedtls_hmac : Bytes → Bytes → Bytes) where
  -- `strlen(key)` bytes of the key are hashed.
  -- A `time_t` of 64 bits that is not negative. The step is not 0.
  unfoldable pub totp : Bytes → ℕ → ℕ → ℕ → Option ℕ
  totp key now step_seconds digits =
      let counter = now % 2 ^ 64 / step_seconds in
      dynamic_truncate (mbedtls_hmac (c_str key) (store_counter 8 counter [])) digits

  unfoldable pub otp_now : Bytes → ℕ → Option ℕ
  unfolding totp
  otp_now secret_key now = totp secret_key now otp_step_seconds otp_digits

unfoldable pub otp_seconds_left : ℕ → ℕ
otp_seconds_left now = otp_step_seconds - now % otp_step_seconds

-- `snprintf(out, OTP_DIGITS + 1, "%0*lu", OTP_DIGITS, code)` writes `OTP_DIGITS` bytes at most, and
-- a NUL.
unfoldable pub format_code : ℕ → Bytes
format_code code =
    let text = decimal code in take otp_digits (replicate (otp_digits - length text) b'0' ++ text)
