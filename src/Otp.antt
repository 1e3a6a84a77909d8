-- ===== src/Otp.antt =====
-- core/otp.hpp and core/otp.cpp. A throw, and a read outside an array, is `none`.
pub mod Counter
pub mod Truncate
pub mod Digits
pub mod Total
use x_auth.Base.{
  ℕ, zero, suc, ◌+◌, ◌-◌, ◌*◌, ◌/◌, ◌%◌, ◌^◌, bit_or, Bytes, List, [], ◌∷◌, ◌++◌, Option, none,
  some, ◌>>=◌, get_elem?, get_last?, length, replicate, decimal, ◌≡◌, All, IsByte,
}

abbrev pub otp_size : ℕ
otp_size = 8

abbrev pub otp_step_seconds : ℕ
otp_step_seconds = 90

-- `uint32_t mod = 1; for (…; i < digits; …) mod *= 10;`
unfoldable pub mod_loop : ℕ → ℕ → ℕ
mod_loop zero m = m
mod_loop (suc i) m = mod_loop i (m * 10 % 2 ^ 32)

-- Bytes at `offset` to `offset + 3`; `&` with a mask is `%`, `<<` is `*`.
unfoldable pub bin_code : ℕ → ℕ → ℕ → ℕ → ℕ
bin_code b0 b1 b2 b3 =
    bit_or (bit_or (bit_or (b0 % 0x80 * 2 ^ 24) (b1 % 0x100 * 2 ^ 16)) (b2 % 0x100 * 2 ^ 8))
      (b3 % 0x100)

-- The modulus is 0 from 32 digits on, where the source divides by 0; the programs use eight.
unfoldable pub dynamic_truncate : Bytes → ℕ → Option ℕ
dynamic_truncate hmac digits = do
  last ← get_last? hmac
  let offset = last % 0x10
  b0 ← get_elem? hmac offset
  b1 ← get_elem? hmac (offset + 1)
  b2 ← get_elem? hmac (offset + 2)
  b3 ← get_elem? hmac (offset + 3)
  some (bin_code b0 b1 b2 b3 % mod_loop digits 1)

-- A `time_t` of a running system is not negative, and its cast to uint64_t keeps it. The step is not
-- 0, by which the source would divide; the programs use 90.
unfoldable pub counter_for_time : ℕ → ℕ → ℕ
counter_for_time now step_seconds = now % 2 ^ 64 / step_seconds

-- The loop from `counter_bytes[7]` down to `counter_bytes[0]`; `out` is what stands behind.
unfoldable pub fill_bytes : ℕ → ℕ → Bytes → Bytes
fill_bytes zero counter out = out
fill_bytes (suc i) counter out = fill_bytes i (counter / 2 ^ 8) ((counter % 0x100) ∷ out)

abbrev pub counter_bytes : ℕ → Bytes
counter_bytes counter = fill_bytes 8 counter []

unfoldable pub pad_and_convert : ℕ → Bytes
pad_and_convert code = let text = decimal code in replicate (otp_size - length text) b'0' ++ text

-- OpenSSL's `HMAC(EVP_sha256(), key, msg)`: the digest, or `none` for a null pointer.
module _ (hmac : Bytes → Bytes → Option Bytes) where
  -- The null pointer becomes a throw.
  unfoldable pub hmac_sha256 : Bytes → Bytes → Option Bytes
  hmac_sha256 key msg = do digest ← hmac key msg; some digest

  unfoldable pub totp_for_counter : Bytes → ℕ → ℕ → Option ℕ
  totp_for_counter key counter digits = do
    mac ← hmac_sha256 key (counter_bytes counter)
    dynamic_truncate mac digits

  unfoldable pub totp : Bytes → ℕ → ℕ → ℕ → Option ℕ
  totp key now step_seconds digits = totp_for_counter key (counter_for_time now step_seconds) digits

-- What HMAC-SHA256 promises: a digest of 32 bytes, for every key and message.
abbrev pub IsSha256 : (Bytes → Bytes → Option Bytes) → Type 0
IsSha256 hmac =
    (key msg : Bytes) → (d : Bytes) × (hmac key msg ≡ some d) × (length d ≡ 32) × All IsByte d
