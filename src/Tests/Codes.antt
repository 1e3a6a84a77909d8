-- ===== src/Tests/Codes.antt =====
-- Codes, counters, keys, IDs and labels at small values.
use x_auth.Base.{
  ℕ, ◌%◌, ◌<◌, ◌^◌, codes, some, ◌≡◌, refl, arith, get_last?, replicate, All, IsByte, zero, suc,
}
use x_auth.Otp.{otp_size, mod_loop, dynamic_truncate, totp_for_counter}
use x_auth.Otp.Truncate.{rfc_4226_number, dynamic_truncate-rfc_4226}
use x_auth.Otp.Total.{totp_for_counter-total}
use x_auth.Tests.Fixtures.{hmac, hmac_sha}

bytes : (n : ℕ) → All IsByte (replicate n 7)
bytes zero = tt
bytes (suc n) = (omega arith, bytes n)

dynamic_truncate-rfc_4226_example :
    (last : ℕ) × (get_last? (replicate 32 7) ≡ some last)
    × (dynamic_truncate (replicate 32 7) 8
        ≡ some (rfc_4226_number last (replicate 32 7) % mod_loop 8 1))
dynamic_truncate-rfc_4226_example = dynamic_truncate-rfc_4226 (replicate 32 7) 8 refl (bytes 32)

totp_for_counter-total_example :
    (code : ℕ) × (totp_for_counter hmac (codes "key") 5 otp_size ≡ some code) × (code < 10 ^ 8)
totp_for_counter-total_example = totp_for_counter-total hmac hmac_sha (codes "key") 5
