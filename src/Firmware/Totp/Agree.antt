-- ===== src/Firmware/Totp/Agree.antt =====
-- firmware/xAuth_ID/src/totp.cpp against core/otp.cpp.
use x_auth.Base.{
  ℕ, zero, suc, ◌*◌, ◌/◌, ◌%◌, ◌^◌, ◌<◌, ltb, ltb→lt, all_below, all_below_sound, Bytes, [], ◌∷◌,
  Option, some, ◌≡◌, refl, arith, length, get_elem?, get_last?, c_str-Lacks, Lacks, take-eq_self,
}
use x_auth.Otp
use x_auth.Otp.{otp_step_seconds, mod_loop, bin_code, fill_bytes, counter_for_time, hmac_sha256}
use x_auth.Otp.Digits.{pad_and_convert-eight_digits}
use x_auth.Firmware.Totp.{power_loop, dynamic_truncate, store_counter, totp, format_code}

power_loop-mod_loop : (i m : ℕ) → power_loop i m ≡ mod_loop i m
unfolding power_loop mod_loop
power_loop-mod_loop zero m = refl
power_loop-mod_loop (suc i) m = power_loop-mod_loop i (m * 10 % 2 ^ 32)

store_counter-fill_bytes : (i c : ℕ) (out : Bytes) → store_counter i c out ≡ fill_bytes i c out
unfolding store_counter fill_bytes
store_counter-fill_bytes zero c out = refl
store_counter-fill_bytes (suc i) c out = store_counter-fill_bytes i (c / 2 ^ 8) _

get_last?-get_elem? : (n : ℕ) (xs : Bytes) → length xs ≡ suc n → get_last? xs ≡ get_elem? xs n
get_last?-get_elem? n [] h = absurd (omega arith)
get_last?-get_elem? zero (x ∷ []) h = refl
get_last?-get_elem? (suc n) (x ∷ []) h = absurd (omega arith)
get_last?-get_elem? zero (x ∷ y ∷ xs) h = absurd (omega arith)
get_last?-get_elem? (suc n) (x ∷ y ∷ xs) h = get_last?-get_elem? n (y ∷ xs) (omega arith)

dynamic_truncate_agrees :
    (hmac : Bytes) (digits : ℕ)
    → length hmac ≡ 32
    → dynamic_truncate hmac digits ≡ Otp.dynamic_truncate hmac digits
unfolding dynamic_truncate Otp.dynamic_truncate bin_code
dynamic_truncate_agrees hmac digits h = rw (get_last?-get_elem? 31 hmac h) (rw power_loop-mod_loop)

-- The moduli of the digit counts whose powers of ten do not vanish in 32 bits.
mod_loop_positive : (digits : ℕ) → digits < 32 → 0 < mod_loop digits 1
unfolding mod_loop all_below
mod_loop_positive digits h =
    ltb→lt 0 (mod_loop digits 1) (all_below_sound 32 (λ d. ltb 0 (mod_loop d 1)) digits refl h)

-- The key is text with no NUL byte, the two HMAC routines compute the same 32 bytes, the step is not 0,
-- and there are less than 32 digits. Then neither program divides by 0, and the keychain's code is
-- the server's, for every key and time.
pub totp_agrees :
    (hmac : Bytes → Bytes → Option Bytes) (mbedtls_hmac : Bytes → Bytes → Bytes)
    → ((key msg : Bytes) → hmac key msg ≡ some (mbedtls_hmac key msg))
    → ((key msg : Bytes) → length (mbedtls_hmac key msg) ≡ 32)
    → (key : Bytes) (now step_seconds digits : ℕ) → Lacks 0 key
    → 0 < step_seconds
    → digits < 32
    → (totp mbedtls_hmac key now step_seconds digits ≡ Otp.totp hmac key now step_seconds digits)
      × (0 < power_loop digits 1)
      × (0 < mod_loop digits 1)
unfolding totp Otp.totp Otp.totp_for_counter hmac_sha256 counter_for_time
totp_agrees hmac mbedtls_hmac same size key now step_seconds digits text step few =
    let positive = mod_loop_positive digits few in
    (
      rw (c_str-Lacks key text)
          (rw same (rw store_counter-fill_bytes (dynamic_truncate_agrees _ digits (size key _)))),
      rw power_loop-mod_loop positive,
      positive,
    )

-- Below 10 ^ 8 the keychain's `snprintf` and the server's stream print the same eight bytes.
pub format_code_agrees : (code : ℕ) → code < 10 ^ 8 → format_code code ≡ Otp.pad_and_convert code
unfolding format_code Otp.pad_and_convert
format_code_agrees code h =
    take-eq_self 8 (Otp.pad_and_convert code)
      (omega (arith, (pad_and_convert-eight_digits code h).0))
