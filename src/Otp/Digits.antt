-- ===== src/Otp/Digits.antt =====
-- `pad_and_convert` of core/otp.cpp.
use x_auth.Base.{ℕ, ◌^◌, ◌<◌, ◌≡◌, arith, length, All, IsDigit}
use x_auth.Base.Decimal.{
  digits_of, value, value-digits_of, length-digits_of, digits_of-IsDigit, pad-decimal,
}
use x_auth.Otp.{otp_size, pad_and_convert}

pub pad_and_convert-digits_of : (code : ℕ) → code < 10 ^ 8 → pad_and_convert code ≡ digits_of 8 code
unfolding pad_and_convert
pad_and_convert-digits_of code h = pad-decimal 7 code (omega arith) h

-- A code below 10 ^ 8 is printed as exactly eight decimal digits, which spell it.
pub pad_and_convert-eight_digits :
    (code : ℕ)
    → code < 10 ^ 8
    → (length (pad_and_convert code) ≡ otp_size)
      × All IsDigit (pad_and_convert code)
      × (value (pad_and_convert code) ≡ code)
pad_and_convert-eight_digits code h =
    rw (pad_and_convert-digits_of code h)
      (length-digits_of 8 code, digits_of-IsDigit 8 code, value-digits_of 8 code h)
