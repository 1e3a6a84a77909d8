-- ===== src/Otpgen.antt =====
-- tests/gen_codes.cpp: prints the code of the OTP core for each counter on the command line, to be
-- compared with the golden vectors. `stoull` is the function of the standard library.
use x_auth.Base.{
  ℕ, Bytes, codes, List, [], ◌∷◌, ◌++◌, Option, none, some, ◌>>=◌, map, decimal, ◌≡◌, refl,
  append_assoc,
}
use x_auth.Otp.{IsSha256, otp_size, totp_for_counter, pad_and_convert}
use x_auth.Otp.Total.{totp_for_counter-total}
use x_auth.Verifier.Check.Sound.{IsCodeAt}

module _ (hmac : Bytes → Bytes → Option Bytes) (stoull : Bytes → Option ℕ) where
  -- One line; `none` is a throw.
  unfoldable pub code_line : Bytes → Bytes → Option Bytes
  code_line key arg = do
    counter ← stoull arg
    code ← totp_for_counter hmac key counter otp_size
    some (pad_and_convert code ++ codes "\n")

  -- The exit status, `none` for a throw that nobody catches, and what is printed before it.
  unfoldable pub print_lines : Bytes → List Bytes → Option ℕ × Bytes
  unfolding code_line
  print_lines key [] = (some 0, [])
  print_lines key (arg ∷ args) =
      let rest = print_lines key args in
      elim (code_line key arg) [ none ↦ (none, []) | some line ↦ (rest.0, line ++ rest.1) ]

  -- `argv` behind the name of the program.
  unfoldable pub otpgen : List Bytes → Option ℕ × Bytes
  unfolding print_lines
  otpgen [] = (some 2, [])
  otpgen (key ∷ []) = (some 2, [])
  otpgen (key ∷ arg ∷ args) = print_lines key (arg ∷ args)

module _ (hmac : Bytes → Bytes → Option Bytes) (key : Bytes) where
  -- A line with the code for each counter.
  abbrev pub CodeLines : List ℕ → Bytes → Type 0
  CodeLines [] out = out ≡ []
  CodeLines (counter ∷ counters) out =
      (code : Bytes) × (rest : Bytes) × (out ≡ code ++ (codes "\n" ++ rest))
      × IsCodeAt hmac key counter code
      × CodeLines counters rest

module _ (hmac : Bytes → Bytes → Option Bytes) (sha : IsSha256 hmac) (stoull : Bytes → Option ℕ)
    (reads : (n : ℕ) → stoull (decimal n) ≡ some n) where
  code_line-some :
      (key : Bytes) (counter n : ℕ)
      → totp_for_counter hmac key counter otp_size ≡ some n
      → code_line hmac stoull key (decimal counter) ≡ some (pad_and_convert n ++ codes "\n")
  unfolding code_line
  code_line-some key counter n made = rw (reads counter) (rw made refl)

  print_lines-CodeLines :
      (key : Bytes) (counters : List ℕ)
      → let done = print_lines hmac stoull key (map decimal counters) in
        (done.0 ≡ some 0) × CodeLines hmac key counters done.1
  unfolding print_lines
  print_lines-CodeLines key [] = (refl, refl)
  print_lines-CodeLines key (counter ∷ counters) =
      let (code, made, _) = totp_for_counter-total hmac sha key counter in
      let (status, rest) = print_lines-CodeLines key counters in
      let out = (print_lines hmac stoull key (map decimal counters)).1 in
      rw (print_lines, code_line-some key counter code made)
        (
          status,
          (
            pad_and_convert code,
            out,
            append_assoc (pad_and_convert code) (codes "\n") out,
            record { code = code; computed = made; printed = refl },
            rest,
          ),
        )

  -- With a key and at least one counter, each in decimal, `otpgen` exits with 0 and prints a line for
  -- each counter, with exactly the text that the verifier compares a code with at that counter. The
  -- HMAC gives 32 bytes.
  pub otpgen-CodeLines :
      (key : Bytes) (counter : ℕ) (counters : List ℕ)
      → let done = otpgen hmac stoull (key ∷ map decimal (counter ∷ counters)) in
        (done.0 ≡ some 0) × CodeLines hmac key (counter ∷ counters) done.1
  unfolding otpgen
  otpgen-CodeLines key counter counters = print_lines-CodeLines key (counter ∷ counters)
