-- ===== src/Firmware/Clock/Serial/Command.antt =====
-- The command `T` of clock.cpp.
use x_auth.Base.{
  ℕ, Bool, ◌⊎◌, inl, inr, ◌+◌, ◌-◌, ◌*◌, ◌^◌, ◌≤◌, min, true, false, not, ◌||◌, Bytes, codes, [],
  ◌∷◌, ◌++◌, ltb, if◌then◌else◌, All, IsDigit, ◌≡◌, ◌≢◌, inl, inr, refl, arith, Bool-cases,
}
use x_auth.Base.Decimal.{value_from, value}
use x_auth.Firmware.Clock.Hardware.{Board}
use x_auth.Firmware.Clock.{Clock, apply_time, max_epoch}
use x_auth.Firmware.Clock.Serial.{
  Reply, err_rejected, is_digit, scan_digits, strtoul, is_empty, report, set_time, time_command,
  handle_command,
}

scan_digits-All : (s : Bytes) (n : ℕ) → All IsDigit s → scan_digits s n ≡ (value_from n s, [])
unfolding scan_digits
scan_digits-All [] n h = refl
scan_digits-All (c ∷ s) n (hc, hs) =
    let digit : is_digit c ≡ true = ground arith in
    rw digit (scan_digits-All s (n * 10 + (c - b'0')) hs)

scan_digits-end : (s : Bytes) (n : ℕ) → is_empty (scan_digits s n).1 ≡ true → All IsDigit s
unfolding scan_digits
scan_digits-end [] n h = tt
scan_digits-end (c ∷ s) n h = elim (Bool-cases (is_digit c)) [
  | inl digit ↦ (ground arith, scan_digits-end s (n * 10 + (c - b'0')) (rw digit at h))
  | inr other ↦ absurd (ground (arith, rw other at h))
]

module _ (b : Board) (build_epoch : ℕ) where
  -- One or more digits, and a number that is not above the limit.
  pub record IsTime (s : Bytes) : Type 0 where
    pub some_digit : s ≢ []
    pub digits : All IsDigit s
    pub in_range : value s ≤ max_epoch

  -- What the command then does.
  abbrev pub set_and_report : ℕ → Clock b → Reply × Clock b
  set_and_report epoch c =
      let (done, c') = apply_time b build_epoch epoch c in
      (if done then report b build_epoch (codes "SET") c' else err_rejected, c')

  strtoul-IsTime : (s : Bytes) → IsTime s → strtoul s ≡ (value s, [])
  unfolding strtoul
  strtoul-IsTime s h =
      let fits : min (value s) (2 ^ 32 - 1) ≡ value s = omega (arith, h.in_range) in
      rw (scan_digits-All s 0 h.digits) (rw fits)

  time_command-IsTime :
      (s : Bytes) (c : Clock b)
      → IsTime s
      → time_command b build_epoch s c ≡ set_and_report (value s) c
  unfolding time_command
  time_command-IsTime [] c h = absurd (h.some_digit refl)
  time_command-IsTime (d ∷ s) c h =
      let digit : is_digit d ≡ true = ground (arith, h.digits.0) in
      let small : ltb max_epoch (value (d ∷ s)) ≡ false = ground (arith, h.in_range) in
      rw (strtoul-IsTime (d ∷ s) h) (rw digit (unfold set_time in rw small))

  min-le : (n : ℕ) → ltb max_epoch (min n (2 ^ 32 - 1)) ≡ false → n ≤ max_epoch
  min-le n h = ground arith

  accepted_digits :
      (d : ℕ) (s : Bytes)
      → (not (is_digit d)
          || (not (is_empty (strtoul (d ∷ s)).1) || ltb max_epoch (strtoul (d ∷ s)).0))
        ≡ false
      → IsTime (d ∷ s)
  unfolding strtoul
  accepted_digits d s h =
      let all = scan_digits-end (d ∷ s) 0 (ground arith) in
      let whole = scan_digits-All (d ∷ s) 0 all in
      record {
        some_digit = λ e. cc;
        digits = all;
        in_range = min-le (value (d ∷ s)) (ground (arith, rw whole at h));
      }

  abbrev refuses : ℕ → Bytes → Bool
  refuses d s =
      not (is_digit d) || (not (is_empty (strtoul (d ∷ s)).1) || ltb max_epoch (strtoul (d ∷ s)).0)

  refused_text : (d : ℕ) (s : Bytes) → refuses d s ≡ true → ¬ IsTime (d ∷ s)
  refused_text d s bad h =
      absurd (ground (arith, h.digits.0, h.in_range, rw (strtoul-IsTime (d ∷ s) h) at bad))

  -- The line `T ` with a text behind it sets the time and answers with the report or the rejection
  -- if the text is one or more digits whose number is at most the limit; any other text is rejected
  -- and leaves the clock as it was.
  pub handle_command-T :
      (s : Bytes) (c : Clock b)
      → (IsTime s × (handle_command b build_epoch (codes "T " ++ s) c ≡ set_and_report (value s) c))
        ⊎ ((¬ IsTime s) × (handle_command b build_epoch (codes "T " ++ s) c ≡ (err_rejected, c)))
  unfolding handle_command time_command
  handle_command-T [] c = inr ((λ h. h.some_digit refl), refl)
  handle_command-T (d ∷ s) c = elim (Bool-cases (refuses d s)) [
    | inl bad ↦ inr (refused_text d s bad, unfold set_time in rw bad)
    | inr good ↦ let t = accepted_digits d s good in inl (t, time_command-IsTime (d ∷ s) c t)
  ]
