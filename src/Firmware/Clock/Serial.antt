-- ===== src/Firmware/Clock/Serial.antt =====
-- The USB serial protocol of firmware/xAuth_ID/src/clock.cpp: `report`, `handle_command` and
-- `clock_poll_serial`. The temperature, a float, is left out of a report.
pub mod Command
pub mod Lines
use x_auth.Base.{
  ℕ, ◌+◌, ◌-◌, ◌*◌, ◌^◌, ◌<◌, min, Bool, true, false, not, ◌&&◌, ◌||◌, Bytes, codes, List, [], ◌∷◌,
  ◌++◌, leb, ltb, ◌==◌, if◌then◌else◌, equal, length, c_str,
}
use x_auth.Firmware.Clock.Hardware.{Board}
use x_auth.Firmware.Clock.{ClockState, is_no_rtc, state_name, Clock, apply_time, max_epoch}

-- What is printed on the line: `NOW` or `SET` with the report, or an error.
pub data Reply : Type 0 where
  report_line : Bytes → ℕ → ℕ → Bytes → Reply
  err_rejected err_unknown : Reply

abbrev pub is_digit : ℕ → Bool
is_digit c = leb b'0' c && leb c b'9'

-- The digits at the front: the number that they spell behind `n`, and what follows them.
unfoldable pub scan_digits : Bytes → ℕ → ℕ × Bytes
scan_digits [] n = (n, [])
scan_digits (c ∷ s) n =
    let further = scan_digits s (n * 10 + (c - b'0')) in if is_digit c then further else (n, c ∷ s)

-- strtoul of the C library, at a digit: an unsigned long has 32 bits on the ESP32, and a larger number
-- gives the largest.
unfoldable pub strtoul : Bytes → ℕ × Bytes
unfolding scan_digits
strtoul s = let (n, rest) = scan_digits s 0 in (min n (2 ^ 32 - 1), rest)

abbrev pub is_empty : Bytes → Bool
is_empty [] = true
is_empty (c ∷ s) = false

module _ (b : Board) (build_epoch : ℕ) where
  unfoldable pub report : Bytes → Clock b → Reply
  report tag c =
      report_line tag (if is_no_rtc c.state then 0 else b.rtc_time c.board)
        (if not (is_no_rtc c.state) && b.rtc_lost_power c.board then 1 else 0) (state_name c.state)

  -- What follows the number, with the epoch and the rest of the text that `strtoul` gave.
  unfoldable pub set_time : Bool → ℕ × Bytes → Clock b → Reply × Clock b
  set_time at_digit (epoch, end) c =
      if not at_digit || (not (is_empty end) || ltb max_epoch epoch)
      then (err_rejected, c)
      else (let (done, c') = apply_time b build_epoch epoch c in
          (if done then report (codes "SET") c' else err_rejected, c'))

  -- The text behind `T `. What `strtoul` gives counts only at a digit.
  unfoldable pub time_command : Bytes → Clock b → Reply × Clock b
  time_command [] c = (err_rejected, c)
  time_command (d ∷ s) c = set_time (is_digit d) (strtoul (d ∷ s)) c

  unfoldable pub handle_command : Bytes → Clock b → Reply × Clock b
  unfolding time_command
  handle_command [] c = (err_unknown, c)
  handle_command (t ∷ []) c = if t == b'?' then (report (codes "NOW") c, c) else (err_unknown, c)
  handle_command (t ∷ sp ∷ digits) c =
      if t == b'T' && sp == b' ' then time_command digits c else (err_unknown, c)

  -- The static variables of `clock_poll_serial`; `len` is the length of `line`.
  pub record Port : Type 0 where
    pub line : Bytes
    pub overflow : Bool
    pub clock : Clock b

  -- One byte of the loop, with the lines that are printed.
  unfoldable pub poll_byte : ℕ → Port → List Reply × Port
  poll_byte ch p =
      if ch == b'\r'
      then ([], p)
      else if not (ch == b'\n')
      then (
        [],
        (if ltb (length p.line) 31
            then record p { line = p.line ++ ch ∷ [] }
            else record p { overflow = true }),
      )
      else if not p.overflow
      then (let (reply, c') = handle_command (c_str p.line) p.clock in
          (reply ∷ [], record { line = []; overflow = false; clock = c' }))
      else ([], record { line = []; overflow = false; clock = p.clock })

  unfoldable pub clock_poll_serial : Bytes → Port → List Reply × Port
  unfolding poll_byte
  clock_poll_serial [] p = ([], p)
  clock_poll_serial (ch ∷ input) p =
      let (replies, p') = poll_byte ch p in
      let (later, p'') = clock_poll_serial input p' in (replies ++ later, p'')
