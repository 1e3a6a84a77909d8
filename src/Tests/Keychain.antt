-- ===== src/Tests/Keychain.antt =====
-- The keychain on a board of plain fields.
use x_auth.Base.{
  ℕ, ◌<◌, ◌++◌, All, IsDigit, ◌+◌, ◌≤◌, true, false, not, ltb, Bytes, codes, ◌≡◌, ◌⊎◌, refl, arith,
}
use x_auth.Otp
use x_auth.Otp.{otp_step_seconds, counter_for_time, mod_loop}
use x_auth.Firmware.Totp.{power_loop, totp}
use x_auth.Firmware.Totp.Agree.{totp_agrees}
use x_auth.Firmware.Clock.{ok, Clock, apply_time, max_nudge_seconds, max_epoch}
use x_auth.Firmware.Clock.Trust.{Accepts, IsWritten, apply_time-cases}
use x_auth.Firmware.Clock.HighWater.{start, next, setting, IsMirrored, Run-high_water}
use x_auth.Firmware.Clock.Nudge.{three_commands_jump}
use x_auth.Firmware.Clock.Serial.{err_rejected, report, handle_command}
use x_auth.Firmware.Clock.Serial.Command.{IsTime}
use x_auth.Base.Decimal.{value_from, value}
use x_auth.Tests.Fixtures.{board, board_laws, hmac, checksum}

-- Built at 1000, set up, last seen at 1500, and it is 2000.
abbrev clock : Clock board
clock = record {
  board = record { begins = true; lost = false; time = 2000; provisioned = true; mark = 1500 };
  state = ok;
  last_seen = 1500;
}

totp_agrees_example :
    (totp checksum (codes "k") 100 90 8 ≡ Otp.totp hmac (codes "k") 100 90 8)
    × (0 < power_loop 8 1)
    × (0 < mod_loop 8 1)
totp_agrees_example =
    totp_agrees hmac checksum (λ k msg. refl) (λ k msg. refl) (codes "k") 100 90 8
      ((λ e. omega arith), tt) (omega arith) (omega arith)

apply_time-cases_example :
    ((¬ Accepts board 1000 1900 clock) × (apply_time board 1000 1900 clock ≡ (false, clock)))
    ⊎ (Accepts board 1000 1900 clock
        × ((apply_time board 1000 1900 clock).0 ≡ not (ltb 1900 clock.last_seen))
        × IsWritten board 1000 1900 clock (apply_time board 1000 1900 clock).1)
apply_time-cases_example = apply_time-cases board 1000 board_laws 1900 clock refl

abbrev later : Clock board
later = (apply_time board 1000 2100 clock).1

Run-high_water_example :
    IsMirrored board 1000 later
    × (clock.last_seen ≤ later.last_seen)
    × ((epoch : ℕ) → Accepts board 1000 epoch later → clock.last_seen ≤ epoch + max_nudge_seconds)
Run-high_water_example = Run-high_water board 1000 board_laws refl (next start (setting 2100))

-- Its own time, a second less, and a time in the year 2096.
abbrev own : Bytes
own = codes "2000"

abbrev back : Bytes
back = codes "1999"

abbrev far : Bytes
far = codes "4000000000"

own-value : value own ≡ 2000
unfolding value value_from
own-value = refl

back-value : value back ≡ 1999
unfolding value value_from
back-value = refl

far-value : value far ≡ 4000000000
unfolding value value_from
far-value = refl

own-IsTime : IsTime board 1000 own
own-IsTime = record {
  some_digit = λ e. cc e;
  digits = (
    (omega arith, omega arith),
    ((omega arith, omega arith), ((omega arith, omega arith), ((omega arith, omega arith), tt))),
  );
  in_range = omega (arith, own-value);
}

back-IsTime : IsTime board 1000 back
back-IsTime = record {
  some_digit = λ e. cc e;
  digits = (
    (omega arith, omega arith),
    ((omega arith, omega arith), ((omega arith, omega arith), ((omega arith, omega arith), tt))),
  );
  in_range = omega (arith, back-value);
}

zeros-All : All IsDigit (codes "000000000")
zeros-All = (
  (omega arith, omega arith),
  (
    (omega arith, omega arith),
    (
      (omega arith, omega arith),
      (
        (omega arith, omega arith),
        (
          (omega arith, omega arith),
          (
            (omega arith, omega arith),
            (
              (omega arith, omega arith),
              ((omega arith, omega arith), ((omega arith, omega arith), tt)),
            ),
          ),
        ),
      ),
    ),
  ),
)

far-IsTime : IsTime board 1000 far
far-IsTime = record {
  some_digit = λ e. cc e;
  digits = ((omega arith, omega arith), zeros-All);
  in_range = omega (arith, far-value);
}

three_commands_jump_example :
    let first = handle_command board 1000 (codes "T " ++ own) clock in
    let second = handle_command board 1000 (codes "T " ++ back) first.1 in
    let third = handle_command board 1000 (codes "T " ++ far) second.1 in
    (second.0 ≡ err_rejected)
    × (third.0 ≡ report board 1000 (codes "SET") third.1)
    × (third.1.state ≡ ok)
    × (board.rtc_time third.1.board ≡ value far)
    × (value far ≤ max_epoch)
three_commands_jump_example =
    three_commands_jump board 1000 board_laws clock refl refl (omega arith) (omega arith) own back
      far own-IsTime own-value back-IsTime back-value far-IsTime (omega (arith, far-value))

abbrev line : Bytes
line = codes "T 2100"
