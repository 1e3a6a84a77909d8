-- ===== src/Tests/Panel.antt =====
-- The keychain from power-on, on a board of plain fields.
use x_auth.Base.{
  ℕ, ◌∷◌, [], ◌++◌, ◌*◌, ◌-◌, ◌%◌, ◌≤◌, ◌<◌, true, false, Bytes, codes, List, [], ◌++◌, none, some,
  All, ◌≡◌, refl, arith,
}
use x_auth.Firmware.Totp.{otp_step_seconds}
use x_auth.Firmware.Clock.{ok, no_rtc, evaluate, clock_begin}
use x_auth.Firmware.Clock.Serial.{Reply}
use x_auth.Base.Int.{pos}
use x_auth.Firmware.Display.{
  white, clear_display, set_text_color, set_text_size, set_cursor, print, display, group,
  display_show_code, display_status, display_message,
}
use x_auth.Firmware.Display.Bench.{
  demo_border, demo_text_size1, demo_text_size2, demo_shapes, demo_invert, demo_random_noise, emin,
  emin2,
}
use x_auth.Firmware.Display.Bounds.{IsOnPanel, IsBelow, frames-IsOnPanel}
use x_auth.Firmware.Display.{time_lines, draw_time_left}
use x_auth.Firmware.Display.Layout.{icon, IsInCorner, draw_time_left-quarters}
use x_auth.Firmware.Main.{Keychain, setup, loop}
use x_auth.Firmware.Main.Screen.{here, meddle, Passed, loop_shows}
use x_auth.Firmware.Main.Picture.{Displayed, code_frame}
use x_auth.Otp.{counter_for_time}
use x_auth.Verifier.Check.Sound.{IsCodeAt}
use x_auth.Base.Decimal.{value_from, value}
use x_auth.Firmware.Clock.Trust.{Accepts}
use x_auth.Firmware.Clock.Serial.Command.{IsTime}
use x_auth.Firmware.Display.{Frame}
use x_auth.Firmware.Main.Set.{set_line, loop_shows_code}
use x_auth.Firmware.Main.Blank.{Run-blank}
use x_auth.Tests.Fixtures.{board, board_laws, Chip, checksum, hmac_sha, id}

-- Set up, last seen at 1500, and it is 2000.
abbrev chip : Chip
chip = record { begins = true; lost = false; time = 2000; provisioned = true; mark = 1500 }

abbrev short_key : Bytes
short_key = codes "k"

abbrev powered : Keychain board 1000
powered = record {
  port = record {
    line = [];
    overflow = false;
    clock = record { board = chip; state = ok; last_seen = 1500 };
  };
  panel = none;
  last_drawn = 0;
  last_state = no_rtc;
}

powered_on : setup board 1000 true chip ≡ some powered
unfolding setup clock_begin evaluate
powered_on = refl

-- An hour later.
abbrev waited : Keychain board 1000
waited = record powered {
  port = record powered.port {
    clock = record powered.port.clock { board = record chip { time = 5600 } };
  };
}

loop_shows_example :
    (replies : List Reply) × (k' : Keychain board 1000) × (loop board 1000 checksum short_key id
        (codes "T 2100\n")
        waited
      ≡ some (replies, k'))
    × Passed board 1000 checksum short_key id (codes "T 2100\n") waited k' replies
    × Displayed
        (λ key msg. some (checksum key msg))
        short_key
        id
        k'.panel
        k'.last_drawn
        k'.last_state
loop_shows_example =
    loop_shows board 1000 checksum short_key id hmac_sha ((λ e. omega arith), tt) chip powered
      waited (codes "T 2100\n") powered_on (meddle (record chip { time = 5600 }) here)

-- The chip does not answer.
abbrev mute : Chip
mute = record chip { begins = false }

abbrev dark : Keychain board 1000
dark = record powered {
  port = record powered.port { clock = record { board = mute; state = no_rtc; last_seen = 1500 } };
}

dark_on : setup board 1000 true mute ≡ some dark
unfolding setup clock_begin evaluate
dark_on = refl

-- Then it answers again.
abbrev mended : Keychain board 1000
mended = record dark { port = record dark.port { clock = record dark.port.clock { board = chip } } }

Run-blank_example : (mended.panel ≡ none) × (mended.port.clock.state ≡ no_rtc)
Run-blank_example =
    Run-blank board 1000 checksum short_key id mute dark mended refl dark_on (meddle chip here)

draw_time_left-quarters_example :
    let lines = time_lines 23 otp_step_seconds in
    (draw_time_left 23 otp_step_seconds ≡ icon 23)
    × All IsInCorner (draw_time_left 23 otp_step_seconds)
    × (1 ≤ lines)
    × (lines ≤ 4)
    × (otp_step_seconds * (lines - 1) < 23 * 4)
    × (23 * 4 ≤ otp_step_seconds * lines)
draw_time_left-quarters_example = draw_time_left-quarters 23 (omega arith) (omega arith)

abbrev code : Bytes
code = codes "25264513"

abbrev shown : Frame
shown =
    clear_display
    ∷ set_text_color white
    ∷ set_text_size 2
    ∷ set_cursor (pos 10) (pos 0)
    ∷ print (codes "2526 4513")
    ∷ set_text_size 1
    ∷ set_cursor (pos 0) (pos 24)
    ∷ print id
    ∷ (draw_time_left 23 otp_step_seconds ++ display ∷ [])

shows : display_show_code code id 23 otp_step_seconds ≡ some shown
unfolding display_show_code group
shows = refl

-- The last number below the argument.
abbrev last : ℕ → ℕ → ℕ
last call n = n - 1

last-IsBelow : IsBelow last
last-IsBelow call n h = omega arith

frames-IsOnPanel_example :
    All IsOnPanel shown
    × All IsOnPanel (display_status (codes "CLOCK ERROR") id)
    × All IsOnPanel (display_message (codes "hello"))
    × All IsOnPanel (demo_random_noise last last)
    × All IsOnPanel demo_border
    × All IsOnPanel demo_text_size1
    × All IsOnPanel demo_text_size2
    × All IsOnPanel demo_shapes
    × All IsOnPanel demo_invert
    × All IsOnPanel emin
    × All IsOnPanel emin2
frames-IsOnPanel_example =
    frames-IsOnPanel code id (codes "CLOCK ERROR") (codes "hello") 23 shown last last (omega arith)
      shows last-IsBelow last-IsBelow

number : value (codes "2100") ≡ 2100
unfolding value value_from
number = refl

is_time : IsTime board 1000 (codes "2100")
is_time = record {
  some_digit = λ e. cc e;
  digits = (
    (omega arith, omega arith),
    ((omega arith, omega arith), ((omega arith, omega arith), ((omega arith, omega arith), tt))),
  );
  in_range = omega (arith, number);
}

accepted : Accepts board 1000 (value (codes "2100")) powered.port.clock
accepted = record {
  has_rtc = λ e. cc e;
  built = omega (arith, number);
  nudge = λ e. (omega (arith, number), omega (arith, number));
  near_mark = omega (arith, number);
}

loop_shows_code_example :
    (replies : List Reply) × (k' : Keychain board 1000) × (code : Bytes) × (loop board 1000 checksum
        short_key id
        (set_line (codes "2100") ++ b'\n' ∷ [])
        powered
      ≡ some (replies, k'))
    × IsCodeAt
        (λ key msg. some (checksum key msg))
        short_key
        (counter_for_time (value (codes "2100")) 90)
        code
    × (k'.panel ≡ some (code_frame code id (90 - value (codes "2100") % 90)))
    × (k'.port.clock.state ≡ ok)
loop_shows_code_example =
    loop_shows_code board 1000 checksum short_key id hmac_sha ((λ e. omega arith), tt) board_laws
      chip powered powered (codes "2100") powered_on here refl refl refl is_time (omega arith)
      accepted (omega (arith, number))
