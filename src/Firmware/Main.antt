-- ===== src/Firmware/Main.antt =====
-- firmware/xAuth_ID/src/main.cpp: `setup` and `loop`. The delay, the pins and the message on the serial
-- port at the start are left out. What happens to the board between two passes is up to the world.
pub mod Picture
pub mod Screen
pub mod Blank
pub mod Set
use x_auth.Base.{
  ℕ, Bool, true, false, not, ◌||◌, Bytes, List, Option, none, some, ◌>>=◌, ◌==◌, if◌then◌else◌, [],
}
use x_auth.Firmware.Totp.{otp_step_seconds, otp_now, otp_seconds_left, format_code}
use x_auth.Firmware.Clock.Hardware.{Board}
use x_auth.Firmware.Clock.{
  ClockState, ok, no_rtc, stopped, never_set, went_backwards, is_ok, is_no_rtc, clock_state_text,
  Clock, clock_now, clock_begin,
}
use x_auth.Firmware.Clock.Serial.{Reply, Port, clock_poll_serial}
use x_auth.Firmware.Display.{Frame, display_show_code, display_status}

-- The value of the enumerator, by which states are compared.
abbrev pub state_number : ClockState → ℕ
state_number ok = 0
state_number no_rtc = 1
state_number stopped = 2
state_number never_set = 3
state_number went_backwards = 4

module _ (b : Board) (build_epoch : ℕ) where
  -- `panel` is what the panel shows, `none` from power-on to the first drawing.
  pub record Keychain : Type 0 where
    pub port : Port b build_epoch
    pub panel : Option Frame
    pub last_drawn : ℕ
    pub last_state : ClockState

  -- `none` is the endless wait without a display.
  unfoldable pub setup : Bool → b.State → Option Keychain
  setup display_found s =
      if not display_found
      then none
      else some (record {
        port = record { line = []; overflow = false; clock = clock_begin b build_epoch s };
        panel = none;
        last_drawn = 0;
        last_state = no_rtc;
      })

  -- The time that a pass draws, and the clock after it was read.
  unfoldable pub read_clock : Clock b → ℕ × Clock b
  read_clock c = if is_no_rtc c.state then (0, c) else clock_now b c

  module _ (mbedtls_hmac : Bytes → Bytes → Bytes) (secret_key device_id : Bytes) where
    -- The screen for a time and a state of the clock; a read outside an array is `none`.
    unfoldable pub frame_for : ℕ → ClockState → Option Frame
    frame_for now s =
        if is_ok s
        then (do
          code ← otp_now mbedtls_hmac secret_key now
          display_show_code (format_code code) device_id (otp_seconds_left now) otp_step_seconds)
        else some (display_status (clock_state_text s) device_id)

    unfoldable pub draw : ℕ → ClockState → Keychain → Option Keychain
    unfolding frame_for
    draw now s k =
        if not (now == k.last_drawn) || not (state_number s == state_number k.last_state)
        then (do
          frame ← frame_for now s
          some (record k { panel = some frame; last_drawn = now; last_state = s }))
        else some k

    -- One pass, with the bytes that wait at the serial port.
    unfoldable pub loop : Bytes → Keychain → Option (List Reply × Keychain)
    unfolding draw read_clock
    loop input k =
        let (replies, p) = clock_poll_serial b build_epoch input k.port in
        let (now, c) = read_clock p.clock in
        do k' ← draw now c.state (record k { port = record p { clock = c } }); some (replies, k')
