-- ===== src/Firmware/Main/Blank.antt =====
-- A keychain that does not find its clock chip at power-on.
use x_auth.Base.{
  ℕ, Bool, true, false, Bytes, List, [], ◌∷◌, none, some, some_inj, ◌≡◌, refl, ap, ◌∙◌, arith,
  c_str,
}
use x_auth.Firmware.Clock.Hardware.{Board}
use x_auth.Firmware.Clock.{
  ClockState, no_rtc, Clock, evaluate, clock_begin, rejects_time, apply_time,
}
use x_auth.Firmware.Clock.Serial.{
  Reply, Port, is_digit, strtoul, set_time, time_command, handle_command, poll_byte,
  clock_poll_serial,
}
use x_auth.Firmware.Main.{Keychain, setup, read_clock, draw, loop}
use x_auth.Firmware.Main.Screen.{Run, here, pass, meddle}

module _ (b : Board) (build_epoch : ℕ) where
  -- Without the chip no command is accepted.
  apply_time-no_rtc :
      (epoch : ℕ) (c : Clock b) → c.state ≡ no_rtc → apply_time b build_epoch epoch c ≡ (false, c)
  unfolding apply_time rejects_time
  apply_time-no_rtc epoch c h = rw h

  set_time-no_rtc :
      (at_digit : Bool) (epoch : ℕ) (end : Bytes) (c : Clock b)
      → c.state ≡ no_rtc
      → (set_time b build_epoch at_digit (epoch, end) c).1 ≡ c
  unfolding set_time
  set_time-no_rtc at_digit epoch end c h = rw (apply_time-no_rtc epoch c h) (ground arith)

  time_command-no_rtc :
      (s : Bytes) (c : Clock b) → c.state ≡ no_rtc → (time_command b build_epoch s c).1 ≡ c
  unfolding time_command
  time_command-no_rtc [] c h = refl
  time_command-no_rtc (d ∷ s) c h =
      set_time-no_rtc (is_digit d) (strtoul (d ∷ s)).0 (strtoul (d ∷ s)).1 c h

  handle_command-no_rtc :
      (cmd : Bytes) (c : Clock b) → c.state ≡ no_rtc → (handle_command b build_epoch cmd c).1 ≡ c
  unfolding handle_command
  handle_command-no_rtc [] c h = refl
  handle_command-no_rtc (t ∷ []) c h = ground arith
  handle_command-no_rtc (t ∷ sp ∷ digits) c h = ground (arith, time_command-no_rtc digits c h)

  poll_byte-no_rtc :
      (ch : ℕ) (p : Port b build_epoch)
      → p.clock.state ≡ no_rtc
      → (poll_byte b build_epoch ch p).1.clock ≡ p.clock
  unfolding poll_byte
  poll_byte-no_rtc ch p h = ground (arith, handle_command-no_rtc (c_str p.line) p.clock h)

  clock_poll_serial-no_rtc :
      (input : Bytes) (p : Port b build_epoch)
      → p.clock.state ≡ no_rtc
      → (clock_poll_serial b build_epoch input p).1.clock ≡ p.clock
  unfolding clock_poll_serial
  clock_poll_serial-no_rtc [] p h = refl
  clock_poll_serial-no_rtc (ch ∷ input) p h =
      let same = poll_byte-no_rtc ch p h in
      clock_poll_serial-no_rtc input (poll_byte b build_epoch ch p).1
        (ap (λ (c : Clock b). c.state) same ∙ h)
      ∙ same

  record IsBlank (k : Keychain b build_epoch) : Type 0 where
    chip : k.port.clock.state ≡ no_rtc
    nothing : k.panel ≡ none
    time : k.last_drawn ≡ 0
    state : k.last_state ≡ no_rtc

  setup-IsBlank :
      (s : b.State) (k : Keychain b build_epoch)
      → b.rtc_begin s ≡ false
      → setup b build_epoch true s ≡ some k
      → IsBlank k
  unfolding setup clock_begin evaluate
  setup-IsBlank s k lost h =
      rw (← some_inj h) (record { chip = rw lost; nothing = refl; time = refl; state = refl })

  module _ (mbedtls_hmac : Bytes → Bytes → Bytes) (secret_key device_id : Bytes) where
    read_clock-no_rtc : (c : Clock b) → c.state ≡ no_rtc → read_clock b build_epoch c ≡ (0, c)
    unfolding read_clock
    read_clock-no_rtc c h = rw h

    draw-blank :
        (s : ClockState) (k : Keychain b build_epoch)
        → s ≡ no_rtc
        → k.last_drawn ≡ 0
        → k.last_state ≡ no_rtc
        → draw b build_epoch mbedtls_hmac secret_key device_id 0 s k ≡ some k
    unfolding draw
    draw-blank s k hs time state = ground arith

    loop-IsBlank :
        (input : Bytes) (k k' : Keychain b build_epoch) (replies : List Reply)
        → IsBlank k
        → loop b build_epoch mbedtls_hmac secret_key device_id input k ≡ some (replies, k')
        → IsBlank k'
    unfolding loop
    loop-IsBlank input k k' replies blank h =
        let p = (clock_poll_serial b build_epoch input k.port).1 in
        let still = clock_poll_serial-no_rtc input k.port blank.chip in
        let chip : p.clock.state ≡ no_rtc = ap (λ (c : Clock b). c.state) still ∙ blank.chip in
        let k1 = record k { port = record p { clock = p.clock } } in
        let quiet = draw-blank p.clock.state k1 chip blank.time blank.state in
        let same : k1 ≡ k' =
          ap (λ (r : List Reply × Keychain b build_epoch). r.1)
            (some_inj (rw quiet at (rw (read_clock-no_rtc p.clock chip) at h))) in
        rw (← same)
          (record { chip = chip; nothing = blank.nothing; time = blank.time; state = blank.state })

    Run-IsBlank :
        {first k : Keychain b build_epoch}
        → IsBlank first
        → Run b build_epoch mbedtls_hmac secret_key device_id first k
        → IsBlank k
    Run-IsBlank blank here = blank
    Run-IsBlank blank (pass input replies r h) =
        loop-IsBlank input _ _ replies (Run-IsBlank blank r) h
    Run-IsBlank blank (meddle s r) =
        let before = Run-IsBlank blank r in
        record {
          chip = before.chip;
          nothing = before.nothing;
          time = before.time;
          state = before.state;
        }

    -- If the clock chip does not answer at power-on, the panel shows nothing at any later time,
    -- not the text `NO CLOCK` either, whatever comes to the port, and also after the chip answers again.
    pub Run-blank :
        (s : b.State) (first k : Keychain b build_epoch)
        → b.rtc_begin s ≡ false
        → setup b build_epoch true s ≡ some first
        → Run b build_epoch mbedtls_hmac secret_key device_id first k
        → (k.panel ≡ none) × (k.port.clock.state ≡ no_rtc)
    Run-blank s first k lost h r =
        let blank = Run-IsBlank (setup-IsBlank s first lost h) r in (blank.nothing, blank.chip)
