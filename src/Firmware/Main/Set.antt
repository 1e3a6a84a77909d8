-- ===== src/Firmware/Main/Set.antt =====
-- Setting the time over USB, up to the code on the screen.
use mathlib.Core.Path.{ap₂}
use x_auth.Base.{
  ℕ, ◌+◌, ◌-◌, subst, ◌≤◌, ◌%◌, ◌^◌, Bool, true, false, Bytes, codes, List, [], ◌∷◌, ◌++◌, Option,
  some, ltb, if◌then◌else◌, length, All, IsDigit, Lacks, c_str-Lacks, ◌≡◌, inl, inr, refl, ap, ◌∙◌,
  arith, Bool-cases,
}
use x_auth.Base.Decimal.{value}
use x_auth.Otp.{IsSha256, counter_for_time}
use x_auth.Firmware.Clock.Hardware.{Board, BoardLaws}
use x_auth.Firmware.Clock.{
  ClockState, ok, Clock, set_high_water, remember_time, clock_now, apply_time, high_water_interval,
}
use x_auth.Firmware.Clock.Trust.{Accepts, apply_time-cases}
use x_auth.Firmware.Clock.Serial.{Reply, handle_command, Port, clock_poll_serial}
use x_auth.Firmware.Clock.Serial.Command.{IsTime, handle_command-T}
use x_auth.Firmware.Clock.Serial.Lines.{port, clock_poll_serial-line}
use x_auth.Firmware.Display.{Frame}
use x_auth.Firmware.Main.{Keychain, setup, read_clock, loop}
use x_auth.Firmware.Main.Picture.{
  Pictures, Displayed, blank, picture, code_picture, state_picture, code_frame,
}
use x_auth.Firmware.Main.Screen.{Run, loop_shows}
use x_auth.Verifier.Check.Sound.{IsCodeAt}

All-digit_ne : (x : ℕ) (s : Bytes) → x ≤ 47 → All IsDigit s → Lacks x s
All-digit_ne x [] small h = tt
All-digit_ne x (c ∷ s) small h = ((λ e. omega (arith, h.0)), All-digit_ne x s small h.1)

-- The command with a number.
abbrev pub set_line : Bytes → Bytes
set_line s = codes "T " ++ s

set_line-Lacks : (x : ℕ) (s : Bytes) → x ≤ 31 → All IsDigit s → Lacks x (set_line s)
set_line-Lacks x s small h =
    ((λ e. omega arith), ((λ e. omega arith), All-digit_ne x s (omega arith) h))

Pictures-ok :
    (hmac : Bytes → Bytes → Option Bytes) (key id : Bytes) (n : ℕ) (s : ClockState) (f : Frame)
    → Pictures hmac key id n s f
    → s ≡ ok
    → (code : Bytes) × IsCodeAt hmac key (counter_for_time n 90) code
      × (f ≡ code_frame code id (90 - n % 90))
Pictures-ok hmac key id n _ _ (code_picture code at) h = (code, at, refl)
Pictures-ok hmac key id n _ _ (state_picture s off) h = absurd (off h)

Displayed-ok :
    (hmac : Bytes → Bytes → Option Bytes) (key id : Bytes) (p : Option Frame) (n : ℕ)
    (s : ClockState)
    → Displayed hmac key id p n s
    → s ≡ ok
    → (code : Bytes) × IsCodeAt hmac key (counter_for_time n 90) code
      × (p ≡ some (code_frame code id (90 - n % 90)))
Displayed-ok hmac key id _ _ _ blank h = absurd (cc h)
Displayed-ok hmac key id _ n s (picture _ _ f p) h =
    let (code, at, e) = Pictures-ok hmac key id n s f p h in (code, at, ap some e)

module _ (b : Board) (build_epoch : ℕ) where
  -- A trusted clock that does not lie before its mark stays trusted when it is read.
  read_clock-ok :
      (c : Clock b)
      → c.state ≡ ok
      → c.last_seen ≤ b.rtc_time c.board
      → ((read_clock b build_epoch c).0 ≡ b.rtc_time c.board)
        × ((read_clock b build_epoch c).1.state ≡ ok)
  unfolding read_clock clock_now remember_time set_high_water
  read_clock-ok c trusted seen =
      let on_time : ltb (b.rtc_time c.board) c.last_seen ≡ false = ground arith in
      elim (Bool-cases (ltb ((c.last_seen + high_water_interval) % 2 ^ 32) (b.rtc_time c.board))) [
        | inl due ↦ rw trusted (rw on_time (rw due (refl, refl)))
        | inr early ↦ rw trusted (rw on_time (rw early (refl, refl)))
      ]

  poll_set_line :
      (s : Bytes) (c : Clock b)
      → IsTime b build_epoch s
      → length s ≤ 29
      → ((clock_poll_serial b build_epoch
          (set_line s ++ b'\n' ∷ [])
          (port b build_epoch [] false c)).1
        ).clock
        ≡ (apply_time b build_epoch (value s) c).1
  poll_set_line s c time short =
      let digits = time.digits in
      elim (clock_poll_serial-line b build_epoch (set_line s) c
        (set_line-Lacks b'\r' s (omega arith) digits)
        (set_line-Lacks b'\n' s (omega arith) digits)) [
          | inr (long, _) ↦ absurd (omega arith)
          | inl (_, polled) ↦ elim (handle_command-T b build_epoch s c) [
            | inr (bad, _) ↦ absurd (bad time)
            | inl (_, handled) ↦
                ap (λ (p : List Reply × Port b build_epoch). p.1.clock) polled
                ∙ ap (λ (t : Bytes). (handle_command b build_epoch t c).1)
                    (c_str-Lacks (set_line s) (set_line-Lacks 0 s (omega arith) digits))
                ∙ ap (λ (r : Reply × Clock b). r.1) handled
          ]
        ]

  -- An accepted time that is not before the mark.
  accepted_clock :
      (laws : BoardLaws b) (epoch : ℕ) (c : Clock b)
      → b.rtc_begin c.board ≡ true
      → Accepts b build_epoch epoch c
      → c.last_seen ≤ epoch
      → let c' = (apply_time b build_epoch epoch c).1 in
        (b.rtc_time c'.board ≡ epoch) × (c'.state ≡ ok) × (c'.last_seen ≤ epoch)
  accepted_clock laws epoch c begins accepts near =
      elim (apply_time-cases b build_epoch laws epoch c begins) [
        | inl (bad, _) ↦ absurd (bad accepts)
        | inr (_, _, written) ↦
            let on_time : ltb epoch c.last_seen ≡ false = ground arith in
            (written.time, rw on_time at written.state, at_most written.mark)
      ]
    where
      at_most :
          (apply_time b build_epoch epoch c).1.last_seen
            ≡ (if ltb c.last_seen epoch then epoch else c.last_seen)
          → (apply_time b build_epoch epoch c).1.last_seen ≤ epoch
      at_most e = ground (arith, e)

  module _ (mbedtls_hmac : Bytes → Bytes → Bytes) (secret_key device_id : Bytes)
      (sha : IsSha256 (λ key msg. some (mbedtls_hmac key msg))) (text : Lacks 0 secret_key) where
    -- A running keychain whose chip answers, and which waits for a line, gets `T `, a number of at
    -- most 29 digits and a newline. If the clock accepts that time and it is not before the
    -- high-water mark, then at the end of the same pass the clock is trusted and the panel shows the
    -- code that the server computes for the 90-second step of that time, with the ID and the seconds
    -- that are left of the step. The HMAC gives 32 bytes, and the key has no NUL.
    pub loop_shows_code :
        (laws : BoardLaws b) (start : b.State) (first k : Keychain b build_epoch) (s : Bytes)
        → setup b build_epoch true start ≡ some first
        → Run b build_epoch mbedtls_hmac secret_key device_id first k
        → k.port.line ≡ []
        → k.port.overflow ≡ false
        → b.rtc_begin k.port.clock.board ≡ true
        → IsTime b build_epoch s
        → length s ≤ 29
        → Accepts b build_epoch (value s) k.port.clock
        → k.port.clock.last_seen ≤ value s
        → (replies : List Reply) × (k' : Keychain b build_epoch) × (code : Bytes) × (loop b
              build_epoch mbedtls_hmac secret_key device_id
              (set_line s ++ b'\n' ∷ [])
              k
            ≡ some (replies, k'))
          × IsCodeAt
              (λ key msg. some (mbedtls_hmac key msg))
              secret_key
              (counter_for_time (value s) 90)
              code
          × (k'.panel ≡ some (code_frame code device_id (90 - value s % 90)))
          × (k'.port.clock.state ≡ ok)
    loop_shows_code laws start first k s powered run at_rest fits begins time short accepts near =
        let input = set_line s ++ b'\n' ∷ [] in
        let (replies, k', ends, passed, displayed) =
          loop_shows b build_epoch mbedtls_hmac secret_key device_id sha text start first k input
            powered run in
        let c = k.port.clock in
        let resting : k.port ≡ port b build_epoch [] false c =
          ap₂ (λ (l : Bytes). λ (o : Bool). port b build_epoch l o c) at_rest fits in
        let polled : ((clock_poll_serial b build_epoch input k.port).1).clock
            ≡ (apply_time b build_epoch (value s) c).1 =
          ap (λ (p : Port b build_epoch). ((clock_poll_serial b build_epoch input p).1).clock)
            resting
          ∙ poll_set_line s c time short in
        let (there, trusted, mark) = accepted_clock laws (value s) c begins accepts near in
        let (same_time, still) =
          read_clock-ok (apply_time b build_epoch (value s) c).1 trusted (rw there mark) in
        let read = ap (read_clock b build_epoch) polled in
        let time_drawn : k'.last_drawn ≡ value s =
          passed.time ∙ ap (λ (r : ℕ × Clock b). r.0) read ∙ same_time ∙ there in
        let ok_now : k'.port.clock.state ≡ ok =
          ap (λ (x : Clock b). x.state) (passed.clock ∙ ap (λ (r : ℕ × Clock b). r.1) read)
          ∙ still in
        let (code, at, on_panel) =
          Displayed-ok (λ key msg. some (mbedtls_hmac key msg)) secret_key device_id k'.panel
            (value s) k'.last_state
            (subst
              (λ n.
                Displayed (λ key msg. some (mbedtls_hmac key msg)) secret_key device_id k'.panel n
                  k'.last_state)
              time_drawn displayed)
            (passed.state ∙ ok_now) in
        (replies, k', code, ends, at, on_panel, ok_now)
