-- ===== src/Firmware/Main/Picture.antt =====
-- What the panel is to show, written out: the code of the server for the time, or a text for the state of
-- the clock.
use x_auth.Base.{
  ℕ, ◌-◌, ◌%◌, ◌≤◌, Bytes, codes, [], ◌∷◌, ◌++◌, Option, none, some, bind-eq-some, some_inj, take,
  drop, length, Lacks, ◌≡◌, ◌≢◌, refl, sym, ap, ◌∙◌, arith, subst,
}
use x_auth.Base.Int.{pos}
use x_auth.Otp.{IsSha256, counter_for_time}
use x_auth.Otp.Digits.{pad_and_convert-eight_digits}
use x_auth.Firmware.Totp.{otp_step_seconds, otp_now, otp_seconds_left, format_code}
use x_auth.Firmware.Totp.Agree.{format_code_agrees}
use x_auth.Firmware.Clock.Hardware.{Board}
use x_auth.Firmware.Clock.{
  ClockState, ok, no_rtc, stopped, never_set, went_backwards, clock_state_text,
}
use x_auth.Firmware.Display.{
  white, clear_display, display, set_text_color, set_text_size, set_cursor, print, Frame, group,
  display_show_code, display_status,
}
use x_auth.Firmware.Display.Layout.{icon, draw_time_left-icon}
use x_auth.Firmware.Main.{frame_for}
use x_auth.Verifier.Check.Sound.{IsCodeAt}
use x_auth.Verifier.Protocol.Login.{shown_code}

-- Two groups of four, the ID, and the time that is left.
abbrev pub code_frame : Bytes → Bytes → ℕ → Frame
code_frame code id left =
    clear_display
    ∷ set_text_color white
    ∷ set_text_size 2
    ∷ set_cursor (pos 10) (pos 0)
    ∷ print (take 4 code ++ b' ' ∷ drop 4 code)
    ∷ set_text_size 1
    ∷ set_cursor (pos 0) (pos 24)
    ∷ print id
    ∷ (icon left ++ display ∷ [])

abbrev pub status_frame : ℕ → Bytes → Bytes → Frame
status_frame column text id =
    clear_display
    ∷ set_text_color white
    ∷ set_text_size 2
    ∷ set_cursor (pos column) (pos 0)
    ∷ print text
    ∷ set_text_size 1
    ∷ set_cursor (pos 0) (pos 24)
    ∷ print id
    ∷ display
    ∷ []

-- The picture of a state, over the ID; the first is never drawn.
abbrev pub state_frame : ClockState → Bytes → Frame
state_frame ok id = []
state_frame no_rtc id = status_frame 16 (codes "NO CLOCK") id
state_frame stopped id = status_frame 16 (codes "SET TIME") id
state_frame never_set id = status_frame 16 (codes "SET TIME") id
state_frame went_backwards id = status_frame 0 (codes "CLOCK ERROR") id

-- A frame that is right for a time and a state: while the clock is trusted, the code that the server
-- computes for the 90-second step of that time, and otherwise no code but the text of the state.
pub data Pictures (hmac : Bytes → Bytes → Option Bytes) (key id : Bytes) (now : ℕ)
    : ClockState → Frame → Type 0 where
  code_picture :
      (code : Bytes)
      → IsCodeAt hmac key (counter_for_time now 90) code
      → Pictures hmac key id now ok (code_frame code id (90 - now % 90))
  state_picture : (s : ClockState) → s ≢ ok → Pictures hmac key id now s (state_frame s id)

-- What is on the panel: such a frame, or nothing while nothing was drawn.
pub data Displayed (hmac : Bytes → Bytes → Option Bytes) (key id : Bytes)
    : Option Frame → ℕ → ClockState → Type 0 where
  blank : Displayed hmac key id none 0 no_rtc
  picture :
      (now : ℕ) (s : ClockState) (f : Frame)
      → Pictures hmac key id now s f
      → Displayed hmac key id (some f) now s

group_halves :
    (code grouped : Bytes)
    → length code ≡ 8
    → group code ≡ some grouped
    → grouped ≡ take 4 code ++ b' ' ∷ drop 4 code
unfolding group
group_halves (a ∷ b ∷ c ∷ d ∷ e ∷ f ∷ g ∷ h ∷ []) grouped size made = sym (some_inj made)
group_halves _ grouped size made = absurd (omega arith)

display_show_code-code_frame :
    (code id : Bytes) (left : ℕ) (frame : Frame)
    → length code ≡ 8
    → 1 ≤ left
    → left ≤ otp_step_seconds
    → display_show_code code id left otp_step_seconds ≡ some frame
    → frame ≡ code_frame code id left
unfolding display_show_code
display_show_code-code_frame code id left frame eight lo hi shown =
    let (grouped, made, e) = bind-eq-some (group code) _ shown in
    rw (← some_inj e)
      (rw (group_halves code grouped eight made) (rw (draw_time_left-icon left lo hi)))

otp_seconds_left_lem :
    (now : ℕ)
    → (otp_seconds_left now ≡ 90 - now % 90)
      × (1 ≤ otp_seconds_left now)
      × (otp_seconds_left now ≤ otp_step_seconds)
unfolding otp_seconds_left
otp_seconds_left_lem now = ground arith

module _ (b : Board) (build_epoch : ℕ) (mbedtls_hmac : Bytes → Bytes → Bytes)
    (secret_key device_id : Bytes) (sha : IsSha256 (λ key msg. some (mbedtls_hmac key msg)))
    (text : Lacks 0 secret_key) where
  abbrev H : Bytes → Bytes → Option Bytes
  H key msg = some (mbedtls_hmac key msg)

  -- The frame of a pass is right.
  pub frame_for-Pictures :
      (now : ℕ) (s : ClockState) (f : Frame)
      → frame_for b build_epoch mbedtls_hmac secret_key device_id now s ≡ some f
      → Pictures (λ key msg. some (mbedtls_hmac key msg)) secret_key device_id now s f
  unfolding frame_for display_status clock_state_text
  frame_for-Pictures now ok f made =
      let (n, computed, shown) =
        bind-eq-some (otp_now mbedtls_hmac secret_key now)
          (λ code.
            display_show_code (format_code code) device_id (otp_seconds_left now) otp_step_seconds)
          made in
      let (small, at) =
        shown_code H mbedtls_hmac (λ key msg. refl) sha secret_key now n text computed in
      let eight : length (format_code n) ≡ 8 =
        ap length (format_code_agrees n small) ∙ (pad_and_convert-eight_digits n small).0 in
      let (left, lo, hi) = otp_seconds_left_lem now in
      let e : f ≡ code_frame (format_code n) device_id (90 - now % 90) =
        display_show_code-code_frame (format_code n) device_id (otp_seconds_left now) f eight lo hi
          shown
        ∙ ap (code_frame (format_code n) device_id) left in
      subst (λ (g : Frame). Pictures H secret_key device_id now ok g) (sym e)
        (code_picture (format_code n) at)
  frame_for-Pictures now no_rtc f made = rw (← some_inj made) (state_picture no_rtc (λ e. cc e))
  frame_for-Pictures now stopped f made = rw (← some_inj made) (state_picture stopped (λ e. cc e))
  frame_for-Pictures now never_set f made =
      rw (← some_inj made) (state_picture never_set (λ e. cc e))
  frame_for-Pictures now went_backwards f made =
      rw (← some_inj made) (state_picture went_backwards (λ e. cc e))
