-- ===== src/Firmware/Main/Screen.antt =====
-- What the screen shows after each pass of `loop` of firmware/xAuth_ID/src/main.cpp.
use x_auth.Base.{
  ℕ, ◌+◌, ◌%◌, ◌^◌, true, not, ltb, ◌&&◌, if◌then◌else◌, ◌||◌, Bytes, List, [], ◌∷◌, Option, none,
  some, bind-eq-some, some_inj, ◌==◌, ◌≡◌, inl, inr, refl, sym, ap, ◌∙◌, arith, Bool-cases, length,
  Lacks,
}
use x_auth.Otp.{IsSha256}
use x_auth.Otp.Digits.{pad_and_convert-eight_digits}
use x_auth.Firmware.Totp.{format_code}
use x_auth.Firmware.Totp.Agree.{format_code_agrees}
use x_auth.Firmware.Clock.Hardware.{Board}
use x_auth.Firmware.Clock.{
  ClockState, ok, no_rtc, stopped, never_set, went_backwards, is_ok, is_no_rtc, Clock, clock_now,
  remember_time, set_high_water, high_water_interval,
}
use x_auth.Firmware.Main.Picture.{Displayed, blank, picture, frame_for-Pictures}
use x_auth.Firmware.Clock.Serial.{Reply, Port, clock_poll_serial}
use x_auth.Firmware.Display.{Frame, group, display_show_code}
use x_auth.Firmware.Main.{state_number, Keychain, setup, read_clock, frame_for, draw, loop}
use x_auth.Verifier.Protocol.Login.{otp_now-total, shown_code}

state_number-inj : (s t : ClockState) → state_number s ≡ state_number t → s ≡ t
state_number-inj s t h = ground arith

-- Eight characters can be grouped.
group-eight : (code : Bytes) → length code ≡ 8 → (grouped : Bytes) × (group code ≡ some grouped)
unfolding group
group-eight (a ∷ b ∷ c ∷ d ∷ e ∷ f ∷ g ∷ h ∷ []) size = (_, refl)
group-eight _ size = absurd (omega arith)

-- What the panel shows is the screen of a time and a state, or nothing yet.
pub data Shows (screen : ℕ → ClockState → Option Frame)
    : Option Frame → ℕ → ClockState → Type 0 where
  undrawn : (now : ℕ) (s : ClockState) → now ≡ 0 → s ≡ no_rtc → Shows screen none now s
  drawn :
      (now : ℕ) (s : ClockState) (f : Frame) → screen now s ≡ some f → Shows screen (some f) now s

module _ (b : Board) (build_epoch : ℕ) (mbedtls_hmac : Bytes → Bytes → Bytes)
    (secret_key device_id : Bytes) where
  abbrev pub screen : ℕ → ClockState → Option Frame
  screen = frame_for b build_epoch mbedtls_hmac secret_key device_id

  abbrev pub IsShown : Keychain b build_epoch → Type 0
  IsShown k = Shows screen k.panel k.last_drawn k.last_state

  -- Passes with any bytes at the port, and between them anything may happen to the board.
  pub data Run (first : Keychain b build_epoch) : Keychain b build_epoch → Type 0 where
    here : Run first first
    pass :
        {k k' : Keychain b build_epoch} (input : Bytes) (replies : List Reply)
        → Run first k
        → loop b build_epoch mbedtls_hmac secret_key device_id input k ≡ some (replies, k')
        → Run first k'
    meddle :
        {k : Keychain b build_epoch} (s : b.State)
        → Run first k
        → Run first
            (record k { port = record k.port { clock = record k.port.clock { board = s } } })

  setup-IsShown :
      (s : b.State) (k : Keychain b build_epoch) → setup b build_epoch true s ≡ some k → IsShown k
  unfolding setup
  setup-IsShown s k h = rw (← some_inj h) (undrawn 0 no_rtc refl refl)

  -- A drawing of the present time and state.
  pub record Draws (now : ℕ) (s : ClockState) (k k' : Keychain b build_epoch) : Type 0 where
    pub shown : IsShown k'
    pub time : k'.last_drawn ≡ now
    pub state : k'.last_state ≡ s
    pub port : k'.port ≡ k.port

  draw-Draws :
      (now : ℕ) (s : ClockState) (k k' : Keychain b build_epoch)
      → IsShown k
      → draw b build_epoch mbedtls_hmac secret_key device_id now s k ≡ some k'
      → Draws now s k k'
  unfolding draw
  draw-Draws now s k k' shown h =
      elim (Bool-cases
        (not (now == k.last_drawn) || not (state_number s == state_number k.last_state))) [
          | inl changed ↦
              let (f, made, e) = bind-eq-some (screen now s) _ (rw changed at h) in
              rw (← some_inj e)
                (record { shown = drawn now s f made; time = refl; state = refl; port = refl })
          | inr same ↦ rw (← some_inj (rw same at h)) (record {
            shown = shown;
            time = ground (arith, same);
            state = state_number-inj k.last_state s (ground (arith, same));
            port = refl;
          })
        ]

  -- After a pass: what was printed, and a drawing of the time and the state that were read.
  pub record Passed (input : Bytes) (k k' : Keychain b build_epoch) (replies : List Reply)
      : Type 0 where
    pub printed : replies ≡ (clock_poll_serial b build_epoch input k.port).0
    pub shown : IsShown k'
    pub time :
        k'.last_drawn
        ≡ (read_clock b build_epoch (clock_poll_serial b build_epoch input k.port).1.clock).0
    pub clock :
        k'.port.clock
        ≡ (read_clock b build_epoch (clock_poll_serial b build_epoch input k.port).1.clock).1
    pub state : k'.last_state ≡ k'.port.clock.state
    -- The time of the chip, and 0 without a chip.
    pub chip_time :
        let c = (clock_poll_serial b build_epoch input k.port).1.clock in
        k'.last_drawn ≡ (if is_no_rtc c.state then 0 else b.rtc_time c.board)
    -- A trusted clock that lies before its mark is not trusted any more.
    pub read_state :
        let c = (clock_poll_serial b build_epoch input k.port).1.clock in
        k'.port.clock.state ≡ (
          if is_ok c.state && ltb (b.rtc_time c.board) c.last_seen then went_backwards else c.state)

  read_clock-reads :
      (c : Clock b)
      → ((read_clock b build_epoch c).0 ≡ (if is_no_rtc c.state then 0 else b.rtc_time c.board))
        × ((read_clock b build_epoch c).1.state ≡ (
            if is_ok c.state && ltb (b.rtc_time c.board) c.last_seen
            then went_backwards
            else c.state))
  unfolding read_clock clock_now remember_time set_high_water
  read_clock-reads c = reads c.state refl
    where
      reads :
          (s : ClockState)
          → c.state ≡ s
          → ((read_clock b build_epoch c).0 ≡ (if is_no_rtc c.state then 0 else b.rtc_time c.board))
            × ((read_clock b build_epoch c).1.state ≡ (
                if is_ok c.state && ltb (b.rtc_time c.board) c.last_seen
                then went_backwards
                else c.state))
      reads no_rtc e = rw e (refl, refl)
      reads stopped e = rw e (refl, refl)
      reads never_set e = rw e (refl, refl)
      reads went_backwards e = rw e (refl, refl)
      reads ok e = elim (Bool-cases (ltb (b.rtc_time c.board) c.last_seen)) [
        | inl back ↦ rw e (rw back (refl, refl))
        | inr on ↦
            elim (Bool-cases
              (ltb ((c.last_seen + high_water_interval) % 2 ^ 32) (b.rtc_time c.board))) [
                | inl due ↦ rw e (rw on (rw due (refl, refl)))
                | inr early ↦ rw e (rw on (rw early (refl, refl)))
              ]
      ]

  loop-Passed :
      (input : Bytes) (k k' : Keychain b build_epoch) (replies : List Reply)
      → IsShown k
      → loop b build_epoch mbedtls_hmac secret_key device_id input k ≡ some (replies, k')
      → Passed input k k' replies
  unfolding loop
  loop-Passed input k k' replies shown h =
      let p = (clock_poll_serial b build_epoch input k.port).1 in
      let (now, c) = read_clock b build_epoch p.clock in
      let k1 = record k { port = record p { clock = c } } in
      let (k2, made, e) =
        bind-eq-some (draw b build_epoch mbedtls_hmac secret_key device_id now c.state k1) _ h in
      let d = draw-Draws now c.state k1 k2 shown made in
      let (time_read, state_read) = read_clock-reads p.clock in
      let same : k2 ≡ k' = ap (λ (r : List Reply × Keychain b build_epoch). r.1) (some_inj e) in
      rw (← same) (record {
        printed = sym (ap (λ (r : List Reply × Keychain b build_epoch). r.0) (some_inj e));
        shown = d.shown;
        time = d.time;
        clock = ap (λ (q : Port b build_epoch). q.clock) d.port;
        state = d.state ∙ sym (ap (λ (q : Port b build_epoch). q.clock.state) d.port);
        chip_time = d.time ∙ time_read;
        read_state = ap (λ (q : Port b build_epoch). q.clock.state) d.port ∙ state_read;
      })

  Run-IsShown : {first k : Keychain b build_epoch} → IsShown first → Run first k → IsShown k
  Run-IsShown shown here = shown
  Run-IsShown shown (pass input replies r h) =
      (loop-Passed input _ _ replies (Run-IsShown shown r) h).shown
  Run-IsShown shown (meddle s r) = Run-IsShown shown r

  module _ (sha : IsSha256 (λ key msg. some (mbedtls_hmac key msg)))
      (text : Lacks 0 secret_key) where
    -- Every time and state has a screen.
    frame_for-total : (now : ℕ) (s : ClockState) → (f : Frame) × (screen now s ≡ some f)
    unfolding frame_for display_show_code
    frame_for-total now s = elim (Bool-cases (is_ok s)) [
      | inr off ↦ rw off (_, refl)
      | inl on ↦
          let H = λ (key msg : Bytes). some (mbedtls_hmac key msg) in
          let (n, made) = otp_now-total H mbedtls_hmac (λ key msg. refl) sha secret_key now text in
          let (small, _) =
            shown_code H mbedtls_hmac (λ key msg. refl) sha secret_key now n text made in
          let (grouped, eight) =
            group-eight (format_code n)
              (ap length (format_code_agrees n small) ∙ (pad_and_convert-eight_digits n small).0) in
          rw on (rw made (rw eight (_, refl)))
    ]

    draw-total :
        (now : ℕ) (s : ClockState) (k : Keychain b build_epoch)
        → (k' : Keychain b build_epoch) × (draw b build_epoch mbedtls_hmac secret_key device_id now
              s k
            ≡ some k')
    unfolding draw
    draw-total now s k =
        elim (Bool-cases
          (not (now == k.last_drawn) || not (state_number s == state_number k.last_state))) [
            | inl changed ↦ let (f, made) = frame_for-total now s in rw changed (rw made (_, refl))
            | inr same ↦ rw same (k, refl)
          ]

    Shows-Displayed :
        (p : Option Frame) (now : ℕ) (s : ClockState)
        → Shows screen p now s
        → Displayed (λ key msg. some (mbedtls_hmac key msg)) secret_key device_id p now s
    Shows-Displayed _ now s (undrawn _ _ zero_time none_yet) = rw zero_time (rw none_yet blank)
    Shows-Displayed _ now s (drawn _ _ f made) =
        picture now s f
          (frame_for-Pictures b build_epoch mbedtls_hmac secret_key device_id sha text now s f made)

    -- From power-on, whatever comes to the port and happens to the board, every pass of `loop` ends. It
    -- prints the replies to the bytes that came, and reads the time of the chip (0 without a chip). A
    -- trusted clock that lies before its mark is not trusted from then on. Then the panel shows, while
    -- the clock is trusted, the code that the server computes for the step of that time, with the ID
    -- and the time that is left, and otherwise no code but the text of the state and the ID; or it
    -- shows nothing yet, the clock has no chip, and nothing was drawn before. The HMAC gives 32
    -- bytes, and the key has no NUL.
    pub loop_shows :
        (s : b.State) (first k : Keychain b build_epoch) (input : Bytes)
        → setup b build_epoch true s ≡ some first
        → Run first k
        → (replies : List Reply) × (k' : Keychain b build_epoch) × (loop b build_epoch mbedtls_hmac
              secret_key device_id input k
            ≡ some (replies, k'))
          × Passed input k k' replies
          × Displayed
              (λ key msg. some (mbedtls_hmac key msg))
              secret_key
              device_id
              k'.panel
              k'.last_drawn
              k'.last_state
    unfolding loop
    loop_shows s first k input powered r =
        let p = (clock_poll_serial b build_epoch input k.port).1 in
        let (now, c) = read_clock b build_epoch p.clock in
        let (k', made) = draw-total now c.state (record k { port = record p { clock = c } }) in
        let ends : loop b build_epoch mbedtls_hmac secret_key device_id input k
            ≡ some ((clock_poll_serial b build_epoch input k.port).0, k') =
          rw made in
        let passed =
          loop-Passed input k k' _ (Run-IsShown (setup-IsShown s first powered) r) ends in
        (_, k', ends, passed, Shows-Displayed k'.panel k'.last_drawn k'.last_state passed.shown)
