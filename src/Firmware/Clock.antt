-- ===== src/Firmware/Clock.antt =====
-- firmware/xAuth_ID/src/clock.cpp: the clock and its trust. `Hardware` has the interface of the DS3231
-- library and of the flash storage.
pub mod Hardware
pub mod Serial
pub mod Trust
pub mod HighWater
pub mod Nudge
use x_auth.Base.{
  ℕ, ◌+◌, ◌-◌, ◌*◌, ◌%◌, ◌^◌, ◌<◌, Bool, true, false, not, ◌&&◌, ◌||◌, ltb, if◌then◌else◌, Bytes,
  codes,
}
use x_auth.Base.Int.{ℤ, pos, negsuc, sub_ℕ, lt_ℤ}
use x_auth.Firmware.Clock.Hardware.{Board}

pub data ClockState : Type 0 where
  ok no_rtc stopped never_set went_backwards : ClockState

abbrev pub max_nudge_seconds : ℕ
max_nudge_seconds = 300

abbrev pub high_water_interval : ℕ
high_water_interval = 6 * 3600

abbrev pub max_epoch : ℕ
max_epoch = 4102444800

abbrev pub is_ok : ClockState → Bool
is_ok ok = true
is_ok _ = false

abbrev pub is_no_rtc : ClockState → Bool
is_no_rtc no_rtc = true
is_no_rtc _ = false

unfoldable pub clock_state_text : ClockState → Bytes
clock_state_text ok = codes "OK"
clock_state_text no_rtc = codes "NO CLOCK"
clock_state_text stopped = codes "SET TIME"
clock_state_text never_set = codes "SET TIME"
clock_state_text went_backwards = codes "CLOCK ERROR"

unfoldable pub state_name : ClockState → Bytes
state_name ok = codes "ok"
state_name no_rtc = codes "no_rtc"
state_name stopped = codes "stopped"
state_name never_set = codes "never_set"
state_name went_backwards = codes "went_backwards"

-- `delta < -MAX_NUDGE_SECONDS || delta > MAX_NUDGE_SECONDS`, in int64_t.
unfoldable pub is_jump : ℕ → ℕ → Bool
is_jump epoch now =
    let delta = sub_ℕ epoch now in
    lt_ℤ delta (sub_ℕ 0 max_nudge_seconds) || lt_ℤ (pos max_nudge_seconds) delta

-- `epoch < last_seen - MAX_NUDGE_SECONDS`, in int64_t.
unfoldable pub is_behind : ℕ → ℕ → Bool
is_behind epoch last_seen = lt_ℤ (pos epoch) (sub_ℕ last_seen max_nudge_seconds)

-- The board, and the variables `state` and `last_seen` in RAM.
pub record Clock (b : Board) : Type 0 where
  pub board : b.State
  pub state : ClockState
  pub last_seen : ℕ

module _ (b : Board) where
  open b use {rtc_time, put_last_seen}

  unfoldable pub set_high_water : ℕ → Clock b → Clock b
  set_high_water t c = record c { last_seen = t; board = put_last_seen t c.board }

  unfoldable pub remember_time : ℕ → Clock b → Clock b
  unfolding set_high_water
  remember_time now c =
      if ltb ((c.last_seen + high_water_interval) % 2 ^ 32) now then set_high_water now c else c

  unfoldable pub clock_now : Clock b → ℕ × Clock b
  unfolding remember_time
  clock_now c =
      let now = rtc_time c.board in
      (
        now,
        if is_ok c.state
            then (if ltb now c.last_seen
                then record c { state = went_backwards }
                else remember_time now c)
            else c,
      )

-- `build_epoch` is the time of the build, which the compiler is given.
module _ (b : Board) (build_epoch : ℕ) where
  open b use {
    rtc_begin, rtc_lost_power, rtc_time, rtc_adjust, get_provisioned, put_provisioned,
    get_last_seen,
  }

  unfoldable pub evaluate : Clock b → ClockState
  evaluate c =
      if not (rtc_begin c.board)
      then no_rtc
      else if rtc_lost_power c.board
      then stopped
      else if not (get_provisioned c.board)
      then never_set
      else if ltb (rtc_time c.board) build_epoch
      then stopped
      else if ltb (rtc_time c.board) c.last_seen
      then went_backwards
      else ok

  -- What stood in RAM before does not count.
  unfoldable pub clock_begin : b.State → Clock b
  unfolding evaluate
  clock_begin s =
      let c : Clock b = record { board = s; state = no_rtc; last_seen = get_last_seen s } in
      record c { state = evaluate c }

  -- The tests of `apply_time` that return false before anything is written.
  unfoldable pub rejects_time : ℕ → Clock b → Bool
  rejects_time epoch c =
      if is_no_rtc c.state
      then true
      else if ltb epoch build_epoch
      then true
      else if is_ok c.state && is_jump epoch (rtc_time c.board)
      then true
      else is_behind epoch c.last_seen

  unfoldable pub write_time : ℕ → Clock b → Clock b
  unfolding set_high_water evaluate
  write_time epoch c =
      let c1 : Clock b = record c { board = put_provisioned (rtc_adjust epoch c.board) } in
      let c2 = if ltb c1.last_seen epoch then set_high_water b epoch c1 else c1 in
      record c2 { state = evaluate c2 }

  -- The time is an uint32_t in the source; the one call passes at most `max_epoch`.
  unfoldable pub apply_time : ℕ → Clock b → Bool × Clock b
  unfolding rejects_time write_time
  apply_time epoch c =
      if rejects_time epoch c
      then (false, c)
      else let c' = write_time epoch c in (is_ok c'.state, c')
