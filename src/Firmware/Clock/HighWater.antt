-- ===== src/Firmware/Clock/HighWater.antt =====
-- The high-water mark of clock.cpp over any run of the device.
use x_auth.Base.{ℕ, ◌+◌, ◌≤◌, ltb, ◌≡◌, refl, ◌∙◌, arith, Bool-cases, inl, inr}
use x_auth.Firmware.Clock.Hardware.{Board, BoardLaws}
use x_auth.Firmware.Clock.{
  Clock, clock_begin, set_high_water, remember_time, clock_now, rejects_time, write_time,
  apply_time, max_nudge_seconds,
}
use x_auth.Firmware.Clock.Trust.{Accepts}

module _ (b : Board) (build_epoch : ℕ) where
  -- What can happen to the device: a reading, a command that sets the time, a restart, and whatever
  -- changes the chip but not the flash (time passes, the battery is pulled, the chip is taken out).
  pub data Event (c : Clock b) : Clock b → Type 0 where
    reading : Event c (clock_now b c).1
    setting : (epoch : ℕ) → Event c (apply_time b build_epoch epoch c).1
    restart : Event c (clock_begin b build_epoch c.board)
    disturbance :
        (s : b.State)
        → b.get_last_seen s ≡ b.get_last_seen c.board
        → Event c (record c { board = s })

  pub data Run (c : Clock b) : Clock b → Type 0 where
    start : Run c c
    next : {d e : Clock b} → Run c d → Event d e → Run c e

  -- RAM and flash hold the same mark.
  abbrev pub IsMirrored : Clock b → Type 0
  IsMirrored c = b.get_last_seen c.board ≡ c.last_seen

  module _ (laws : BoardLaws b) where
    abbrev Grows : Clock b → Clock b → Type 0
    Grows c d = IsMirrored d × (c.last_seen ≤ d.last_seen)

    set_high_water-Grows : (t : ℕ) (c : Clock b) → c.last_seen ≤ t → Grows c (set_high_water b t c)
    unfolding set_high_water
    set_high_water-Grows t c h = (laws.mark-last_seen t c.board, h)

    remember_time-Grows :
        (now : ℕ) (c : Clock b) → IsMirrored c → c.last_seen ≤ now → Grows c (remember_time b now c)
    unfolding remember_time
    remember_time-Grows now c m h = ground (arith, m, set_high_water-Grows now c h)

    clock_now-Grows : (c : Clock b) → IsMirrored c → Grows c (clock_now b c).1
    unfolding clock_now
    clock_now-Grows c m = ground (
      arith,
      m,
      λ (h : c.last_seen ≤ b.rtc_time c.board). remember_time-Grows (b.rtc_time c.board) c m h,
    )

    write_time-Grows :
        (epoch : ℕ) (c : Clock b) → IsMirrored c → Grows c (write_time b build_epoch epoch c)
    unfolding write_time
    write_time-Grows epoch c m = elim (Bool-cases (ltb c.last_seen epoch)) [
      | inl later ↦ rw later (laws.mark-last_seen epoch _, ground arith)
      | inr earlier ↦
          rw earlier
            (laws.provision-last_seen _ ∙ laws.adjust-last_seen epoch c.board ∙ m, omega arith)
    ]

    apply_time-Grows :
        (epoch : ℕ) (c : Clock b) → IsMirrored c → Grows c (apply_time b build_epoch epoch c).1
    unfolding apply_time
    apply_time-Grows epoch c m = elim (Bool-cases (rejects_time b build_epoch epoch c)) [
      | inl bad ↦ rw bad (m, omega arith)
      | inr good ↦ rw good (write_time-Grows epoch c m)
    ]

    Event-Grows : {c d : Clock b} → IsMirrored c → Event c d → Grows c d
    Event-Grows {c} m reading = clock_now-Grows c m
    Event-Grows {c} m (setting epoch) = apply_time-Grows epoch c m
    Event-Grows {c} m restart = unfold clock_begin in (refl, omega arith)
    Event-Grows {c} m (disturbance s h) = (h ∙ m, omega arith)

    -- Over any run that starts with the same mark in RAM and flash, with restarts and any meddling
    -- with the chip, RAM and flash stay in step and the mark never falls; so no later command is
    -- accepted for a time more than five minutes before it.
    pub Run-high_water :
        {c d : Clock b}
        → IsMirrored c
        → Run c d
        → IsMirrored d
          × (c.last_seen ≤ d.last_seen)
          × ((epoch : ℕ) → Accepts b build_epoch epoch d → c.last_seen ≤ epoch + max_nudge_seconds)
    Run-high_water m start = (m, omega arith, λ epoch a. a.near_mark)
    Run-high_water m (next r e) =
        let before = Run-high_water m r in
        let step = Event-Grows before.0 e in
        (step.0, omega arith, λ epoch a. omega (arith, a.near_mark))
