-- ===== src/Firmware/Clock/Trust.antt =====
-- `evaluate` and `apply_time` of clock.cpp.
use x_auth.Base.{
  ℕ, ◌+◌, ◌≤◌, Bool, true, false, not, ltb, if◌then◌else◌, ◌≡◌, ◌≢◌, ◌⊎◌, ◌↔◌, inl, inr, refl, ◌∙◌,
  arith, Bool-cases,
}
use x_auth.Firmware.Clock.Hardware.{Board, BoardLaws}
use x_auth.Firmware.Clock.{
  ClockState, ok, no_rtc, went_backwards, is_ok, is_jump, is_behind, Clock, evaluate, rejects_time,
  write_time, apply_time, max_nudge_seconds,
}

is_jump-false :
    (epoch now : ℕ)
    → (is_jump epoch now ≡ false)
      ↔ ((epoch ≤ now + max_nudge_seconds) × (now ≤ epoch + max_nudge_seconds))
unfolding is_jump
is_jump-false epoch now = ground arith

is_behind-false :
    (epoch last_seen : ℕ)
    → (is_behind epoch last_seen ≡ false) ↔ (last_seen ≤ epoch + max_nudge_seconds)
unfolding is_behind
is_behind-false epoch last_seen = ground arith

module _ (b : Board) (build_epoch : ℕ) where
  open b use {rtc_begin, rtc_lost_power, rtc_time, get_provisioned, get_last_seen}

  -- The three checks: the oscillator has run, the device has been set up, and the time is neither
  -- before the build nor before the high-water mark.
  pub record IsTrusted (s : b.State) (last_seen : ℕ) : Type 0 where
    pub answers : rtc_begin s ≡ true
    pub powered : rtc_lost_power s ≡ false
    pub set_up : get_provisioned s ≡ true
    pub built : build_epoch ≤ rtc_time s
    pub seen : last_seen ≤ rtc_time s

  -- The verdict is `Ok` exactly where all of them hold.
  evaluate-IsTrusted :
      (c : Clock b)
      → (evaluate b build_epoch c ≡ ok → IsTrusted c.board c.last_seen)
        × (IsTrusted c.board c.last_seen → evaluate b build_epoch c ≡ ok)
  unfolding evaluate
  evaluate-IsTrusted c = ((λ h. ground arith), (λ h. ground arith))

  -- What `apply_time` asks of a time before it writes it.
  pub record Accepts (epoch : ℕ) (c : Clock b) : Type 0 where
    pub has_rtc : c.state ≢ no_rtc
    pub built : build_epoch ≤ epoch
    pub nudge :
        c.state ≡ ok
        → (epoch ≤ rtc_time c.board + max_nudge_seconds)
          × (rtc_time c.board ≤ epoch + max_nudge_seconds)
    pub near_mark : c.last_seen ≤ epoch + max_nudge_seconds

  accepted_state :
      (epoch : ℕ) (c : Clock b) (s : ClockState)
      → c.state ≡ s
      → rejects_time b build_epoch epoch c ≡ false
      → Accepts epoch c
  unfolding rejects_time
  accepted_state epoch c no_rtc e h = absurd (ground (arith, rw e at h))
  accepted_state epoch c ok e h = record {
    has_rtc = λ n. cc;
    built = ground arith;
    nudge = λ _. (is_jump-false epoch (rtc_time c.board)).0 (ground arith);
    near_mark = (is_behind-false epoch c.last_seen).0 (ground arith);
  }
  accepted_state epoch c _ e h = record {
    has_rtc = λ n. cc;
    built = ground arith;
    nudge = λ n. cc;
    near_mark = (is_behind-false epoch c.last_seen).0 (ground arith);
  }

  pub rejects_time-accepted :
      (epoch : ℕ) (c : Clock b) → rejects_time b build_epoch epoch c ≡ false → Accepts epoch c
  rejects_time-accepted epoch c h = accepted_state epoch c c.state refl h

  pub Accepts-not_rejected :
      (epoch : ℕ) (c : Clock b) → Accepts epoch c → rejects_time b build_epoch epoch c ≡ false
  unfolding rejects_time
  Accepts-not_rejected epoch c a =
      ground (
        arith,
        a.has_rtc,
        is_jump-false epoch (rtc_time c.board),
        is_behind-false epoch c.last_seen,
      )

  module _ (laws : BoardLaws b) (epoch : ℕ) (c : Clock b) where
    write_time-mark :
        (write_time b build_epoch epoch c).last_seen
        ≡ (if ltb c.last_seen epoch then epoch else c.last_seen)
    unfolding write_time
    write_time-mark = ground arith

    write_time-time : rtc_time (write_time b build_epoch epoch c).board ≡ epoch
    unfolding write_time
    write_time-time = elim (Bool-cases (ltb c.last_seen epoch)) [
      | inl h ↦ rw h (simp (laws.mark-time, laws.provision-time, laws.adjust-time))
      | inr h ↦ rw h (simp (laws.mark-time, laws.provision-time, laws.adjust-time))
    ]

    write_time-state :
        rtc_begin c.board ≡ true
        → build_epoch ≤ epoch
        → (write_time b build_epoch epoch c).state
          ≡ (if ltb epoch c.last_seen then went_backwards else ok)
    unfolding write_time evaluate
    write_time-state begins built = elim (Bool-cases (ltb c.last_seen epoch)) [
      | inl h ↦ rw h (
          simp
            (
              laws.mark-time, laws.mark-begin, laws.mark-power, laws.mark-provisioned,
              laws.provision-time, laws.provision-begin, laws.provision-power,
              laws.provision-provisioned, laws.adjust-begin, laws.adjust-power, laws.adjust-time,
              begins,
            )
            (ground arith))
      | inr h ↦ rw h (
          simp
            (
              laws.provision-time, laws.provision-begin, laws.provision-power,
              laws.provision-provisioned, laws.adjust-begin, laws.adjust-power, laws.adjust-time,
              begins,
            )
            (ground arith))
    ]

  -- What a time that is written leaves behind.
  pub record IsWritten (epoch : ℕ) (c c' : Clock b) : Type 0 where
    pub time : rtc_time c'.board ≡ epoch
    pub begins : rtc_begin c'.board ≡ true
    pub mark : c'.last_seen ≡ (if ltb c.last_seen epoch then epoch else c.last_seen)
    pub state : c'.state ≡ (if ltb epoch c.last_seen then went_backwards else ok)

  is_ok-if : (t : Bool) → is_ok (if t then went_backwards else ok) ≡ not t
  is_ok-if true = refl
  is_ok-if false = refl

  write_time-begin :
      BoardLaws b
      → (epoch : ℕ) (c : Clock b)
      → rtc_begin (write_time b build_epoch epoch c).board ≡ rtc_begin c.board
  unfolding write_time
  write_time-begin laws epoch c = elim (Bool-cases (ltb c.last_seen epoch)) [
    | inl h ↦ rw h (simp (laws.mark-begin, laws.provision-begin, laws.adjust-begin))
    | inr h ↦ rw h (simp (laws.provision-begin, laws.adjust-begin))
  ]

  write_time-IsWritten :
      BoardLaws b
      → (epoch : ℕ) (c : Clock b) → rtc_begin c.board ≡ true
      → build_epoch ≤ epoch
      → IsWritten epoch c (write_time b build_epoch epoch c)
  write_time-IsWritten laws epoch c begins built = record {
    time = write_time-time laws epoch c;
    begins = write_time-begin laws epoch c ∙ begins;
    mark = write_time-mark laws epoch c;
    state = write_time-state laws epoch c begins built;
  }

  -- While the chip answers: either the time fails a test, and then nothing changes and the answer
  -- is no; or it passes them all, and then the chip holds it, the high-water mark is the later of
  -- the two, and the answer is yes exactly where it is not before the old mark.
  pub apply_time-cases :
      BoardLaws b
      → (epoch : ℕ) (c : Clock b) → rtc_begin c.board ≡ true
      → ((¬ Accepts epoch c) × (apply_time b build_epoch epoch c ≡ (false, c)))
        ⊎ (Accepts epoch c
            × ((apply_time b build_epoch epoch c).0 ≡ not (ltb epoch c.last_seen))
            × IsWritten epoch c (apply_time b build_epoch epoch c).1)
  unfolding apply_time
  apply_time-cases laws epoch c begins = elim (Bool-cases (rejects_time b build_epoch epoch c)) [
    | inl bad ↦ inl ((λ a. cc (bad, Accepts-not_rejected epoch c a)), rw bad)
    | inr good ↦
        let a = rejects_time-accepted epoch c good in
        let s = write_time-IsWritten laws epoch c begins a.built in
        inr (a, rw good (rw s.state (is_ok-if (ltb epoch c.last_seen))), rw good s)
  ]
