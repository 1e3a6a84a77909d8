-- ===== src/Firmware/Clock/Nudge.antt =====
-- The nudge limit of `apply_time` of clock.cpp over several commands of the USB protocol.
use x_auth.Base.{
  ℕ, ◌-◌, ◌≤◌, ◌<◌, true, false, not, ltb, lt→ltb, if◌then◌else◌, Bytes, codes, ◌++◌, refl, ◌≡◌, ap,
  ◌∙◌, arith, inl, inr,
}
use x_auth.Firmware.Clock.Hardware.{Board, BoardLaws}
use x_auth.Base.Decimal.{value}
use x_auth.Firmware.Clock.{ok, went_backwards, Clock, apply_time, max_epoch}
use x_auth.Firmware.Clock.Serial.{err_rejected, report, handle_command}
use x_auth.Firmware.Clock.Serial.Command.{IsTime, set_and_report, handle_command-T}
use x_auth.Firmware.Clock.Trust.{Accepts, IsWritten, apply_time-cases}

module _ (b : Board) (build_epoch : ℕ) (laws : BoardLaws b) where
  abbrev set_to : ℕ → Clock b → Clock b
  set_to epoch c = (apply_time b build_epoch epoch c).1

  -- A command that passes the tests.
  apply_time-accepted :
      (epoch : ℕ) (c : Clock b)
      → b.rtc_begin c.board ≡ true
      → Accepts b build_epoch epoch c
      → ((apply_time b build_epoch epoch c).0 ≡ not (ltb epoch c.last_seen))
        × IsWritten b build_epoch epoch c (apply_time b build_epoch epoch c).1
  apply_time-accepted epoch c begins a = elim (apply_time-cases b build_epoch laws epoch c begins) [
    | inl (refused, _) ↦ absurd (refused a)
    | inr (_, answer, set) ↦ (answer, set)
  ]

  module _ (c : Clock b) (trusted : c.state ≡ ok) (begins : b.rtc_begin c.board ≡ true)
      (seen : c.last_seen ≤ b.rtc_time c.board) (built : build_epoch < b.rtc_time c.board) where
    abbrev now : ℕ
    now = b.rtc_time c.board

    -- After the time was set to itself, and then a second back.
    abbrev marked : Clock b
    marked = set_to now c

    abbrev behind : Clock b
    behind = set_to (now - 1) marked

    marked-IsWritten : IsWritten b build_epoch now c marked
    marked-IsWritten =
        (apply_time-accepted now c begins (record {
          has_rtc = λ e. cc (trusted, e);
          built = omega arith;
          nudge = λ _. (omega arith, omega arith);
          near_mark = omega arith;
        })).1

    marked_mark : marked.last_seen ≡ now
    marked_mark = marked-IsWritten.mark ∙ ground arith

    marked_state : marked.state ≡ ok
    marked_state = marked-IsWritten.state ∙ ground arith

    second_back : Accepts b build_epoch (now - 1) marked
    second_back = record {
      has_rtc = λ e. cc (marked_state, e);
      built = omega arith;
      nudge = λ _. (omega (arith, marked-IsWritten.time), omega (arith, marked-IsWritten.time));
      near_mark = omega (arith, marked_mark);
    }

    behind-IsWritten : IsWritten b build_epoch (now - 1) marked behind
    behind-IsWritten = (apply_time-accepted (now - 1) marked marked-IsWritten.begins second_back).1

    behind_mark : behind.last_seen ≡ now
    behind_mark = behind-IsWritten.mark ∙ ground (arith, marked_mark)

    behind_state : behind.state ≡ went_backwards
    behind_state =
        behind-IsWritten.state ∙ rw (lt→ltb (now - 1) marked.last_seen (omega (arith, marked_mark)))

    any_future : (future : ℕ) → now ≤ future → Accepts b build_epoch future behind
    any_future future h = record {
      has_rtc = λ e. cc (behind_state, e);
      built = omega arith;
      nudge = λ e. cc (behind_state, e);
      near_mark = omega (arith, behind_mark);
    }

    -- The three times, one after the other.
    three_times_jump :
        (future : ℕ)
        → now ≤ future
        → ((apply_time b build_epoch (now - 1) (set_to now c)).0 ≡ false)
          × ((apply_time b build_epoch future (set_to (now - 1) (set_to now c))).0 ≡ true)
          × ((set_to future (set_to (now - 1) (set_to now c))).state ≡ ok)
          × (b.rtc_time (set_to future (set_to (now - 1) (set_to now c))).board ≡ future)
    three_times_jump future h =
        let second = apply_time-accepted (now - 1) marked marked-IsWritten.begins second_back in
        let third =
          apply_time-accepted future behind behind-IsWritten.begins (any_future future h) in
        let early : ltb (now - 1) marked.last_seen ≡ true =
          lt→ltb (now - 1) marked.last_seen (omega (arith, marked_mark)) in
        let late : ltb future behind.last_seen ≡ false = ground (arith, behind_mark) in
        (
          second.0 ∙ ap not early,
          third.0 ∙ ap not late,
          third.1.state ∙ ap (λ t. if t then went_backwards else ok) late,
          third.1.time,
        )

    -- The command with a number is a call of `apply_time`.
    command_set :
        (t : Bytes) (n : ℕ) (d : Clock b)
        → IsTime b build_epoch t
        → value t ≡ n
        → handle_command b build_epoch (codes "T " ++ t) d ≡ set_and_report b build_epoch n d
    command_set t n d time same = elim (handle_command-T b build_epoch t d) [
      | inl (_, handled) ↦ handled ∙ ap (λ k. set_and_report b build_epoch k d) same
      | inr (bad, _) ↦ absurd (bad time)
    ]

    -- From a trusted clock that shows `now`, three lines over USB set any later time that a line can
    -- hold, which is up to the limit of the command, and leave the clock trusted: `T ` with its own
    -- time, with a second less (which is answered by the rejection, but is written), and with the
    -- later time, which is answered by the report that it was set. The chip answers, and `now` is
    -- after the build and not before the high-water mark.
    pub three_commands_jump :
        (own back later : Bytes)
        → IsTime b build_epoch own
        → value own ≡ now
        → IsTime b build_epoch back
        → value back ≡ now - 1
        → IsTime b build_epoch later
        → now ≤ value later
        → let first = handle_command b build_epoch (codes "T " ++ own) c in
          let second = handle_command b build_epoch (codes "T " ++ back) first.1 in
          let third = handle_command b build_epoch (codes "T " ++ later) second.1 in
          (second.0 ≡ err_rejected)
          × (third.0 ≡ report b build_epoch (codes "SET") third.1)
          × (third.1.state ≡ ok)
          × (b.rtc_time third.1.board ≡ value later)
          × (value later ≤ max_epoch)
    three_commands_jump own back later own_time own_now back_time back_now later_time h =
        let (early, late, trusted_again, jumped) = three_times_jump (value later) h in
        rw (command_set own now c own_time own_now) (
          rw (command_set back (now - 1) marked back_time back_now) (
            rw (command_set later (value later) behind later_time refl)
              (rw early refl, rw late refl, trusted_again, jumped, later_time.in_range)))
