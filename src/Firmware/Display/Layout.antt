-- ===== src/Firmware/Display/Layout.antt =====
-- Where the screens of display.cpp put their parts.
use x_auth.Base.{
  ℕ, zero, suc, ◌+◌, ◌-◌, ◌*◌, ◌≤◌, ◌<◌, [], ◌∷◌, List, codes, leb, if◌then◌else◌, ◌++◌, ◌==◌, All,
  All-append, ◌≡◌, inl, inr, arith, Bool-cases,
}
use x_auth.Base.Int.{pos}
use x_auth.Firmware.Display.{
  screen_width, screen_height, Op, fill_rect, set_text_size, set_cursor, print, time_lines,
  stack_lines, wait_mark, draw_time_left,
}
use x_auth.Firmware.Totp.{otp_step_seconds}

-- A rectangle that lies inside the panel, in the 18 columns at its right edge.
abbrev pub IsInCorner : Op → Type 0
IsInCorner (fill_rect (pos x) (pos y) w h) =
    (x ≡ 110) × (x + w ≤ screen_width) × (18 ≤ y) × (y + h ≤ screen_height)
IsInCorner (fill_rect _ _ w h) = ⊥
IsInCorner _ = Unit

stack_lines-IsInCorner : (count i : ℕ) → count + i ≤ 4 → All IsInCorner (stack_lines count i)
unfolding stack_lines
stack_lines-IsInCorner zero i h = tt
stack_lines-IsInCorner (suc count) i h =
    (ground arith, stack_lines-IsInCorner count (suc i) (omega arith))

wait_mark-IsInCorner : (lines : ℕ) → All IsInCorner (wait_mark lines)
unfolding wait_mark
wait_mark-IsInCorner lines = elim (Bool-cases (lines == 1)) [
  | inl one ↦ rw one (tt, (tt, (tt, tt)))
  | inr more ↦ rw more tt
]

pub time_lines_bounds : (left : ℕ) → left ≤ otp_step_seconds → time_lines left otp_step_seconds ≤ 4
unfolding time_lines
time_lines_bounds left hi = ground arith

-- One line of the stack, with its upper edge at `y`.
abbrev stack_line : ℕ → Op
stack_line y = fill_rect (pos 110) (pos y) 18 2

-- What the corner shows, written out: in the last quarter one line and `wait`, and two, three and four
-- lines before it. The text begins at column 76 of the lowest text row.
abbrev pub icon : ℕ → List Op
icon left =
    if leb left 22
    then stack_line 30 ∷ set_text_size 1 ∷ set_cursor (pos 76) (pos 24) ∷ print (codes "wait") ∷ []
    else if leb left 45
    then stack_line 30 ∷ stack_line 26 ∷ []
    else if leb left 67
    then stack_line 30 ∷ stack_line 26 ∷ stack_line 22 ∷ []
    else stack_line 30 ∷ stack_line 26 ∷ stack_line 22 ∷ stack_line 18 ∷ []

draw_time_left-lines :
    (left n : ℕ)
    → time_lines left otp_step_seconds ≡ n
    → draw_time_left left otp_step_seconds ≡ stack_lines n 0 ++ wait_mark n
unfolding draw_time_left
draw_time_left-lines left n h = rw h

-- The whole of what `draw_time_left` draws.
pub draw_time_left-icon :
    (left : ℕ)
    → 1 ≤ left
    → left ≤ otp_step_seconds
    → draw_time_left left otp_step_seconds ≡ icon left
unfolding time_lines stack_lines wait_mark
draw_time_left-icon left lo hi = elim (Bool-cases (leb left 22)) [
  | inl one ↦ rw one (draw_time_left-lines left 1 (ground (arith, one)))
  | inr a ↦ elim (Bool-cases (leb left 45)) [
    | inl two ↦ rw (a, two) (draw_time_left-lines left 2 (ground (arith, a, two)))
    | inr b ↦ elim (Bool-cases (leb left 67)) [
      | inl three ↦ rw (a, b, three) (draw_time_left-lines left 3 (ground (arith, b, three)))
      | inr c ↦ rw (a, b, c) (draw_time_left-lines left 4 (ground (arith, c)))
    ]
  ]
]

-- With 1 to 90 seconds left of 90, exactly this is drawn: one line for each quarter that is not over,
-- from the lower right corner upwards, four pixels apart, each 18 wide and 2 high, and `wait` beside
-- the last one, which stands alone while at most 22 seconds are left. All lines are inside the panel,
-- in the corner at the lower right.
pub draw_time_left-quarters :
    (left : ℕ)
    → 1 ≤ left
    → left ≤ otp_step_seconds
    → let lines = time_lines left otp_step_seconds in
      (draw_time_left left otp_step_seconds ≡ icon left)
      × All IsInCorner (draw_time_left left otp_step_seconds)
      × (1 ≤ lines)
      × (lines ≤ 4)
      × (otp_step_seconds * (lines - 1) < left * 4)
      × (left * 4 ≤ otp_step_seconds * lines)
unfolding draw_time_left
draw_time_left-quarters left lo hi =
    let lines = time_lines left otp_step_seconds in
    let few = time_lines_bounds left hi in
    (
      draw_time_left-icon left lo hi,
      All-append IsInCorner (stack_lines lines 0) (wait_mark lines)
          (stack_lines-IsInCorner lines 0 (omega arith)) (wait_mark-IsInCorner lines),
      ground arith,
      few,
      ground arith,
      ground arith,
    )
