-- ===== src/Firmware/Display/Bounds.antt =====
-- What display.cpp draws lies inside the panel.
use x_auth.Base.{
  ℕ, zero, suc, ◌+◌, ◌≤◌, ◌-◌, ◌<◌, ltb, Bytes, [], ◌∷◌, some, All, All-append, length, ◌≡◌, arith,
  some_inj, bind-eq-some, Bool-cases, inl, inr, ◌*◌, ◌==◌,
}
use x_auth.Base.Int.{pos}
use x_auth.Firmware.Display.{
  screen_width, screen_height, Op, set_cursor, fill_rect, draw_rect, draw_pixel, draw_line,
  draw_circle, fill_circle, display, Frame, group, time_lines, stack_lines, wait_mark,
  draw_time_left, display_show_code, display_status, display_message,
}
use x_auth.Firmware.Display.Layout.{time_lines_bounds}
use x_auth.Firmware.Display.Bench.{
  demo_border, text_lines, demo_text_size1, demo_text_size2, demo_shapes, demo_invert, noise,
  demo_random_noise, emin, emin2,
}
use x_auth.Firmware.Totp.{otp_step_seconds}

abbrev IsPixel : ℕ → ℕ → Type 0
IsPixel x y = (x < screen_width) × (y < screen_height)

-- A rectangle, a circle, a line, a pixel or a place for text that lies inside the panel.
abbrev pub IsOnPanel : Op → Type 0
IsOnPanel (set_cursor (pos x) (pos y)) = IsPixel x y
IsOnPanel (set_cursor _ _) = ⊥
IsOnPanel (fill_rect (pos x) (pos y) w h) = (x + w ≤ screen_width) × (y + h ≤ screen_height)
IsOnPanel (fill_rect _ _ w h) = ⊥
IsOnPanel (draw_rect (pos x) (pos y) w h) = (x + w ≤ screen_width) × (y + h ≤ screen_height)
IsOnPanel (draw_rect _ _ w h) = ⊥
IsOnPanel (draw_pixel x y) = IsPixel x y
IsOnPanel (draw_line x y u v) = IsPixel x y × IsPixel u v
IsOnPanel (draw_circle x y r) = (r ≤ x) × (r ≤ y) × IsPixel (x + r) (y + r)
IsOnPanel (fill_circle x y r) = (r ≤ x) × (r ≤ y) × IsPixel (x + r) (y + r)
IsOnPanel _ = Unit

text_lines-IsOnPanel : (count line : ℕ) → line + count ≤ 4 → All IsOnPanel (text_lines count line)
unfolding text_lines
text_lines-IsOnPanel zero line h = tt
text_lines-IsOnPanel (suc count) line h = (
  (omega arith, omega arith),
  (tt, (tt, (tt, text_lines-IsOnPanel count (suc line) (omega arith)))),
)

demos-IsOnPanel :
    All IsOnPanel demo_border
    × All IsOnPanel demo_text_size1
    × All IsOnPanel demo_text_size2
    × All IsOnPanel demo_shapes
    × All IsOnPanel demo_invert
    × All IsOnPanel emin
    × All IsOnPanel emin2
unfolding demo_border demo_text_size1 demo_text_size2 demo_shapes demo_invert emin emin2
demos-IsOnPanel = ground arith

-- What is documented of `random`.
abbrev pub IsBelow : (ℕ → ℕ → ℕ) → Type 0
IsBelow random = (call n : ℕ) → 0 < n → random call n < n

noise-IsOnPanel :
    (random_x random_y : ℕ → ℕ → ℕ) (count i : ℕ)
    → IsBelow random_x
    → IsBelow random_y
    → All IsOnPanel (noise random_x random_y count i)
unfolding noise
noise-IsOnPanel random_x random_y zero i hx hy = tt
noise-IsOnPanel random_x random_y (suc count) i hx hy = (
  (hx i screen_width (omega arith), hy i screen_height (omega arith)),
  noise-IsOnPanel random_x random_y count (suc i) hx hy,
)

demo_random_noise-IsOnPanel :
    (random_x random_y : ℕ → ℕ → ℕ)
    → IsBelow random_x
    → IsBelow random_y
    → All IsOnPanel (demo_random_noise random_x random_y)
unfolding demo_random_noise
demo_random_noise-IsOnPanel random_x random_y hx hy = (
  tt,
  All-append IsOnPanel (noise random_x random_y 300 0) (display ∷ [])
      (noise-IsOnPanel random_x random_y 300 0 hx hy) (tt, tt),
)

stack_lines-IsOnPanel : (count i : ℕ) → count + i ≤ 4 → All IsOnPanel (stack_lines count i)
unfolding stack_lines
stack_lines-IsOnPanel zero i h = tt
stack_lines-IsOnPanel (suc count) i h =
    (ground arith, stack_lines-IsOnPanel count (suc i) (omega arith))

wait_mark-IsOnPanel : (lines : ℕ) → All IsOnPanel (wait_mark lines)
unfolding wait_mark
wait_mark-IsOnPanel lines = elim (Bool-cases (lines == 1)) [
  | inl one ↦ rw one (tt, ((omega arith, omega arith), (tt, tt)))
  | inr more ↦ rw more tt
]

draw_time_left-IsOnPanel :
    (left : ℕ) → left ≤ otp_step_seconds → All IsOnPanel (draw_time_left left otp_step_seconds)
unfolding draw_time_left
draw_time_left-IsOnPanel left h =
    let lines = time_lines left otp_step_seconds in
    All-append IsOnPanel (stack_lines lines 0) (wait_mark lines)
      (stack_lines-IsOnPanel lines 0 (omega (arith, time_lines_bounds left h)))
      (wait_mark-IsOnPanel lines)

display_show_code-IsOnPanel :
    (code id : Bytes) (left : ℕ) (frame : Frame)
    → left ≤ otp_step_seconds
    → display_show_code code id left otp_step_seconds ≡ some frame
    → All IsOnPanel frame
unfolding display_show_code
display_show_code-IsOnPanel code id left frame h shown =
    let (grouped, _, made) = bind-eq-some (group code) _ shown in
    let rest =
      All-append IsOnPanel (draw_time_left left otp_step_seconds) (display ∷ [])
        (draw_time_left-IsOnPanel left h) (tt, tt) in
    let cursor : IsPixel 0 (screen_height - 8) = (omega arith, omega arith) in
    rw (← some_inj made)
      (tt, (tt, (tt, ((omega arith, omega arith), (tt, (tt, (cursor, (tt, rest))))))))

display_status-IsOnPanel : (text id : Bytes) → All IsOnPanel (display_status text id)
unfolding display_status
display_status-IsOnPanel text id = elim (Bool-cases (ltb (length text * 12) screen_width)) [
  | inl narrow ↦ rw narrow (ground arith)
  | inr wide ↦ rw wide (ground arith)
]

display_message-IsOnPanel : (text : Bytes) → All IsOnPanel (display_message text)
unfolding display_message
display_message-IsOnPanel text = ground arith

-- All rectangles, circles, lines and pixels, and all places where text begins, lie inside the panel of
-- 128 by 32: on the code screen with at most 90 seconds left, on the status and message screens with
-- any text, and in the bench demos, if `random` gives a number below its argument.
pub frames-IsOnPanel :
    (code id text message : Bytes) (left : ℕ) (frame : Frame) (random_x random_y : ℕ → ℕ → ℕ)
    → left ≤ otp_step_seconds
    → display_show_code code id left otp_step_seconds ≡ some frame
    → IsBelow random_x
    → IsBelow random_y
    → All IsOnPanel frame
      × All IsOnPanel (display_status text id)
      × All IsOnPanel (display_message message)
      × All IsOnPanel (demo_random_noise random_x random_y)
      × All IsOnPanel demo_border
      × All IsOnPanel demo_text_size1
      × All IsOnPanel demo_text_size2
      × All IsOnPanel demo_shapes
      × All IsOnPanel demo_invert
      × All IsOnPanel emin
      × All IsOnPanel emin2
frames-IsOnPanel code id text message left frame random_x random_y h shown hx hy =
    let (border, size1, size2, shapes, invert, first, second) = demos-IsOnPanel in
    (
      display_show_code-IsOnPanel code id left frame h shown,
      display_status-IsOnPanel text id,
      display_message-IsOnPanel message,
      demo_random_noise-IsOnPanel random_x random_y hx hy,
      border,
      size1,
      size2,
      shapes,
      invert,
      first,
      second,
    )
