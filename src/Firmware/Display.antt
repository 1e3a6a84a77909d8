-- ===== src/Firmware/Display.antt =====
-- firmware/xAuth_ID/src/display.cpp: the screens of the keychain. A frame is the list of the calls that
-- draw it, from `clearDisplay` to `display`. Bench has the demos.
pub mod Layout
pub mod Bench
pub mod Bounds
use x_auth.Base.{
  ℕ, zero, suc, ◌+◌, ◌-◌, ◌*◌, ◌/◌, ◌%◌, ◌^◌, Bool, true, false, Bytes, codes, List, [], ◌∷◌, ◌++◌,
  Option, none, some, ◌>>=◌, ltb, ◌==◌, if◌then◌else◌, length, get_elem?,
}
use x_auth.Base.Int.{ℤ, pos, sub_ℕ}

abbrev pub screen_width : ℕ
screen_width = 128

abbrev pub screen_height : ℕ
screen_height = 32

pub data Color : Type 0 where
  white black : Color

-- The calls of the drawing library, with their arguments. All shapes are white.
pub data Op : Type 0 where
  clear_display display : Op
  set_text_color : Color → Op
  set_text_size : ℕ → Op
  set_cursor : ℤ → ℤ → Op
  print println : Bytes → Op
  fill_rect draw_rect : ℤ → ℤ → ℕ → ℕ → Op
  draw_pixel : ℕ → ℕ → Op
  draw_line : ℕ → ℕ → ℕ → ℕ → Op
  draw_circle fill_circle : ℕ → ℕ → ℕ → Op

abbrev pub Frame : Type 0
Frame = List Op

-- `lines`: the division rounds up.
unfoldable pub time_lines : ℕ → ℕ → ℕ
time_lines seconds_left step_seconds =
    let left = if ltb step_seconds seconds_left then step_seconds else seconds_left in
    let lines = (left * 4 + step_seconds - 1) % 2 ^ 32 / step_seconds in
    if ltb lines 1 then 1 else lines

-- The loop from line `i` on, with `count` lines to go.
unfoldable pub stack_lines : ℕ → ℕ → List Op
stack_lines zero i = []
stack_lines (suc count) i =
    fill_rect (pos (screen_width - 18)) (sub_ℕ (screen_height - 1 - 2 + 1) (i * (2 + 2))) 18 2
    ∷ stack_lines count (suc i)

unfoldable pub wait_mark : ℕ → List Op
wait_mark lines =
    if lines == 1
    then set_text_size 1
      ∷ set_cursor (pos (screen_width - 18 - 5 * 6 - 4)) (pos (screen_height - 8))
      ∷ print (codes "wait")
      ∷ []
    else []

unfoldable pub draw_time_left : ℕ → ℕ → List Op
unfolding time_lines stack_lines wait_mark
draw_time_left seconds_left step_seconds =
    let lines = time_lines seconds_left step_seconds in stack_lines lines zero ++ wait_mark lines

-- `grouped`, from the eight bytes of `code`; a read outside the text is `none`.
unfoldable pub group : Bytes → Option Bytes
group code = do
  c0 ← get_elem? code 0
  c1 ← get_elem? code 1
  c2 ← get_elem? code 2
  c3 ← get_elem? code 3
  c4 ← get_elem? code 4
  c5 ← get_elem? code 5
  c6 ← get_elem? code 6
  c7 ← get_elem? code 7
  some (c0 ∷ c1 ∷ c2 ∷ c3 ∷ b' ' ∷ c4 ∷ c5 ∷ c6 ∷ c7 ∷ [])

unfoldable pub display_show_code : Bytes → Bytes → ℕ → ℕ → Option Frame
unfolding group draw_time_left
display_show_code code id seconds_left step_seconds = do
  grouped ← group code
  some (
      clear_display
      ∷ set_text_color white
      ∷ set_text_size 2
      ∷ set_cursor (pos ((screen_width - 9 * 12) / 2)) (pos 0)
      ∷ print grouped
      ∷ set_text_size 1
      ∷ set_cursor (pos 0) (pos (screen_height - 8))
      ∷ print id
      ∷ (draw_time_left seconds_left step_seconds ++ display ∷ []))

unfoldable pub display_status : Bytes → Bytes → Frame
display_status text id =
    let w = length text * 12 in
    clear_display
    ∷ set_text_color white
    ∷ set_text_size 2
    ∷ set_cursor (pos (if ltb w screen_width then (screen_width - w) / 2 else 0)) (pos 0)
    ∷ print text
    ∷ set_text_size 1
    ∷ set_cursor (pos 0) (pos (screen_height - 8))
    ∷ print id
    ∷ display
    ∷ []

unfoldable pub display_message : Bytes → Frame
display_message text =
    clear_display
    ∷ set_text_size 1
    ∷ set_text_color white
    ∷ set_cursor (pos 0) (pos 12)
    ∷ print text
    ∷ display
    ∷ []

-- Two calls behind what is on the panel.
unfoldable pub display_ln : List Op
display_ln = print (codes "\n") ∷ display ∷ []
