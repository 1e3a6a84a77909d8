-- ===== src/Firmware/Display/Bench.antt =====
-- The bench demos of firmware/xAuth_ID/src/display.cpp. `random` gives the two coordinates of a pixel;
-- which of its two calls comes first is up to the compiler.
use x_auth.Base.{ℕ, zero, suc, ◌-◌, ◌*◌, ◌/◌, codes, List, [], ◌∷◌, ◌++◌, decimal}
use x_auth.Base.Int.{pos}
use x_auth.Firmware.Display.{
  screen_width, screen_height, white, black, Op, clear_display, display, set_text_color,
  set_text_size, set_cursor, print, println, fill_rect, draw_rect, draw_pixel, draw_line,
  draw_circle, fill_circle, Frame,
}

unfoldable pub demo_border : Frame
demo_border =
    clear_display
    ∷ draw_rect (pos 0) (pos 0) screen_width screen_height
    ∷ draw_pixel 0 0
    ∷ draw_pixel (screen_width - 1) 0
    ∷ draw_pixel 0 (screen_height - 1)
    ∷ draw_pixel (screen_width - 1) (screen_height - 1)
    ∷ set_text_size 1
    ∷ set_cursor (pos 4) (pos 12)
    ∷ print (decimal screen_width)
    ∷ print (codes "x")
    ∷ print (decimal screen_height)
    ∷ display
    ∷ []

-- The loop from `line` on, with `count` lines to go.
unfoldable pub text_lines : ℕ → ℕ → List Op
text_lines zero line = []
text_lines (suc count) line =
    set_cursor (pos 0) (pos (line * 8))
    ∷ print (codes "Line ")
    ∷ print (decimal line)
    ∷ print (codes " 12345678901234567890")
    ∷ text_lines count (suc line)

unfoldable pub demo_text_size1 : Frame
unfolding text_lines
demo_text_size1 =
    clear_display ∷ set_text_size 1 ∷ set_text_color white ∷ (text_lines 4 0 ++ display ∷ [])

unfoldable pub demo_text_size2 : Frame
demo_text_size2 =
    clear_display
    ∷ set_text_size 2
    ∷ set_text_color white
    ∷ set_cursor (pos 0) (pos 0)
    ∷ println (codes "BIG1")
    ∷ set_cursor (pos 0) (pos 16)
    ∷ println (codes "BIG2")
    ∷ display
    ∷ []

unfoldable pub demo_shapes : Frame
demo_shapes =
    clear_display
    ∷ draw_line 0 0 (screen_width - 1) (screen_height - 1)
    ∷ draw_line 0 (screen_height - 1) (screen_width - 1) 0
    ∷ draw_circle (screen_width / 2) (screen_height / 2) 15
    ∷ fill_rect (pos 0) (pos 0) 20 20
    ∷ fill_circle (screen_width - 10) (screen_height - 10) 8
    ∷ display
    ∷ []

unfoldable pub demo_invert : Frame
demo_invert =
    clear_display
    ∷ fill_rect (pos 0) (pos 0) screen_width screen_height
    ∷ set_text_size 2
    ∷ set_text_color black
    ∷ set_cursor (pos 10) (pos 8)
    ∷ print (codes "INVERT")
    ∷ display
    ∷ []

module _ (random_x random_y : ℕ → ℕ → ℕ) where
  -- The loop from pixel `i` on, with `count` pixels to go.
  unfoldable pub noise : ℕ → ℕ → List Op
  noise zero i = []
  noise (suc count) i =
      draw_pixel (random_x i screen_width) (random_y i screen_height) ∷ noise count (suc i)

  unfoldable pub demo_random_noise : Frame
  unfolding noise
  demo_random_noise = clear_display ∷ (noise 300 0 ++ display ∷ [])

unfoldable pub emin : Frame
emin =
    clear_display
    ∷ set_text_size 2
    ∷ set_text_color white
    ∷ set_cursor (pos 0) (pos 0)
    ∷ println (codes "olala")
    ∷ display
    ∷ []

unfoldable pub emin2 : Frame
emin2 =
    clear_display
    ∷ set_text_size 2
    ∷ set_text_color white
    ∷ set_cursor (pos 0) (pos 0)
    ∷ println (codes "Jea")
    ∷ display
    ∷ []
