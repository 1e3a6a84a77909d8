-- ===== src/Firmware/Totp/Window.antt =====
-- `otp_seconds_left` of firmware/xAuth_ID/src/totp.cpp.
use x_auth.Base.{ℕ, ◌+◌, ◌^◌, ◌≤◌, ◌<◌, ◌≡◌, arith}
use x_auth.Otp.{counter_for_time, otp_step_seconds}
use x_auth.Firmware.Totp.{otp_seconds_left}

-- At a time below 2 ^ 32, between 1 and 90 seconds are left; during them the counter stays, and
-- then it is the next one.
pub otp_seconds_left-exact :
    (now : ℕ)
    → now < 2 ^ 32
    → (1 ≤ otp_seconds_left now)
      × (otp_seconds_left now ≤ otp_step_seconds)
      × ((k : ℕ)
          → k < otp_seconds_left now
          → counter_for_time (now + k) otp_step_seconds ≡ counter_for_time now otp_step_seconds)
      × (counter_for_time (now + otp_seconds_left now) otp_step_seconds
          ≡ counter_for_time now otp_step_seconds + 1)
unfolding otp_seconds_left counter_for_time
otp_seconds_left-exact now h = (omega arith, omega arith, λ k lt. omega arith, omega arith)
