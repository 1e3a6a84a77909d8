-- ===== src/Firmware/Clock/Hardware.antt =====
-- What clock.cpp uses of RTClib (the DS3231) and of Preferences (values kept in flash), as one
-- interface. The laws are the documented effect of each write on each read, with no time passing
-- between them.
use x_auth.Base.{ℕ, Bool, true, false, ◌≡◌}

pub record Board : Type 1 where
  pub State : Type 0
  -- `rtc.begin()`: the chip answers on the bus.
  pub rtc_begin : State → Bool
  -- The oscillator-stop flag.
  pub rtc_lost_power : State → Bool
  -- `rtc.now().unixtime()`.
  pub rtc_time : State → ℕ
  pub rtc_adjust : ℕ → State → State
  -- `getBool("provisioned", false)` and `putBool("provisioned", true)`.
  pub get_provisioned : State → Bool
  pub put_provisioned : State → State
  -- `getUInt("last_seen", 0)` and `putUInt("last_seen", t)`.
  pub get_last_seen : State → ℕ
  pub put_last_seen : ℕ → State → State

pub record BoardLaws (b : Board) : Type 0 where
  pub adjust-begin : (t : ℕ) (s : b.State) → b.rtc_begin (b.rtc_adjust t s) ≡ b.rtc_begin s
  pub adjust-power : (t : ℕ) (s : b.State) → b.rtc_lost_power (b.rtc_adjust t s) ≡ false
  pub adjust-time : (t : ℕ) (s : b.State) → b.rtc_time (b.rtc_adjust t s) ≡ t
  pub adjust-provisioned :
      (t : ℕ) (s : b.State) → b.get_provisioned (b.rtc_adjust t s) ≡ b.get_provisioned s
  pub adjust-last_seen :
      (t : ℕ) (s : b.State) → b.get_last_seen (b.rtc_adjust t s) ≡ b.get_last_seen s
  pub provision-begin : (s : b.State) → b.rtc_begin (b.put_provisioned s) ≡ b.rtc_begin s
  pub provision-power : (s : b.State) → b.rtc_lost_power (b.put_provisioned s) ≡ b.rtc_lost_power s
  pub provision-time : (s : b.State) → b.rtc_time (b.put_provisioned s) ≡ b.rtc_time s
  pub provision-provisioned : (s : b.State) → b.get_provisioned (b.put_provisioned s) ≡ true
  pub provision-last_seen :
      (s : b.State) → b.get_last_seen (b.put_provisioned s) ≡ b.get_last_seen s
  pub mark-begin : (t : ℕ) (s : b.State) → b.rtc_begin (b.put_last_seen t s) ≡ b.rtc_begin s
  pub mark-power :
      (t : ℕ) (s : b.State) → b.rtc_lost_power (b.put_last_seen t s) ≡ b.rtc_lost_power s
  pub mark-time : (t : ℕ) (s : b.State) → b.rtc_time (b.put_last_seen t s) ≡ b.rtc_time s
  pub mark-provisioned :
      (t : ℕ) (s : b.State) → b.get_provisioned (b.put_last_seen t s) ≡ b.get_provisioned s
  pub mark-last_seen : (t : ℕ) (s : b.State) → b.get_last_seen (b.put_last_seen t s) ≡ t
