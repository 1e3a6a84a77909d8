-- ===== src/Verifier/Check.antt =====
-- `all_digits`, `random_hex_key` and `verify_code` of verifier/main.cpp.
pub mod Sound
pub mod Complete
use x_auth.Base.{
  ℕ, ◌+◌, ◌-◌, ◌%◌, ◌^◌, Bool, true, false, not, ◌&&◌, ◌||◌, Bytes, List, [], ◌∷◌, Option, none,
  some, ◌>>=◌, ltb, ◌==◌, if◌then◌else◌, length, replicate, equal,
}
use x_auth.Base.Int.{ℤ, pos, negsuc}
use x_auth.Otp.{otp_size, otp_step_seconds, counter_for_time, totp_for_counter, pad_and_convert}
use x_auth.Keygen.{hex_bytes}
use x_auth.Keystore.Sqlite.{Sqlite}
use x_auth.Keystore.Store.{Device, default_device, Lookup, found, not_found, error, find_device}

abbrev pub key_hex_len : ℕ
key_hex_len = 128

unfoldable pub all_digits : Bytes → Bool
all_digits [] = true
all_digits (c ∷ s) = if ltb c b'0' || ltb b'9' c then false else all_digits s

-- `none` is the exit with status 1 on a failure of `RAND_bytes`. The loop is that of `generate_key`.
unfoldable pub random_hex_key : (ℕ → Option Bytes) → Option Bytes
random_hex_key rand_bytes = do buf ← rand_bytes 64; hex_bytes buf

unfoldable pub is_found : Lookup → Bool
is_found found = true
is_found not_found = false
is_found error = false

-- `status == 1`.
unfoldable pub is_active : ℤ → Bool
is_active (pos n) = n == 1
is_active (negsuc n) = false

unfoldable pub is_real : Lookup → Device → Bool
unfolding is_found is_active
is_real l device = is_found l && (is_active device.status && length device.key == key_hex_len)

unfoldable pub well_formed : Bytes → Bool
unfolding all_digits
well_formed code = length code == otp_size && all_digits code

-- The offsets -1, 0 and 1 as they are added to a uint64_t.
abbrev pub offsets : List ℕ
offsets = (2 ^ 64 - 1) ∷ 0 ∷ 1 ∷ []

-- `eq && !any`.
abbrev pub is_hit : Bytes → Bytes → Bool → Bool
is_hit expected submitted any =
    (length expected == length submitted && equal expected submitted) && not any

module _ (hmac : Bytes → Bytes → Option Bytes) where
  -- The loop over the offsets that are left. `any` and `matched` are its two variables.
  unfoldable pub check_counters : Bytes → Bytes → ℕ → List ℕ → Bool → ℕ → Option (Bool × ℕ)
  check_counters key submitted now [] any matched = some (any, matched)
  check_counters key submitted now (offset ∷ rest) any matched = do
    let counter = (now + offset) % 2 ^ 64
    code ← totp_for_counter hmac key counter otp_size
    let expected = pad_and_convert code
    let hit = is_hit expected submitted any
    check_counters key submitted now rest (any || hit) (if hit then counter else matched)

  -- `verify_code` behind `find_device`: the result and `matched`. `time` is what `time(nullptr)` gives.
  unfoldable pub check_device : Bytes → ℕ → Bytes → Lookup → Device → Option (Bool × ℕ)
  check_device dummy_key time code l device =
      let code_ok = well_formed code in
      let real = is_real l device in
      let key = if real then device.key else dummy_key in
      let submitted = if code_ok then code else replicate otp_size b'x' in
      let now = counter_for_time time otp_step_seconds in
      do
        (any, matched) ← check_counters key submitted now offsets false 0
        some (real && (code_ok && any), matched)

  unfoldable pub verify_code :
      (q : Sqlite) → Bytes → ℕ → Bytes → Bytes → q.World → Option (Bool × ℕ) × q.World
  unfolding check_device
  verify_code q dummy_key time id code w =
      let ((l, device), w') = find_device q id default_device w in
      (check_device dummy_key time code l device, w')
