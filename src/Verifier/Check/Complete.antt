-- ===== src/Verifier/Check/Complete.antt =====
-- Which codes `verify_code` of verifier/main.cpp must accept.
use x_auth.Base.{
  ℕ, ◌+◌, ◌%◌, ◌^◌, Bool, true, false, ◌&&◌, ◌||◌, Bytes, List, [], ◌∷◌, Option, some,
  if◌then◌else◌, length, replicate, equal_refl, c_str, ◌≡◌, refl, sym, ap, ◌∙◌, subst, arith,
  some_inj, ◌⊎◌, inl, inr, All, IsDigit,
}
use x_auth.Base.Int.{pos}
use x_auth.Otp.{
  IsSha256, otp_size, otp_step_seconds, counter_for_time, totp_for_counter, pad_and_convert,
}
use x_auth.Otp.Total.{totp_for_counter-total}
use x_auth.Otp.Digits.{pad_and_convert-eight_digits}
use x_auth.Keystore.Id.{valid_device_id}
use x_auth.Keystore.Sqlite.{Row, Sqlite, SqliteLaws}
use x_auth.Keystore.Store.{Device, default_device, Lookup, found, read_columns, find_device}
use x_auth.Keystore.Find.{device_of, HasKey}
use x_auth.Keystore.Answers.{Answers, find_device-lookup}
use x_auth.Verifier.Check.{
  is_real, well_formed, is_hit, offsets, check_counters, check_device, verify_code,
}
use x_auth.Verifier.Check.Sound.{InWindow, IsCodeAt, well_formed_iff}

module _ (hmac : Bytes → Bytes → Option Bytes) (sha : IsSha256 hmac) (key : Bytes) (now : ℕ)
    (text : Bytes) where
  pub check_counters-total :
      (os : List ℕ) (any : Bool) (matched : ℕ)
      → (r : Bool × ℕ) × (check_counters hmac key text now os any matched ≡ some r)
  unfolding check_counters
  check_counters-total [] any matched = ((any, matched), refl)
  check_counters-total (o ∷ os) any matched =
      let (code, made, _) = totp_for_counter-total hmac sha key ((now + o) % 2 ^ 64) in
      let hit = is_hit (pad_and_convert code) text any in
      let (r, rest) =
        check_counters-total os (any || hit) (if hit then (now + o) % 2 ^ 64 else matched) in
      (r, rw made rest)

  -- What is still to be found, or was found before.
  abbrev Due : List ℕ → Bool → Type 0
  Due os any = (any ≡ true) ⊎ ((c : ℕ) × InWindow now c os × IsCodeAt hmac key c text)

  Due-step :
      (o code : ℕ) (os : List ℕ) (any : Bool)
      → totp_for_counter hmac key ((now + o) % 2 ^ 64) otp_size ≡ some code
      → Due (o ∷ os) any
      → Due os (any || is_hit (pad_and_convert code) text any)
  Due-step o code os true made d = inl refl
  Due-step o code os false made (inl e) = inl (cc)
  Due-step o code os false made (inr (c, inr win, at)) = inr (c, win, at)
  Due-step o code os false made (inr (c, inl e, at)) =
      let again : some code ≡ some at.code = sym made ∙ (rw e at at.computed) in
      let same : pad_and_convert code ≡ text = rw (some_inj again) at.printed in
      inl (rw same (rw (equal_refl text) (ground arith)))

  -- If one of the offsets leads to a counter at which the text is the code, the loop finds a match.
  pub check_counters_complete :
      (os : List ℕ) (any : Bool) (matched : ℕ)
      → Due os any
      → (m : ℕ) × (check_counters hmac key text now os any matched ≡ some (true, m))
  unfolding check_counters
  check_counters_complete [] any matched (inl e) = (matched, rw e)
  check_counters_complete [] any matched (inr (c, impossible, at)) = absurd impossible
  check_counters_complete (o ∷ os) any matched d =
      let (code, made, _) = totp_for_counter-total hmac sha key ((now + o) % 2 ^ 64) in
      let hit = is_hit (pad_and_convert code) text any in
      let (m, rest) =
        check_counters_complete os (any || hit) (if hit then (now + o) % 2 ^ 64 else matched)
          (Due-step o code os any made d) in
      (m, rw made rest)

module _ (hmac : Bytes → Bytes → Option Bytes) (sha : IsSha256 hmac) (q : Sqlite)
    (dummy_key : Bytes) (time : ℕ) where
  -- Whatever the request and the state of the keystore, the check returns.
  pub verify_code-total :
      (id code : Bytes) (w : q.World)
      → (r : Bool × ℕ) × ((verify_code hmac q dummy_key time id code w).0 ≡ some r)
  unfolding verify_code
  verify_code-total id code w =
      let (l, device) = (find_device q id default_device w).0 in
      let (r, e) =
        check_counters-total hmac sha (if is_real l device then device.key else dummy_key)
          (counter_for_time time otp_step_seconds)
          (if well_formed code then code else replicate otp_size b'x') offsets false 0 in
      ((is_real l device && (well_formed code && r.0), r.1), rw e)

  check_device_complete :
      (l : Lookup) (device : Device) (code : Bytes) (c : ℕ)
      → is_real l device ≡ true
      → well_formed code ≡ true
      → InWindow (counter_for_time time otp_step_seconds) c offsets
      → IsCodeAt hmac device.key c code
      → (m : ℕ) × (check_device hmac dummy_key time code l device ≡ some (true, m))
  unfolding check_device
  check_device_complete l device code c real wf near at =
      let (m, e) =
        check_counters_complete hmac sha device.key (counter_for_time time otp_step_seconds) code
          offsets false 0 (inr (c, near, at)) in
      (m, rw real (rw wf (rw e)))

  real_row :
      (id key : Bytes) (r : Row)
      → r.status ≡ pos 1
      → length (c_str key) ≡ 128
      → is_real found (device_of id key r default_device) ≡ true
  unfolding is_real
  real_row id key r active full = rw active (rw full)

  code_well_formed :
      (key : Bytes) (c : ℕ) (code : Bytes) → IsCodeAt hmac key c code → well_formed code ≡ true
  code_well_formed key c code at =
      let (n, made, small) = totp_for_counter-total hmac sha key c in
      let same : some at.code ≡ some n = sym at.computed ∙ made in
      let digits = pad_and_convert-eight_digits n small in
      (well_formed_iff code).1 (
        subst (λ (t : Bytes). (length t ≡ 8) × All IsDigit t)
          (sym (ap pad_and_convert (some_inj same)) ∙ at.printed) (digits.0, digits.1))

module _ (hmac : Bytes → Bytes → Option Bytes) (sha : IsSha256 hmac) (q : Sqlite)
    (laws : SqliteLaws q) (answers : Answers q) (dummy_key : Bytes) (time : ℕ) where
  -- While the keystore can be read and the HMAC works: if the ID is valid and has a row with
  -- status 1 and a key of 128 characters, the code of that key at the counter of the time, or at a
  -- neighbour, is accepted.
  pub verify_code_complete :
      (id key code : Bytes) (r : Row) (c : ℕ) (w : q.World)
      → valid_device_id id ≡ true
      → HasKey (laws.find w id) r key
      → r.status ≡ pos 1
      → length (c_str key) ≡ 128
      → InWindow (counter_for_time time otp_step_seconds) c offsets
      → IsCodeAt hmac (c_str key) c code
      → (m : ℕ) × ((verify_code hmac q dummy_key time id code w).0 ≡ some (true, m))
  unfolding verify_code read_columns
  verify_code_complete id key code r c w valid has active full near at =
      let looked : (find_device q id default_device w).0
          ≡ (found, device_of id key r default_device) =
        find_device-lookup q laws answers id default_device w valid
        ∙ rw has.at_id (rw has.at_key) in
      let (m, e) =
        check_device_complete hmac sha q dummy_key time found (device_of id key r default_device)
          code c (real_row hmac sha q dummy_key time id key r active full)
          (code_well_formed hmac sha q dummy_key time (c_str key) c code at) near at in
      (m, rw looked e)
