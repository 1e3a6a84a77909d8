-- ===== src/Verifier/Check/Sound.antt =====
-- What an acceptance by `verify_code` of verifier/main.cpp means.
use x_auth.Base.{
  ℕ, ◌+◌, ◌%◌, ◌^◌, Bool, true, false, not, ◌&&◌, ◌||◌, Bytes, List, [], ◌∷◌, Option, some,
  bind-eq-some, ◌==◌, if◌then◌else◌, length, replicate, equal, equal_iff, All, IsDigit, c_str, ◌≡◌,
  refl, sym, ap, ◌∙◌, subst, arith, ◌⊎◌, inl, inr, ◌↔◌,
}
use x_auth.Base.Int.{ℤ, pos, negsuc}
use x_auth.Otp.{otp_size, otp_step_seconds, counter_for_time, totp_for_counter, pad_and_convert}
use x_auth.Keystore.Id.{valid_device_id}
use x_auth.Keystore.Sqlite.{Row, Sqlite, SqliteLaws}
use x_auth.Keystore.Store.{Device, default_device, Lookup, find_device}
use x_auth.Keystore.Find.{
  device_of, HasKey, FindResult, hit, malformed, missing, no_key, fault, find_device_sound,
}
use x_auth.Verifier.Check.{
  all_digits, is_found, is_active, is_real, well_formed, offsets, check_counters, check_device,
  verify_code,
}

all_digits_iff : (s : Bytes) → (all_digits s ≡ true) ↔ All IsDigit s
unfolding all_digits
all_digits_iff [] = ((λ _. tt), (λ _. refl))
all_digits_iff (c ∷ s) = ground (arith, all_digits_iff s)

pub well_formed_iff : (s : Bytes) → (well_formed s ≡ true) ↔ ((length s ≡ 8) × All IsDigit s)
unfolding well_formed
well_formed_iff s = ground (arith, all_digits_iff s)

-- One of the listed offsets leads from `now` to `counter`.
abbrev pub InWindow : ℕ → ℕ → List ℕ → Type 0
InWindow now counter [] = ⊥
InWindow now counter (o ∷ os) = (counter ≡ (now + o) % 2 ^ 64) ⊎ InWindow now counter os

module _ (hmac : Bytes → Bytes → Option Bytes) (key : Bytes) where
  -- The text is the code of the key at the counter.
  pub record IsCodeAt (counter : ℕ) (text : Bytes) : Type 0 where
    pub code : ℕ
    pub computed : totp_for_counter hmac key counter otp_size ≡ some code
    pub printed : pad_and_convert code ≡ text

  -- What the loop may report, from its variables and the offsets that are left.
  abbrev Reports : ℕ → Bytes → List ℕ → Bool → ℕ → ℕ → Type 0
  Reports now text os any matched m =
      ((any ≡ true) × (m ≡ matched)) ⊎ (InWindow now m os × IsCodeAt m text)

  later :
      (now : ℕ) (text : Bytes) (o : ℕ) (os : List ℕ) (any : Bool) (matched m : ℕ)
      → Reports now text os any matched m
      → Reports now text (o ∷ os) any matched m
  later now text o os any matched m (inl r) = inl r
  later now text o os any matched m (inr (win, code)) = inr (inr win, code)

  step_sound :
      (now : ℕ) (text : Bytes) (o : ℕ) (os : List ℕ) (same any : Bool) (matched m : ℕ)
      → (same ≡ true → IsCodeAt ((now + o) % 2 ^ 64) text)
      → Reports now text os
          (any || (same && not any))
          (if same && not any then (now + o) % 2 ^ 64 else matched)
          m
      → Reports now text (o ∷ os) any matched m
  step_sound now text o os true true matched m code r = later now text o os true matched m r
  step_sound now text o os false true matched m code r = later now text o os true matched m r
  step_sound now text o os false false matched m code r = later now text o os false matched m r
  step_sound now text o os true false matched m code (inl (t, e)) =
      inr (inl e, subst (λ n. IsCodeAt n text) (sym e) (code refl))
  step_sound now text o os true false matched m code (inr (win, later_code)) =
      inr (inr win, later_code)

  same_code :
      (counter code : ℕ) (text : Bytes)
      → totp_for_counter hmac key counter otp_size ≡ some code
      → (length (pad_and_convert code) == length text && equal (pad_and_convert code) text) ≡ true
      → IsCodeAt counter text
  same_code counter code text made h = record {
    code = code;
    computed = made;
    printed = (equal_iff (pad_and_convert code) text).0 (ground arith);
  }

  check_counters-sound :
      (now : ℕ) (text : Bytes) (os : List ℕ) (any : Bool) (matched m : ℕ)
      → check_counters hmac key text now os any matched ≡ some (true, m)
      → Reports now text os any matched m
  unfolding check_counters
  check_counters-sound now text [] any matched m h = inl (ground arith)
  check_counters-sound now text (o ∷ os) any matched m h =
      let (code, made, rest) =
        bind-eq-some (totp_for_counter hmac key ((now + o) % 2 ^ 64) otp_size) _ h in
      step_sound now text o os _ any matched m (same_code ((now + o) % 2 ^ 64) code text made)
        (check_counters-sound now text os _ _ m rest)

-- The device that an accepted request names, and the code that it shows.
pub record Authentic (hmac : Bytes → Bytes → Option Bytes) (o : Option Row) (time : ℕ)
    (id code : Bytes) (matched : ℕ) : Type 0 where
  pub row : Row
  pub key : Bytes
  pub valid : valid_device_id id ≡ true
  pub registered : HasKey o row key
  pub active : row.status ≡ pos 1
  pub full_key : length (c_str key) ≡ 128
  pub eight_digits : (length code ≡ 8) × All IsDigit code
  pub near : InWindow (counter_for_time time otp_step_seconds) matched offsets
  pub code_at : IsCodeAt hmac (c_str key) matched code

is_active_lem : (s : ℤ) → is_active s ≡ true → s ≡ pos 1
unfolding is_active
is_active_lem (pos n) h = ap pos (ground arith)
is_active_lem (negsuc n) h = ground arith

-- The last line of `verify_code`.
all_three :
    (real code_ok any : Bool) (matched m : ℕ)
    → ◌≡◌ {A = Option (Bool × ℕ)} (some (real && (code_ok && any), matched)) (some (true, m))
    → (real ≡ true) × (code_ok ≡ true) × (any ≡ true) × (matched ≡ m)
all_three real code_ok any matched m h = ground arith

pair_path : (p : Bool × ℕ) (m : ℕ) → p.0 ≡ true → p.1 ≡ m → p ≡ (true, m)
pair_path p m e f = λ i. (e i, f i)

module _ (hmac : Bytes → Bytes → Option Bytes) (dummy_key : Bytes) (time : ℕ) (code : Bytes) where
  -- A device that passes was found, active and with a full key, and its key made the code.
  pub check_device_sound :
      (l : Lookup) (device : Device) (m : ℕ)
      → check_device hmac dummy_key time code l device ≡ some (true, m)
      → (is_real l device ≡ true)
        × (well_formed code ≡ true)
        × InWindow (counter_for_time time otp_step_seconds) m offsets
        × IsCodeAt hmac device.key m code
  unfolding check_device
  check_device_sound l device m h =
      let (found_any, e, rest) =
        bind-eq-some
          (check_counters hmac (if is_real l device then device.key else dummy_key)
            (if well_formed code then code else replicate otp_size b'x')
            (counter_for_time time otp_step_seconds) offsets false 0)
          _ h in
      let (real, wf, any, same) = all_three _ _ found_any.0 found_any.1 m rest in
      let window : check_counters hmac device.key code (counter_for_time time otp_step_seconds)
            offsets false 0
          ≡ some (true, m) =
        (rw real at (rw wf at e)) ∙ ap some (pair_path found_any m any same) in
      elim (check_counters-sound hmac device.key _ code offsets false 0 m window) [
        | inl (impossible, _) ↦ cc
        | inr (near, at) ↦ (real, wf, near, at)
      ]

is_real_parts :
    (l : Lookup) (device : Device)
    → is_real l device ≡ true
    → (is_found l ≡ true) × (device.status ≡ pos 1) × (length device.key ≡ 128)
unfolding is_real
is_real_parts l device h = (ground arith, is_active_lem device.status (ground arith), ground arith)

FindResult-real :
    (valid : Bool) (o : Option Row) (id : Bytes) (l : Lookup) (device : Device)
    → FindResult valid o id default_device l device
    → is_found l ≡ true
    → (r : Row) × (key : Bytes) × (valid ≡ true)
      × HasKey o r key
      × (device ≡ device_of id key r default_device)
unfolding is_found
FindResult-real valid o id l device (hit r key v k) h = (r, key, v, k, refl)
FindResult-real valid o id l device (malformed v) h = cc
FindResult-real valid o id l device (missing v e) h = cc
FindResult-real valid o id l device (no_key r v e k) h = cc
FindResult-real valid o id l device fault h = cc

module _ (hmac : Bytes → Bytes → Option Bytes) (q : Sqlite) (laws : SqliteLaws q)
    (dummy_key : Bytes) (time : ℕ) (id code : Bytes) (w : q.World) where
  -- If `verify_code` accepts with `matched`, the ID is valid and stands in the table with status 1
  -- and a key of 128 characters, the code is 8 digits, `matched` is the counter of the time or one of
  -- its two neighbours, and the code is the one of that key at `matched`. The dummy key never counts.
  pub verify_code_sound :
      (m : ℕ)
      → (verify_code hmac q dummy_key time id code w).0 ≡ some (true, m)
      → Authentic hmac (laws.find w id) time id code m
  unfolding verify_code
  verify_code_sound m h =
      let (l, device) = (find_device q id default_device w).0 in
      let (real, wf, near, at) = check_device_sound hmac dummy_key time code l device m h in
      let (hit_l, active, full) = is_real_parts l device real in
      let (r, key, valid, has, same) =
        FindResult-real _ _ id l device (find_device_sound q laws id default_device w).0 hit_l in
      record {
        row = r;
        key = key;
        valid = valid;
        registered = has;
        active = sym (ap (λ (d : Device). d.status) same) ∙ active;
        full_key = sym (ap (λ (d : Device). length d.key) same) ∙ full;
        eight_digits = (well_formed_iff code).0 wf;
        near = near;
        code_at = subst (λ (d : Device). IsCodeAt hmac d.key m code) same at;
      }
