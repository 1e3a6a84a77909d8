-- ===== src/Devcode.antt =====
-- tools/devcode/main.cpp: prints the present code of a device, for tests without a keychain.
use x_auth.Base.{
  ℕ, ◌+◌, ◌≤◌, ◌<◌, ◌^◌, true, Bytes, codes, List, [], ◌∷◌, ◌++◌, Option, some, ◌>>=◌, length,
  c_str, ◌≡◌, refl, ◌∙◌,
}
use x_auth.Base.Int.{pos}
use x_auth.Otp.{IsSha256, otp_size, otp_step_seconds, counter_for_time, totp, pad_and_convert}
use x_auth.Otp.Total.{totp_for_counter-total}
use x_auth.Keystore.Id.{valid_device_id}
use x_auth.Keystore.Sqlite.{Row, Sqlite, SqliteLaws}
use x_auth.Keystore.Store.{
  Device, default_device, Lookup, found, not_found, error, read_columns, find_device,
}
use x_auth.Keystore.Find.{HasKey, device_of}
use x_auth.Keystore.Answers.{Answers, find_device-lookup}
use x_auth.Verifier.Check.{verify_code}
use x_auth.Verifier.Check.Complete.{verify_code_complete}
use x_auth.Verifier.Protocol.Login.{clocks-InWindow}

module _ (hmac : Bytes → Bytes → Option Bytes) (q : Sqlite) where
  -- The exit status and what is printed; `none` is a throw that nobody catches.
  unfoldable pub print_code : ℕ → Lookup × Device → Option (ℕ × Bytes)
  print_code now (not_found, d) = some (1, [])
  print_code now (error, d) = some (1, [])
  print_code now (found, d) = do
    n ← totp hmac d.key now otp_step_seconds otp_size
    some (0, pad_and_convert n ++ codes "\n")

  -- `argv` behind the name of the program.
  unfoldable pub devcode : List Bytes → ℕ → q.World → Option (ℕ × Bytes) × q.World
  unfolding print_code
  devcode (id ∷ []) now w =
      let (looked, w') = find_device q id default_device w in (print_code now looked, w')
  devcode args now w = (some (2, []), w)

module _ (hmac : Bytes → Bytes → Option Bytes) (sha : IsSha256 hmac) (q : Sqlite)
    (laws : SqliteLaws q) (answers : Answers q) (dummy_key : Bytes) where
  -- For a device in the table, `devcode` prints a code and exits with 0; if the device is active and
  -- its key has 128 characters, the verifier accepts that code while the two clocks differ by at
  -- most 90 seconds. The ID is valid, the keystore can be read, the HMAC gives 32 bytes, and the
  -- times are below 2 ^ 63.
  pub devcode-verify_code :
      (id key : Bytes) (r : Row) (w : q.World) (shown now : ℕ)
      → valid_device_id id ≡ true
      → HasKey (laws.find w id) r key
      → shown ≤ now + otp_step_seconds
      → now ≤ shown + otp_step_seconds
      → shown < 2 ^ 63
      → now < 2 ^ 63
      → (code : Bytes) × ((devcode hmac q (id ∷ []) shown w).0 ≡ some (0, code ++ codes "\n"))
        × (r.status ≡ pos 1
            → length (c_str key) ≡ 128
            → (m : ℕ) × ((verify_code hmac q dummy_key now id code w).0 ≡ some (true, m)))
  unfolding devcode totp read_columns
  devcode-verify_code id key r w shown now valid has a b c d =
      let (n, made, _) =
        totp_for_counter-total hmac sha (c_str key) (counter_for_time shown otp_step_seconds) in
      let looked : (find_device q id default_device w).0
          ≡ (found, device_of id key r default_device) =
        find_device-lookup q laws answers id default_device w valid
        ∙ rw has.at_id (rw has.at_key) in
      (
        pad_and_convert n,
        rw looked (rw made refl),
        (λ active full.
            verify_code_complete hmac sha q laws answers dummy_key now id key (pad_and_convert n) r
              (counter_for_time shown otp_step_seconds) w valid has active full
              (clocks-InWindow shown now a b c d)
              (record { code = n; computed = made; printed = refl })),
      )
