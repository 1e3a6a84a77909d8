-- ===== src/Provision/Flash.antt =====
-- From tools/provision/main.cpp over the header that the firmware is built with to the reply of
-- verifier/main.cpp.
use x_auth.Base.{ℕ, ◌+◌, ◌≤◌, ◌<◌, ◌^◌, false, Bytes, codes, [], ◌∷◌, ◌++◌, Option, some, ◌≡◌}
use x_auth.Otp.{IsSha256, otp_step_seconds}
use x_auth.Keygen.{FillsBuffer}
use x_auth.Keygen.Header.{quoted}
use x_auth.Keystore.Sqlite.{Sqlite, SqliteLaws}
use x_auth.Keystore.Answers.{Answers}
use x_auth.Admin.Enroll.{LetIn}
use x_auth.Provision.{Outcome}

module _ (hmac : Bytes → Bytes → Option Bytes) (mbedtls_hmac : Bytes → Bytes → Bytes)
    (same : (key msg : Bytes) → hmac key msg ≡ some (mbedtls_hmac key msg)) (sha : IsSha256 hmac)
    (q : Sqlite) (laws : SqliteLaws q) (answers : Answers q) (dummy_key : Bytes)
    (draws : ℕ → ℕ → Option Bytes) (fills : (call : ℕ) → FillsBuffer (draws call)) (shown now : ℕ)
    (ahead : shown ≤ now + otp_step_seconds) (behind : now ≤ shown + otp_step_seconds)
    (shown_fits : shown < 2 ^ 63) (now_fits : now < 2 ^ 63) where
  -- The header has an ID and a key as its two texts, and a keychain that is built with it is let in.
  pub record Flashed (r : Outcome) (w : q.World) : Type 0 where
    pub id : Bytes
    pub key : Bytes
    pub text : Bytes
    pub told : r.out ≡ id ++ codes "\n"
    pub written : r.file ≡ some text
    pub built : quoted false [] text ≡ id ∷ key ∷ []
    pub keychain : LetIn hmac mbedtls_hmac q dummy_key shown now id key w
