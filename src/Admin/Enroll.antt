-- ===== src/Admin/Enroll.antt =====
-- From `ADD` of admin/main.cpp over the keychain to the reply of verifier/main.cpp.
use x_auth.Base.{
  ℕ, ◌+◌, ◌≤◌, ◌<◌, ◌^◌, true, Bytes, codes, [], ◌∷◌, ◌++◌, Option, some, bind-eq-some, equal,
  equal_refl, break_at, c_str-Lacks, length, All, Lacks, ◌≡◌, refl, sym, ap, ◌∙◌, arith, some_inj,
  cons_inj,
}
use x_auth.Base.Int.{pos}
use x_auth.Otp.{IsSha256, otp_step_seconds}
use x_auth.Keygen.{FillsBuffer, hex_bytes, generate_key}
use x_auth.Keygen.Keys.{is_hex, generate_key-hex}
use x_auth.Keystore.Id.{valid_device_id}
use x_auth.Keystore.Sqlite.{Row, Sqlite, SqliteLaws}
use x_auth.Keystore.Store.{Device}
use x_auth.Keystore.Find.{HasKey}
use x_auth.Keystore.Answers.{Answers}
use x_auth.Keystore.Insert.{row_of}
use x_auth.Keystore.Update.{Table}
use x_auth.Firmware.Totp.{otp_now, format_code}
use x_auth.Verifier.Protocol
use x_auth.Verifier.Protocol.{reply_ok}
use x_auth.Verifier.Protocol.Split.{request_line}
use x_auth.Verifier.Protocol.Login.{otp_now-total, keychain_login}
use x_auth.Admin.{reply_added, dispatch, handle_add, handle_request}
use x_auth.Admin.Add.{
  HasNewRow, AddResult, created, refused, threw, AddAnswer, bad_label, no_key, tried, new_device,
  handle_add-AddAnswer,
}

All-hex_Lacks : (s : Bytes) → All (λ c. is_hex c ≡ true) s → Lacks 0 s
All-hex_Lacks [] h = tt
All-hex_Lacks (c ∷ s) h = ((λ e. ground (arith, h.0)), All-hex_Lacks s h.1)

-- A key that was drawn has 128 characters and no NUL.
pub generate_key_text :
    (rand_bytes : ℕ → Option Bytes) (key : Bytes)
    → FillsBuffer rand_bytes
    → generate_key rand_bytes ≡ some key
    → (length key ≡ 128) × Lacks 0 key
unfolding generate_key
generate_key_text rand_bytes key fills made =
    let (buf, drawn, _) = bind-eq-some (rand_bytes 64) hex_bytes made in
    let (k, e, size, hexes, _) = generate_key-hex rand_bytes buf fills drawn in
    let same : key ≡ k = some_inj (sym made ∙ e) in rw same (size, All-hex_Lacks k hexes)

-- A keychain that was flashed with the ID and the key shows a code at the time `shown`, and the
-- verifier answers it by `OK` at the time `now`.
pub record LetIn (hmac : Bytes → Bytes → Option Bytes) (mbedtls_hmac : Bytes → Bytes → Bytes)
    (q : Sqlite) (dummy_key : Bytes) (shown now : ℕ) (id key : Bytes) (w : q.World) : Type 0 where
  pub code : ℕ
  pub matched : ℕ
  pub on_screen : otp_now mbedtls_hmac key shown ≡ some code
  pub let_in :
      (Protocol.handle_request hmac q dummy_key now
        (request_line (codes "VERIFY") id (format_code code))
        w).0
      ≡ some (reply_ok matched)

module _ (hmac : Bytes → Bytes → Option Bytes) (mbedtls_hmac : Bytes → Bytes → Bytes)
    (same : (key msg : Bytes) → hmac key msg ≡ some (mbedtls_hmac key msg)) (sha : IsSha256 hmac)
    (q : Sqlite) (laws : SqliteLaws q) (answers : Answers q) (dummy_key : Bytes) (shown now : ℕ)
    (ahead : shown ≤ now + otp_step_seconds) (behind : now ≤ shown + otp_step_seconds)
    (shown_fits : shown < 2 ^ 63) (now_fits : now < 2 ^ 63) where
  -- A row with a key that can be flashed.
  pub HasKey-LetIn :
      (id key : Bytes) (r : Row) (w : q.World)
      → valid_device_id id ≡ true
      → HasKey (laws.find w id) r key
      → r.status ≡ pos 1
      → length key ≡ 128
      → Lacks 0 key
      → LetIn hmac mbedtls_hmac q dummy_key shown now id key w
  HasKey-LetIn id key r w valid has active size text =
      let (n, on_screen) = otp_now-total hmac mbedtls_hmac same sha key shown text in
      let (m, let_in) =
        keychain_login hmac mbedtls_hmac same sha q laws answers dummy_key id key r w shown now n
          valid has active size text on_screen ahead behind shown_fits now_fits in
      record { code = n; matched = m; on_screen = on_screen; let_in = let_in }

module _ (hmac : Bytes → Bytes → Option Bytes) (mbedtls_hmac : Bytes → Bytes → Bytes)
    (same : (key msg : Bytes) → hmac key msg ≡ some (mbedtls_hmac key msg)) (sha : IsSha256 hmac)
    (q : Sqlite) (laws : SqliteLaws q) (answers : Answers q) (dummy_key : Bytes)
    (draws : ℕ → ℕ → Option Bytes) (fills : (call : ℕ) → FillsBuffer (draws call)) (shown now : ℕ)
    (ahead : shown ≤ now + otp_step_seconds) (behind : now ≤ shown + otp_step_seconds)
    (shown_fits : shown < 2 ^ 63) (now_fits : now < 2 ^ 63) where
  -- A new row with the key that was drawn.
  pub HasNewRow-LetIn :
      (d : Device) (before : Table) (w : q.World)
      → d.status ≡ pos 1
      → generate_key (draws 0) ≡ some d.key
      → HasNewRow d before (laws.find w)
      → LetIn hmac mbedtls_hmac q dummy_key shown now d.id d.key w
  HasNewRow-LetIn d before w active made new =
      let (size, text) = generate_key_text (draws 0) d.key (fills 0) made in
      let row = row_of d new.now in
      let has : HasKey (laws.find w d.id) row d.key = record {
        at_id = rw equal_refl at (new.rows d.id);
        at_key = ap some (c_str-Lacks d.key text);
      } in
      HasKey-LetIn hmac mbedtls_hmac same sha q laws answers dummy_key shown now ahead behind
        shown_fits now_fits d.id d.key row w new.valid has active size text

  -- What the reply told is let in.
  pub record Enrolled (reply : Bytes) (w : q.World) : Type 0 where
    pub id : Bytes
    pub key : Bytes
    pub told : reply ≡ reply_added id key
    pub keychain : LetIn hmac mbedtls_hmac q dummy_key shown now id key w

  AddResult-Enrolled :
      (label key rest : Bytes) (before : Table) (w : q.World) (reply : Option Bytes)
      → generate_key (draws 0) ≡ some key
      → AddResult (new_device q laws draws label key) before (laws.find w) reply
      → reply ≡ some (b'O' ∷ rest)
      → Enrolled (b'O' ∷ rest) w
  AddResult-Enrolled label key rest before w _ made (created id new) e = rw (← some_inj e) (record {
    id = id;
    key = key;
    told = refl;
    keychain = HasNewRow-LetIn (new_device q laws draws label key id) before w refl made new;
  })
  AddResult-Enrolled label key rest before w _ made (refused _) e =
      absurd (omega (arith, (cons_inj (some_inj e)).0))
  AddResult-Enrolled label key rest before w _ made (threw _) e = absurd (cc e)

  AddAnswer-Enrolled :
      (label rest : Bytes) (before : Table) (w : q.World) (reply : Option Bytes)
      → AddAnswer q laws draws label before (laws.find w) reply
      → reply ≡ some (b'O' ∷ rest)
      → Enrolled (b'O' ∷ rest) w
  AddAnswer-Enrolled label rest before w _ (bad_label _ _) e =
      absurd (omega (arith, (cons_inj (some_inj e)).0))
  AddAnswer-Enrolled label rest before w _ (no_key _ _) e = absurd (cc e)
  AddAnswer-Enrolled label rest before w _ (tried reply key ok made added) e =
      AddResult-Enrolled label key rest before w reply made added e

  -- If `ADD label` was answered by a line that begins with O, the line is `OK id key`, and a
  -- keychain with that ID and key shows a code that the verifier then answers by `OK`. The clocks
  -- differ by at most 90 seconds and are below 2 ^ 63, random bytes fill the buffers, the keystore
  -- can be read, and both HMAC routines compute the same 32 bytes.
  pub handle_request-Enrolled :
      (label rest : Bytes) (w : q.World)
      → (handle_request q draws (codes "ADD " ++ label) w).0 ≡ some (b'O' ∷ rest)
      → Enrolled (b'O' ∷ rest) (handle_request q draws (codes "ADD " ++ label) w).1
  unfolding handle_request dispatch break_at equal
  handle_request-Enrolled label rest w told =
      AddAnswer-Enrolled label rest (laws.find w) (handle_add q draws label w).1
        (handle_add q draws label w).0 (handle_add-AddAnswer q laws draws label w) told
