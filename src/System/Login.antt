-- ===== src/System/Login.antt =====
-- Every active device of a keystore that the programs made can log in.
use x_auth.Base.{
  ℕ, ◌+◌, ◌≤◌, ◌<◌, ◌^◌, Bytes, List, [], ◌∷◌, Option, some, All, All-every, ◌≡◌, refl, inl, inr,
}
use x_auth.Base.Int.{pos}
use x_auth.Otp.{IsSha256, otp_step_seconds}
use x_auth.Keygen.{FillsBuffer}
use x_auth.Keystore.Sqlite.{Row, Sqlite, SqliteLaws}
use x_auth.Keystore.Answers.{Answers}
use x_auth.Keystore.Calls.{status}
use x_auth.Keystore.Calls.Sound.{IsSoundTable, IsSoundCall, Run-IsSoundTable}
use x_auth.Admin.Calls.{Adds}
use x_auth.Admin.Enroll.{generate_key_text, LetIn, HasKey-LetIn}
use x_auth.System.{Event, draws_of, Activates, run_events, Permits, run_events-Run}

module _ (hmac : Bytes → Bytes → Option Bytes) (q : Sqlite) (laws : SqliteLaws q) where
  permits : Permits hmac q IsSoundCall
  permits = record {
    finds = λ id out. tt;
    lists = tt;
    migrates = tt;
    revokes = λ id. inl refl;
    notes = λ id label h. h;
  }

  abbrev pub Fills : Event → Type 0
  Fills e = FillsBuffer (draws_of e 0)

  adds_sound :
      (events : List Event)
      → All Fills events
      → All (λ (e : Event). Adds q IsSoundCall permits.finds (draws_of e)) events
  adds_sound [] h = tt
  adds_sound (e ∷ events) h = (
    (λ id key label made good.
        let (size, text) = generate_key_text (draws_of e 0) key h.0 made in
        (size, text, good, inr refl)),
    adds_sound events h.1,
  )

  -- Rows stay as the programs make them.
  pub run_events-IsSoundTable :
      (events : List Event) (w : q.World)
      → IsSoundTable (laws.find w)
      → All Fills events
      → IsSoundTable (laws.find (run_events hmac q events w))
  run_events-IsSoundTable events w sound fills =
      Run-IsSoundTable q laws w (run_events hmac q events w) sound (
        run_events-Run hmac q IsSoundCall permits events w (adds_sound events fills) (
          All-every (λ (e : Event). (i : Bytes) → Activates i e → IsSoundCall (status i (pos 1)))
            (λ e. λ i h. inr refl) events))

module _ (hmac : Bytes → Bytes → Option Bytes) (mbedtls_hmac : Bytes → Bytes → Bytes)
    (same : (key msg : Bytes) → hmac key msg ≡ some (mbedtls_hmac key msg)) (sha : IsSha256 hmac)
    (q : Sqlite) (laws : SqliteLaws q) (answers : Answers q) where
  -- The keychain of an active device.
  pub record CanLogIn (dummy_key id : Bytes) (r : Row) (shown now : ℕ) (w : q.World) : Type 0 where
    pub key : Bytes
    pub at_key : r.key ≡ some key
    pub keychain : LetIn hmac mbedtls_hmac q dummy_key shown now id key w

  -- Over any sequence of admin connections and starts, runs of the tools and logins, from a table whose
  -- rows are sound (an empty one, say): at its end every device with status 1 has a key with which
  -- a keychain shows a code that the verifier answers by `OK`. Random bytes fill the buffers of the
  -- keys, the clocks differ by at most 90 seconds and are below 2 ^ 63, the keystore can be read,
  -- and both HMAC routines compute the same 32 bytes.
  pub run_events-CanLogIn :
      (events : List Event) (first : q.World) (dummy_key id : Bytes) (r : Row) (shown now : ℕ)
      → IsSoundTable (laws.find first)
      → All (Fills hmac q laws) events
      → laws.find (run_events hmac q events first) id ≡ some r
      → r.status ≡ pos 1
      → shown ≤ now + otp_step_seconds
      → now ≤ shown + otp_step_seconds
      → shown < 2 ^ 63
      → now < 2 ^ 63
      → CanLogIn dummy_key id r shown now (run_events hmac q events first)
  run_events-CanLogIn events first dummy_key id r shown now sound fills at active a b c d =
      let s = run_events-IsSoundTable hmac q laws events first sound fills id r at in
      record {
        key = s.key;
        at_key = s.at_key;
        keychain =
            HasKey-LetIn hmac mbedtls_hmac same sha q laws answers dummy_key shown now a b c d id
              s.key r (run_events hmac q events first) s.valid
              (record { at_id = at; at_key = s.at_key }) active s.full s.text;
      }
