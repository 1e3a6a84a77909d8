-- ===== src/Verifier/Startup.antt =====
-- `main` of verifier/main.cpp up to `listen`.
use x_auth.Base.{
  ℕ, true, not, Bytes, codes, List, [], ◌∷◌, Option, none, some, if◌then◌else◌, ◌≡◌, ◌≢◌, refl,
  Bool-cases, Option-cases, inl, inr,
}
use x_auth.Base.Int.{ℤ}
use x_auth.Keystore.Sqlite.{Sqlite}
use x_auth.Keystore.Store.{default_device, Lookup, found, not_found, error, find_device}
use x_auth.Startup.{
  Options, defaults, parse_options, fits_path, Os, OsLaws, Site, Started, exited, open_listener,
}
use x_auth.Startup.Private.{IsStarted, exit_early, listen_with}
use x_auth.Verifier.Check.{random_hex_key}

module _ (q : Sqlite) (rand_bytes : ℕ → Option Bytes) (path_size : ℕ) (stoul : Bytes → Option ℕ)
    (stol : Bytes → Option ℤ) (os : Os) where
  -- The probe of the keystore and what follows it.
  unfoldable pub probe : Options → Site → Lookup → Started × List Site
  probe o s error = (exited 1, s ∷ [])
  probe o s found = open_listener os o.mode s
  probe o s not_found = open_listener os o.mode s

  -- From the test of the path on.
  unfoldable pub with_options : Options → Site → q.World → Started × List Site
  unfolding probe
  with_options o s w =
      if not (fits_path path_size o.path)
      then (exited 2, s ∷ [])
      else elim (random_hex_key rand_bytes) [
        | none ↦ (exited 1, s ∷ [])
        | some key ↦ probe o s (find_device q (codes "0000") default_device w).0.0
      ]

  unfoldable pub start_verifier : List Bytes → Site → q.World → Started × List Site
  unfolding with_options
  start_verifier args s w = elim (parse_options stoul stol args defaults) [
    | none ↦ (exited 2, s ∷ [])
    | some o ↦ with_options o s w
  ]

  -- A verifier that listens with a mode: its options, its path and dummy key, and a keystore that
  -- can be read.
  pub record IsVerifierReady (args : List Bytes) (w : q.World) (mode : ℕ) : Type 0 where
    pub options : Options
    pub key : Bytes
    pub parsed : parse_options stoul stol args defaults ≡ some options
    pub asked : options.mode ≡ mode
    pub path : fits_path path_size options.path ≡ true
    pub drawn : random_hex_key rand_bytes ≡ some key
    pub readable : (find_device q (codes "0000") default_device w).0.0 ≢ error

  probe-IsStarted :
      (os_laws : OsLaws os) (args : List Bytes) (o : Options) (s : Site) (w : q.World) (l : Lookup)
      → (l ≢ error → IsVerifierReady args w o.mode)
      → IsStarted (IsVerifierReady args w) s (probe o s l)
  unfolding probe
  probe-IsStarted os_laws args o s w error ready = exit_early (IsVerifierReady args w) 1 s
  probe-IsStarted os_laws args o s w found ready =
      listen_with (IsVerifierReady args w) os os_laws o.mode s (ready (λ e. cc e))
  probe-IsStarted os_laws args o s w not_found ready =
      listen_with (IsVerifierReady args w) os os_laws o.mode s (ready (λ e. cc e))

  -- With any arguments, and whichever calls of the operating system fail: at every moment of the
  -- start-up of the verifier the path holds what it held before, or nothing in the place of a
  -- socket, or a socket without rights for others in the place of a socket or of nothing. The umask
  -- is at the end as it was. If the verifier then listens, its options were right, the path fits,
  -- the dummy key was drawn, the keystore can be read, and the socket has the mode of the options,
  -- less the rights of others. The calls are as documented.
  pub start_verifier-IsStarted :
      (os_laws : OsLaws os) (args : List Bytes) (s : Site) (w : q.World)
      → IsStarted (IsVerifierReady args w) s (start_verifier args s w)
  unfolding start_verifier with_options
  start_verifier-IsStarted os_laws args s w =
      let fit = IsVerifierReady args w in
      elim (Option-cases (parse_options stoul stol args defaults)) [
        | inl bad ↦ rw (start_verifier, bad) (exit_early fit 2 s)
        | inr (o, parsed) ↦
            rw (start_verifier, parsed)
              (elim (Bool-cases (fits_path path_size o.path)) [
                | inr wide ↦ rw wide (exit_early fit 2 s)
                | inl path ↦ elim (Option-cases (random_hex_key rand_bytes)) [
                  | inl failed ↦ rw (with_options, path, failed) (exit_early fit 1 s)
                  | inr (key, drawn) ↦
                      rw (with_options, path, drawn)
                        (probe-IsStarted os_laws args o s w _ (λ readable. record {
                          options = o;
                          key = key;
                          parsed = parsed;
                          asked = refl;
                          path = path;
                          drawn = drawn;
                          readable = readable;
                        }))
                ]
              ])
      ]
