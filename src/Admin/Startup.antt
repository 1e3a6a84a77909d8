-- ===== src/Admin/Startup.antt =====
-- `main` of admin/main.cpp up to `listen`.
use x_auth.Base.{
  ℕ, true, not, Bytes, List, [], ◌∷◌, Option, none, some, if◌then◌else◌, ◌≡◌, refl, Bool-cases,
  Option-cases, inl, inr,
}
use x_auth.Base.Int.{ℤ}
use x_auth.Keystore.Sqlite.{Sqlite, SqliteLaws}
use x_auth.Keystore.Store.{migrate_keystore}
use x_auth.Keystore.Unchanged.{migrate_keystore-Unchanged}
use x_auth.Startup.{
  Options, defaults, parse_options, fits_path, Os, OsLaws, Site, Started, exited, open_listener,
}
use x_auth.Startup.Private.{IsStarted, exit_early, listen_with}

module _ (q : Sqlite) (path_size : ℕ) (stoul : Bytes → Option ℕ) (stol : Bytes → Option ℤ)
    (os : Os) where
  -- From the test of the path on.
  unfoldable pub with_options : Options → Site → q.World → (Started × List Site) × q.World
  with_options o s w =
      if not (fits_path path_size o.path)
      then ((exited 2, s ∷ []), w)
      else (let (ready, w') = migrate_keystore q w in
          ((if not ready then (exited 1, s ∷ []) else open_listener os o.mode s), w'))

  unfoldable pub start_admin : List Bytes → Site → q.World → (Started × List Site) × q.World
  unfolding with_options
  start_admin args s w = elim (parse_options stoul stol args defaults) [
    | none ↦ ((exited 2, s ∷ []), w)
    | some o ↦ with_options o s w
  ]

  -- A daemon that listens with a mode: its options, its path, and a keystore of the present schema.
  pub record IsAdminReady (args : List Bytes) (w : q.World) (mode : ℕ) : Type 0 where
    pub options : Options
    pub parsed : parse_options stoul stol args defaults ≡ some options
    pub asked : options.mode ≡ mode
    pub path : fits_path path_size options.path ≡ true
    pub migrated : (migrate_keystore q w).0 ≡ true

  -- With any arguments, and whichever calls of the operating system fail: at every moment of the
  -- start-up of the admin daemon the path holds what it held before, or nothing in the place of a
  -- socket, or a socket without rights for others in the place of a socket or of nothing. The umask
  -- is at the end as it was, and every row of the keystore reads as it did. If the daemon then
  -- listens, its options were right, the path fits, the keystore was brought up to the schema, and
  -- the socket has the mode of the options, less the rights of others. The calls are as documented.
  pub start_admin-IsStarted :
      (os_laws : OsLaws os) (laws : SqliteLaws q) (args : List Bytes) (s : Site) (w : q.World)
      → IsStarted (IsAdminReady args w) s (start_admin args s w).0
        × (laws.find (start_admin args s w).1 ≡ laws.find w)
  unfolding start_admin with_options
  start_admin-IsStarted os_laws laws args s w =
      let fit = IsAdminReady args w in
      elim (Option-cases (parse_options stoul stol args defaults)) [
        | inl bad ↦ rw (start_admin, bad) (exit_early fit 2 s, refl)
        | inr (o, parsed) ↦
            rw (start_admin, parsed)
              (elim (Bool-cases (fits_path path_size o.path)) [
                | inr wide ↦ rw wide (exit_early fit 2 s, refl)
                | inl path ↦
                    let unchanged = migrate_keystore-Unchanged q laws w in
                    elim (Bool-cases (migrate_keystore q w).0) [
                      | inr broken ↦ rw path (rw broken (exit_early fit 1 s, unchanged))
                      | inl ready ↦ rw path (
                          rw ready (
                            listen_with fit os os_laws o.mode s (record {
                              options = o;
                              parsed = parsed;
                              asked = refl;
                              path = path;
                              migrated = ready;
                            }),
                            unchanged,
                          ))
                    ]
              ])
      ]
