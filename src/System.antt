-- ===== src/System.antt =====
-- The programs around one keystore: the connections and the start of admin/main.cpp, the runs of
-- tools/provision/main.cpp and tools/devcode/main.cpp, and the connections of verifier/main.cpp, one
-- after the other in any order.
pub mod Keys
pub mod Ids
pub mod Revoked
pub mod Sessions
pub mod Login
pub mod Stamps
pub mod Entries
pub mod Listing
use x_auth.Base.{
  ℕ, suc, Bool, true, Bytes, codes, List, [], ◌∷◌, ◌++◌, Option, none, some, All, ◌≡◌, refl,
  Option-cases, Bool-cases, inl, inr, not, if◌then◌else◌,
}
use x_auth.Base.Int.{ℤ, pos}
use x_auth.Keygen.{valid_label}
use x_auth.Keystore.Sqlite.{Sqlite}
use x_auth.Keystore.Store.{Device, default_device, migrate_keystore}
use x_auth.Keystore.Calls.{
  Call, find, status, note, list, migrate, perform, Run, here, Run-one, Run-append,
}
use x_auth.Socket.{ReadEvent, WriteEvent, peer_allowed}
use x_auth.Socket.ReadLine.{first_line, stream}
use x_auth.Startup.{Os, Site, defaults, parse_options, fits_path}
use x_auth.Admin.Serve.{max_request, connection}
use x_auth.Admin.Startup.{with_options, start_admin}
use x_auth.Admin.Calls.{Adds, connection-Run}
use x_auth.Provision.{FileEvent, main}
use x_auth.Provision.Calls.{main-Run}
use x_auth.Devcode.{print_code, devcode}
use x_auth.Verifier.Serve.{serve}
use x_auth.Verifier.Calls.{serve-Run}

-- With all that the outside gives.
pub data Event : Type 0 where
  admin :
      (draws : ℕ → ℕ → Option Bytes) (allow_uid : ℤ) (uid : Option ℕ) (reads : List ReadEvent)
      (writes : List WriteEvent)
      → Event
  admin_start :
      (path_size : ℕ) (stoul : Bytes → Option ℕ) (stol : Bytes → Option ℤ) (os : Os)
      (args : List Bytes) (site : Site)
      → Event
  provision :
      (draws : ℕ → ℕ → Option Bytes) (stoi : Bytes → Option ℤ) (file : FileEvent)
      (argv : List Bytes)
      → Event
  devcode_run : (argv : List Bytes) (now : ℕ) → Event
  login :
      (dummy_key : Bytes) (allow_uid : ℤ) (uid : Option ℕ) (reads : List ReadEvent)
      (writes : List WriteEvent) (time : ℕ)
      → Event

-- What the calls of `RAND_bytes` give.
abbrev pub draws_of : Event → ℕ → ℕ → Option Bytes
draws_of (admin draws allow_uid uid reads writes) = draws
draws_of (admin_start path_size stoul stol os args site) = λ call. λ n. none
draws_of (provision draws stoi file argv) = draws
draws_of (devcode_run argv now) = λ call. λ n. none
draws_of (login dummy_key allow_uid uid reads writes time) = λ call. λ n. none

-- An allowed peer asks for `ACTIVATE`, or somebody runs `provision activate`.
abbrev pub Activates : Bytes → Event → Type 0
Activates id (admin draws allow_uid uid reads writes) =
    (peer_allowed allow_uid uid ≡ true)
    × (first_line (suc max_request) (stream reads) ≡ some (codes "ACTIVATE " ++ id))
Activates id (admin_start path_size stoul stol os args site) = ⊥
Activates id (provision draws stoi file argv) = argv ≡ codes "activate" ∷ id ∷ []
Activates id (devcode_run argv now) = ⊥
Activates id (login dummy_key allow_uid uid reads writes time) = ⊥

module _ (hmac : Bytes → Bytes → Option Bytes) (q : Sqlite) where
  unfoldable pub run_event : Event → q.World → q.World
  run_event (admin draws allow_uid uid reads writes) w =
      (connection q draws allow_uid uid reads writes w).1
  run_event (admin_start path_size stoul stol os args site) w =
      (start_admin q path_size stoul stol os args site w).1
  run_event (provision draws stoi file argv) w = (main q draws stoi file argv w).1
  run_event (devcode_run argv now) w = (devcode hmac q argv now w).1
  run_event (login dummy_key allow_uid uid reads writes time) w =
      (serve hmac q dummy_key allow_uid uid reads writes time w).1

  unfoldable pub run_events : List Event → q.World → q.World
  run_events [] w = w
  run_events (e ∷ events) w = run_events events (run_event e w)

  -- What the programs do at any time.
  pub record Permits (P : Call → Type 0) : Type 0 where
    pub finds : (id : Bytes) (out : Device) → P (find id out)
    pub lists : P list
    pub migrates : P migrate
    pub revokes : (id : Bytes) → P (status id (pos 0))
    pub notes : (id label : Bytes) → valid_label label ≡ true → P (note id label)

  module _ (P : Call → Type 0) (permits : Permits P) where
    start_admin-Run :
        (path_size : ℕ) (stoul : Bytes → Option ℕ) (stol : Bytes → Option ℤ) (os : Os)
        (args : List Bytes) (site : Site) (w : q.World)
        → Run q P w (start_admin q path_size stoul stol os args site w).1
    unfolding start_admin with_options perform
    start_admin-Run path_size stoul stol os args site w =
        elim (Option-cases (parse_options stoul stol args defaults)) [
          | inl bad ↦ rw (start_admin, bad) here
          | inr (o, parsed) ↦ elim (Bool-cases (fits_path path_size o.path)) [
            | inr wide ↦ rw (start_admin, parsed) (rw wide here)
            | inl fits ↦ rw (start_admin, parsed) (rw fits (Run-one q P migrate w permits.migrates))
          ]
        ]

    devcode-Run :
        (argv : List Bytes) (now : ℕ) (w : q.World) → Run q P w (devcode hmac q argv now w).1
    unfolding devcode perform
    devcode-Run [] now w = here
    devcode-Run (id ∷ []) now w =
        Run-one q P (find id default_device) w (permits.finds id default_device)
    devcode-Run (id ∷ b ∷ argv) now w = here

    run_event-Run :
        (e : Event) (w : q.World)
        → Adds q P permits.finds (draws_of e)
        → ((id : Bytes) → Activates id e → P (status id (pos 1)))
        → Run q P w (run_event e w)
    unfolding run_event
    run_event-Run (admin draws allow_uid uid reads writes) w adds activates =
        connection-Run q P permits.finds draws permits.lists adds permits.revokes permits.notes
          allow_uid uid reads writes w (λ id. λ allowed. λ asked. activates id (allowed, asked))
    run_event-Run (admin_start path_size stoul stol os args site) w adds activates =
        start_admin-Run path_size stoul stol os args site w
    run_event-Run (provision draws stoi file argv) w adds activates =
        main-Run q P permits.finds permits.revokes draws adds stoi permits.lists permits.migrates
          permits.notes file argv w activates
    run_event-Run (devcode_run argv now) w adds activates = devcode-Run argv now w
    run_event-Run (login dummy_key allow_uid uid reads writes time) w adds activates =
        serve-Run hmac q dummy_key P permits.finds allow_uid uid reads writes time w

    -- All events together.
    pub run_events-Run :
        (events : List Event) (w : q.World)
        → All (λ (e : Event). Adds q P permits.finds (draws_of e)) events
        → All (λ (e : Event). (id : Bytes) → Activates id e → P (status id (pos 1))) events
        → Run q P w (run_events events w)
    unfolding run_events
    run_events-Run [] w adds activates = here
    run_events-Run (e ∷ events) w adds activates =
        Run-append q (run_event-Run e w adds.0 activates.0)
          (run_events-Run events (run_event e w) adds.1 activates.1)
