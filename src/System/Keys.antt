-- ===== src/System/Keys.antt =====
-- Nothing that the programs do removes a device or changes its key.
use x_auth.Base.{Bytes, List, Option, some, All-every, ◌≡◌}
use x_auth.Keystore.Sqlite.{Row, Sqlite, SqliteLaws}
use x_auth.Keystore.Calls.{Call, Run}
use x_auth.Keystore.Calls.Keeps.{StillHas, Run-StillHas}
use x_auth.Admin.Calls.{Adds}
use x_auth.System.{Event, draws_of, Activates, run_events, Permits, run_events-Run}

module _ (hmac : Bytes → Bytes → Option Bytes) (q : Sqlite) (laws : SqliteLaws q) where
  abbrev Anything : Call → Type 0
  Anything c = Unit

  permits : Permits hmac q Anything
  permits = record {
    finds = λ id out. tt;
    lists = tt;
    migrates = tt;
    revokes = λ id. tt;
    notes = λ id label h. tt;
  }

  -- What the programs do is a run of calls.
  pub run_events-Run_any :
      (events : List Event) (w : q.World) → Run q (λ c. Unit) w (run_events hmac q events w)
  run_events-Run_any events w =
      run_events-Run hmac q Anything permits events w
        (All-every (λ (e : Event). Adds q Anything permits.finds (draws_of e))
          (λ e. λ i key label made good. tt) events)
        (All-every (λ (e : Event). (i : Bytes) → Activates i e → Unit) (λ e. λ i h. tt) events)

  -- Over any sequence of admin connections and starts, runs of the tools and logins, with any failing
  -- calls: a device in the table stays in it, with the same key and the same time of creation. No
  -- ID is ever given to another key.
  pub run_events-StillHas :
      (events : List Event) (id : Bytes) (r : Row) (w : q.World)
      → laws.find w id ≡ some r
      → StillHas (laws.find (run_events hmac q events w)) id r
  run_events-StillHas events id r w at =
      Run-StillHas q laws Anything id r w (run_events hmac q events w) at
        (run_events-Run_any events w)
