-- ===== src/System/Sessions.antt =====
-- What the login page is told of a device that was revoked: auth-web ends the sessions of a device that
-- is not `ACTIVE`.
use x_auth.Base.{
  ℕ, Bytes, codes, List, ◌∷◌, ◌++◌, Option, some, All, ◌≤◌, ◌≡◌, ap, ◌∙◌, true, refl, if◌then◌else◌,
}
use x_auth.Base.Int.{ℤ, pos}
use x_auth.Keystore.Id.{valid_device_id}
use x_auth.Keystore.Sqlite.{Sqlite, SqliteLaws, set_status, apply_change}
use x_auth.Keystore.Answers.{Answers}
use x_auth.Keystore.Update.{Table}
use x_auth.Keystore.Calls.Revoked.{IsOut}
use x_auth.Socket.{ReadEvent, WriteEvent, peer_allowed}
use x_auth.Socket.ReadLine.{stream}
use x_auth.Socket.WriteAll.{offered}
use x_auth.Admin.{handle_request}
use x_auth.Admin.Revoke.{pos-one, revoked_row}
use x_auth.Verifier.Serve.{serve}
use x_auth.Verifier.Status.{status_text, status_line, serve-status, not_live}
use x_auth.System.{Event, Activates, run_events}
use x_auth.System.Revoked.{run_events-IsOut}

IsOut-text : (t : Table) (id : Bytes) → IsOut t id → status_text (t id) ≡ codes "INACTIVE\n"
IsOut-text t id out =
    ap status_text out.at_id
    ∙ ap (λ b. if b then codes "ACTIVE\n" else codes "INACTIVE\n") (not_live out.row out.inactive)

module _ (hmac : Bytes → Bytes → Option Bytes) (q : Sqlite) (laws : SqliteLaws q)
    (answers : Answers q) (id : Bytes) where
  -- After `REVOKE id` was answered by `OK`, and whatever the programs did then without activating the ID:
  -- an allowed peer that sends `STATUS id` to the verifier gets exactly `INACTIVE`. The ID is valid,
  -- the writes offer to take 24 bytes, and the keystore can be read.
  pub revoked_sessions_end :
      (draws : ℕ → ℕ → Option Bytes) (first : q.World) (events : List Event) (dummy_key : Bytes)
      (allow_uid : ℤ) (uid : Option ℕ) (reads : List ReadEvent) (writes : List WriteEvent)
      (time : ℕ) (rest : Bytes)
      → (handle_request q draws (codes "REVOKE " ++ id) first).0 ≡ some (codes "OK\n")
      → All (λ (e : Event). ¬ Activates id e) events
      → valid_device_id id ≡ true
      → peer_allowed allow_uid uid ≡ true
      → stream reads ≡ status_line id ++ b'\n' ∷ rest
      → 24 ≤ offered writes
      → let w = run_events hmac q events (handle_request q draws (codes "REVOKE " ++ id) first).1 in
        (serve hmac q dummy_key allow_uid uid reads writes time w).0 ≡ some (codes "INACTIVE\n")
  revoked_sessions_end draws first events dummy_key allow_uid uid reads writes time rest revoked
        calm valid allowed sent enough =
      let after = (handle_request q draws (codes "REVOKE " ++ id) first).1 in
      let w = run_events hmac q events after in
      let (r, at) = revoked_row q laws draws id first revoked in
      let out = run_events-IsOut hmac q laws id events after calm (record {
        row = apply_change (set_status (pos 0)) r;
        at_id = at;
        inactive = pos-one r (apply_change (set_status (pos 0)) r) refl;
      }) in
      serve-status hmac q laws answers dummy_key id rest time w allow_uid uid reads writes valid
        allowed sent enough
      ∙ ap some (IsOut-text (laws.find w) id out)
