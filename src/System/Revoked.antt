-- ===== src/System/Revoked.antt =====
-- A device that was revoked, until somebody activates it.
use x_auth.Base.{
  ℕ, Bytes, codes, List, [], ◌∷◌, subst, ◌++◌, Option, some, All, All-every, ◌≡◌, ◌≢◌, refl, sym,
  ap, ◌∙◌, some_inj,
}
use x_auth.Base.Int.{ℤ, pos}
use x_auth.Keystore.Sqlite.{Row, Sqlite, SqliteLaws, set_status, apply_change}
use x_auth.Keystore.Calls.{status}
use x_auth.Keystore.Calls.Revoked.{IsOut, Spares, Run-IsOut}
use x_auth.Socket.{ReadEvent, WriteEvent}
use x_auth.Admin.{handle_request}
use x_auth.Admin.Calls.{Adds}
use x_auth.Admin.Revoke.{pos-one, revoked_row}
use x_auth.Verifier.Serve.{serve, Served, serve-Served}
use x_auth.System.{Event, draws_of, Activates, run_events, Permits, run_events-Run}

module _ (hmac : Bytes → Bytes → Option Bytes) (q : Sqlite) (laws : SqliteLaws q) (id : Bytes) where
  permits : Permits hmac q (Spares id)
  permits = record {
    finds = λ i out. λ e. cc e;
    lists = λ e. cc e;
    migrates = λ e. cc e;
    revokes = λ i. λ e. cc e;
    notes = λ i label h. λ e. cc e;
  }

  spared :
      (events : List Event)
      → All (λ (e : Event). ¬ Activates id e) events
      → All (λ (e : Event). (i : Bytes) → Activates i e → Spares id (status i (pos 1))) events
  spared [] calm = tt
  spared (e ∷ events) calm = (
    (λ i asked same.
        let other : i ≡ id = cc same in calm.0 (subst (λ (j : Bytes). Activates j e) other asked)),
    spared events calm.1,
  )

  pub run_events-IsOut :
      (events : List Event) (w : q.World)
      → All (λ (e : Event). ¬ Activates id e) events
      → IsOut (laws.find w) id
      → IsOut (laws.find (run_events hmac q events w)) id
  run_events-IsOut events w calm out = Run-IsOut q laws id w (run_events hmac q events w) out (
      run_events-Run hmac q (Spares id) permits events w
        (All-every (λ (e : Event). Adds q (Spares id) permits.finds (draws_of e))
          (λ e. λ i key label made good. λ same. cc same) events)
        (spared events calm))

  -- After `REVOKE id` was answered by `OK`, and whatever the programs did then without activating the ID:
  -- what the verifier lets in, at any time and over any connection, has another ID.
  pub revoked_stays_out :
      (draws : ℕ → ℕ → Option Bytes) (first : q.World) (events : List Event) (dummy_key : Bytes)
      (allow_uid : ℤ) (uid : Option ℕ) (reads : List ReadEvent) (writes : List WriteEvent)
      (time : ℕ) (rest : Bytes)
      → (handle_request q draws (codes "REVOKE " ++ id) first).0 ≡ some (codes "OK\n")
      → All (λ (e : Event). ¬ Activates id e) events
      → let w = run_events hmac q events (handle_request q draws (codes "REVOKE " ++ id) first).1 in
        (serve hmac q dummy_key allow_uid uid reads writes time w).0 ≡ some (b'O' ∷ rest)
        → (s : Served hmac (laws.find w) time reads (b'O' ∷ rest)) × (s.granted.id ≢ id)
  revoked_stays_out draws first events dummy_key allow_uid uid reads writes time rest revoked calm
        ok =
      let after = (handle_request q draws (codes "REVOKE " ++ id) first).1 in
      let w = run_events hmac q events after in
      let (r, at) = revoked_row q laws draws id first revoked in
      let out = run_events-IsOut events after calm (record {
        row = apply_change (set_status (pos 0)) r;
        at_id = at;
        inactive = pos-one r (apply_change (set_status (pos 0)) r) refl;
      }) in
      let (_, s) = serve-Served hmac q laws dummy_key reads writes time rest w allow_uid uid ok in
      let a = s.granted.authentic in
      (
        s,
        (λ same. out.inactive (
            ap (λ (x : Row). x.status)
              (some_inj (sym out.at_id ∙ ap (laws.find w) (sym same) ∙ a.registered.at_id))
            ∙ a.active)),
      )
