-- ===== src/Admin/Revoke.antt =====
-- `REVOKE` of admin/main.cpp, and then a request to verifier/main.cpp.
use x_auth.Base.{
  ℕ, Bool, true, Bytes, codes, [], ◌∷◌, ◌++◌, Option, some, equal, equal_refl, break_at, ◌≡◌, ◌≢◌,
  refl, sym, ap, ◌∙◌, arith, some_inj, cons_inj,
}
use x_auth.Base.Int.{pos}
use x_auth.Keystore.Sqlite.{Row, Change, set_status, apply_change, Sqlite, SqliteLaws}
use x_auth.Keystore.Store.{Lookup, found, not_found, error, set_device_status}
use x_auth.Keystore.Update.{Table, UpdateResult, hit, set_device_status-UpdateResult}
use x_auth.Verifier.Check.{verify_code}
use x_auth.Verifier.Check.Sound.{verify_code_sound}
use x_auth.Admin.{ok_no, dispatch, handle_request}

ok_no-found : (l : Lookup) → ok_no l ≡ codes "OK\n" → l ≡ found
unfolding ok_no
ok_no-found found h = refl
ok_no-found not_found h = absurd (omega (arith, (cons_inj h).0))
ok_no-found error h = absurd (omega (arith, (cons_inj h).0))

-- Found means that the row was there, and now has the change.
UpdateResult-found :
    (valid : Bool) (id : Bytes) (c : Change) (before after : Table) (l : Lookup)
    → l ≡ found
    → UpdateResult valid id c before after l
    → (r : Row) × (before id ≡ some r) × (after id ≡ some (apply_change c r))
UpdateResult-found valid id c before after found e (hit r ok h rows) =
    (r, h, rw equal_refl at (rows id))
UpdateResult-found valid id c before after not_found e u = absurd (cc e)
UpdateResult-found valid id c before after error e u = absurd (cc e)

pub pos-one : (r : Row) (row : Row) → row ≡ apply_change (set_status (pos 0)) r → row.status ≢ pos 1
pos-one r row e active =
    let impossible : pos 0 ≡ pos 1 = sym (ap (λ (x : Row). x.status) e) ∙ active in cc impossible

module _ (q : Sqlite) (laws : SqliteLaws q) (draws : ℕ → ℕ → Option Bytes) where
  -- The reply `OK` comes from the update, and then the row of the ID is revoked.
  pub revoked_row :
      (id : Bytes) (w : q.World)
      → (handle_request q draws (codes "REVOKE " ++ id) w).0 ≡ some (codes "OK\n")
      → (r : Row) × (laws.find (handle_request q draws (codes "REVOKE " ++ id) w).1 id
          ≡ some (apply_change (set_status (pos 0)) r))
  unfolding handle_request dispatch break_at equal
  revoked_row [] w h = absurd (omega (arith, (cons_inj (some_inj h)).0))
  revoked_row (c ∷ s) w h =
      let id = c ∷ s in
      let (r, _, after) =
        UpdateResult-found _ id (set_status (pos 0)) (laws.find w)
          (laws.find (set_device_status q id (pos 0) w).1) (set_device_status q id (pos 0) w).0
          (ok_no-found _ (some_inj h)) (set_device_status-UpdateResult q laws id w (pos 0)) in
      (r, after)

  -- After `REVOKE id` was answered by `OK`, the verifier accepts no code for the ID, at any time.
  pub handle_request-revoked :
      (hmac : Bytes → Bytes → Option Bytes) (dummy_key id code : Bytes) (time m : ℕ) (w : q.World)
      → (handle_request q draws (codes "REVOKE " ++ id) w).0 ≡ some (codes "OK\n")
      → (verify_code hmac q dummy_key time id code
          (handle_request q draws (codes "REVOKE " ++ id) w).1).0
        ≢ some (true, m)
  handle_request-revoked hmac dummy_key id code time m w ok accepted =
      let (r, revoked) = revoked_row id w ok in
      let a =
        verify_code_sound hmac q laws dummy_key time id code
          (handle_request q draws (codes "REVOKE " ++ id) w).1 m accepted in
      pos-one r a.row (some_inj (sym a.registered.at_id ∙ revoked)) a.active
