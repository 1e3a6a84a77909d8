-- ===== src/System/Ids.antt =====
-- The IDs that `ADD` of admin/main.cpp gives.
use x_auth.Base.{
  ℕ, Bytes, codes, List, ◌∷◌, ◌++◌, Option, none, some, equal_refl, break_at, equal, c_str, ◌≡◌,
  ◌≢◌, refl, ap, ◌∙◌, arith, some_inj, cons_inj,
}
use x_auth.Keystore.Sqlite.{Row, Sqlite, SqliteLaws}
use x_auth.Keystore.Insert.{row_of}
use x_auth.Keystore.Update.{Table}
use x_auth.Keystore.Calls.Keeps.{StillHas, Run-StillHas}
use x_auth.Admin.{reply_added, dispatch, handle_add, handle_request}
use x_auth.Admin.Add.{
  AddResult, created, refused, threw, AddAnswer, bad_label, no_key, tried, new_device,
  handle_add-AddAnswer,
}
use x_auth.Admin.Calls.{handle_request-Run}
use x_auth.System.{Event, run_events}
use x_auth.System.Keys.{run_events-StillHas}

-- What an `ADD` told: the ID, which had no row before and has one now, with the key.
pub record Gave (reply : Bytes) (before after : Table) : Type 0 where
  pub id : Bytes
  pub key : Bytes
  pub row : Row
  pub told : reply ≡ reply_added id key
  pub free : before id ≡ none
  pub at_id : after id ≡ some row
  pub at_key : row.key ≡ some (c_str key)

module _ (q : Sqlite) (laws : SqliteLaws q) (draws : ℕ → ℕ → Option Bytes) where
  AddResult-Gave :
      (label key rest : Bytes) (before after : Table) (reply : Option Bytes)
      → AddResult (new_device q laws draws label key) before after reply
      → reply ≡ some (b'O' ∷ rest)
      → Gave (b'O' ∷ rest) before after
  AddResult-Gave label key rest before after _ (created id new) e = rw (← some_inj e) (record {
    id = id;
    key = key;
    row = row_of (new_device q laws draws label key id) new.now;
    told = refl;
    free = new.free;
    at_id = rw equal_refl at (new.rows id);
    at_key = refl;
  })
  AddResult-Gave label key rest before after _ (refused _) e =
      absurd (omega (arith, (cons_inj (some_inj e)).0))
  AddResult-Gave label key rest before after _ (threw _) e = absurd (cc e)

  AddAnswer-Gave :
      (label rest : Bytes) (before after : Table) (reply : Option Bytes)
      → AddAnswer q laws draws label before after reply
      → reply ≡ some (b'O' ∷ rest)
      → Gave (b'O' ∷ rest) before after
  AddAnswer-Gave label rest before after _ (bad_label _ _) e =
      absurd (omega (arith, (cons_inj (some_inj e)).0))
  AddAnswer-Gave label rest before after _ (no_key _ _) e = absurd (cc e)
  AddAnswer-Gave label rest before after _ (tried reply key ok made added) e =
      AddResult-Gave label key rest before after reply added e

  -- An answer to `ADD` that begins with O.
  pub handle_request-Gave :
      (label rest : Bytes) (w : q.World)
      → (handle_request q draws (codes "ADD " ++ label) w).0 ≡ some (b'O' ∷ rest)
      → Gave
          (b'O' ∷ rest)
          (laws.find w)
          (laws.find (handle_request q draws (codes "ADD " ++ label) w).1)
  unfolding handle_request dispatch break_at equal
  handle_request-Gave label rest w told =
      AddAnswer-Gave label rest (laws.find w) (laws.find (handle_add q draws label w).1)
        (handle_add q draws label w).0 (handle_add-AddAnswer q laws draws label w) told

-- Two devices that were told, one after the other; the keystore has both, each with its own key.
pub record Distinct (first second : Bytes) (t : Table) : Type 0 where
  pub id : Bytes
  pub key : Bytes
  pub other_id : Bytes
  pub other_key : Bytes
  pub told : first ≡ reply_added id key
  pub other_told : second ≡ reply_added other_id other_key
  pub row : Row
  pub other_row : Row
  pub differ : id ≢ other_id
  pub at_id : t id ≡ some row
  pub at_other : t other_id ≡ some other_row
  pub at_key : row.key ≡ some (c_str key)
  pub at_other_key : other_row.key ≡ some (c_str other_key)

-- A single request takes nothing away.
request_keeps :
    (q : Sqlite) (laws : SqliteLaws q) (draws : ℕ → ℕ → Option Bytes) (line id : Bytes) (r : Row)
    (w : q.World)
    → laws.find w id ≡ some r
    → StillHas (laws.find (handle_request q draws line w).1) id r
request_keeps q laws draws line id r w at =
    Run-StillHas q laws (λ c. Unit) id r w (handle_request q draws line w).1 at
      (handle_request-Run q (λ c. Unit) (λ i out. tt) draws tt (λ i key label made good. tt)
        (λ i. tt) (λ i label h. tt) line w (λ i h. tt))

module _ (hmac : Bytes → Bytes → Option Bytes) (q : Sqlite) (laws : SqliteLaws q) where
  -- If two `ADD`s are answered by lines that begin with O, with any sequence of admin connections and
  -- starts, runs of the tools and logins between them, the lines are `OK id key` with two different
  -- IDs, and after the second the keystore has a row for each, with the key that its line told.
  pub added_ids_differ :
      (draws other_draws : ℕ → ℕ → Option Bytes) (label other_label : Bytes) (events : List Event)
      (rest other_rest : Bytes) (w : q.World)
      → (handle_request q draws (codes "ADD " ++ label) w).0 ≡ some (b'O' ∷ rest)
      → let between =
          run_events hmac q events (handle_request q draws (codes "ADD " ++ label) w).1 in
        (handle_request q other_draws (codes "ADD " ++ other_label) between).0
          ≡ some (b'O' ∷ other_rest)
        → Distinct
            (b'O' ∷ rest)
            (b'O' ∷ other_rest)
            (laws.find (handle_request q other_draws (codes "ADD " ++ other_label) between).1)
  added_ids_differ draws other_draws label other_label events rest other_rest w told other_told =
      let w1 = (handle_request q draws (codes "ADD " ++ label) w).1 in
      let g = handle_request-Gave q laws draws label rest w told in
      let g' =
        handle_request-Gave q laws other_draws other_label other_rest (run_events hmac q events w1)
          other_told in
      let kept = run_events-StillHas hmac q laws events g.id g.row w1 g.at_id in
      let end =
        request_keeps q laws other_draws (codes "ADD " ++ other_label) g.id kept.row
          (run_events hmac q events w1) kept.at_id in
      record {
        id = g.id;
        key = g.key;
        other_id = g'.id;
        other_key = g'.key;
        told = g.told;
        other_told = g'.told;
        row = end.row;
        other_row = g'.row;
        differ = λ e. cc (ap (laws.find (run_events hmac q events w1)) e, kept.at_id, g'.free);
        at_id = end.at_id;
        at_other = g'.at_id;
        at_key = end.same_key ∙ kept.same_key ∙ g.at_key;
        at_other_key = g'.at_key;
      }
