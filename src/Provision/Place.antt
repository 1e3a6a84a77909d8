-- ===== src/Provision/Place.antt =====
-- The loop of `cmd_add` of tools/provision/main.cpp that draws IDs, in terms of the table.
use x_auth.Base.{
  ℕ, zero, suc, Bool, true, false, Bytes, Option, none, some, inl, inr, refl, ◌∙◌, Option-cases,
}
use x_auth.Keygen.{generate_device_id}
use x_auth.Keystore.Sqlite.{Sqlite, SqliteLaws}
use x_auth.Keystore.Store.{Device}
use x_auth.Keystore.Update.{Table}
use x_auth.Admin.{Attempt, placed, gave_up, next_id, attempt}
use x_auth.Admin.Add.{
  HasNewRow, HasNewRow-before, Unchanged, AttemptResult, put_in, no_answer, taken,
  attempt-AttemptResult,
}
use x_auth.Provision.{after_try, place_loop}

-- What the loop says of the table before and after it.
pub data PlaceResult (make : Bytes → Device) (before after : Table)
    : Option (Bool × Device) → Type 0 where
  in_table :
      (id : Bytes)
      → HasNewRow (make id) before after
      → PlaceResult make before after (some (true, make id))
  not_in : (d : Device) → Unchanged before after → PlaceResult make before after (some (false, d))
  threw : Unchanged before after → PlaceResult make before after none

PlaceResult-before :
    (make : Bytes → Device) (first before after : Table) (r : Option (Bool × Device))
    → Unchanged first before
    → PlaceResult make before after r
    → PlaceResult make first after r
PlaceResult-before make first before after _ same (in_table id new) =
    in_table id (HasNewRow-before (make id) first before after same new)
PlaceResult-before make first before after _ same (not_in d h) = not_in d (λ j. h j ∙ same j)
PlaceResult-before make first before after _ same (threw h) = threw (λ j. h j ∙ same j)

module _ (q : Sqlite) (laws : SqliteLaws q) where
  after_try-PlaceResult :
      (make : Bytes → Device) (id : Bytes) (before : Table) (tried : Attempt) (w : q.World)
      (later : Option (Bool × Device) × q.World)
      → AttemptResult (make id) before (laws.find w) tried
      → PlaceResult make (laws.find w) (laws.find later.1) later.0
      → PlaceResult make before
          (laws.find (after_try q (make id) (tried, w) later).1)
          (after_try q (make id) (tried, w) later).0
  unfolding after_try
  after_try-PlaceResult make id before placed w later (put_in new) next = in_table id new
  after_try-PlaceResult make id before gave_up w later (no_answer same) next = not_in (make id) same
  after_try-PlaceResult make id before next_id w later (taken same) next =
      PlaceResult-before make before (laws.find w) (laws.find later.1) later.0 same next

  module _ (draws : ℕ → ℕ → Option Bytes) where
    pub place_loop-PlaceResult :
        (len left call : ℕ) (d : Device) (w : q.World)
        → PlaceResult
            (λ id. record d { id = id })
            (laws.find w)
            (laws.find (place_loop q draws len left call d w).1)
            (place_loop q draws len left call d w).0
    unfolding place_loop
    place_loop-PlaceResult len zero call d w = not_in d (λ j. refl)
    place_loop-PlaceResult len (suc left) call d w =
        elim (Option-cases (generate_device_id (draws call) len)) [
          | inl failed ↦ rw (place_loop, failed) (threw (λ j. refl))
          | inr (id, drawn) ↦
              let d' : Device = record d { id = id } in
              let tried = attempt q d' w in
              rw (place_loop, drawn)
                (after_try-PlaceResult (λ i. record d { id = i }) id (laws.find w) tried.0 tried.1
                  (place_loop q draws len left (suc call) d' tried.1)
                  (attempt-AttemptResult q laws d' w)
                  (place_loop-PlaceResult len left (suc call) d' tried.1))
        ]
