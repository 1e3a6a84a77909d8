-- ===== src/Provision/Add.antt =====
-- `cmd_add` of tools/provision/main.cpp, in terms of the table and the header file.
use x_auth.Base.{
  ℕ, Bool, true, false, ◌||◌, Bytes, codes, [], ◌∷◌, ◌++◌, Option, none, some, ==_iff,
  if◌then◌else◌, equal, equal_refl, length, take-eq_self, ◌≡◌, ◌≢◌, ◌⊎◌, inl, inr, refl, sym, ap,
  ◌∙◌, arith, Bool-cases, Option-cases, some_inj,
}
use x_auth.Base.Int.{pos, lt_ℤ, pos_part}
use x_auth.Keygen.{generate_key, valid_label, firmware_header}
use x_auth.Keystore.Id.{valid_device_id, device_id_min, device_id_max}
use x_auth.Keystore.Sqlite.{Row, set_status, apply_change, Sqlite, SqliteLaws}
use x_auth.Keystore.Store.{Device, default_device, Lookup, error, set_device_status}
use x_auth.Keystore.Update.{
  Table, UpdateResult, hit, malformed, missing, fault, set_device_status-UpdateResult,
}
use x_auth.Keystore.Insert.{row_of}
use x_auth.Admin.Add.{HasNewRow, Unchanged}
use x_auth.Provision.Place.{PlaceResult, in_table, not_in, threw, place_loop-PlaceResult}
use x_auth.Provision.{
  FileEvent, open_failed, write_failed, wrote, write_firmware_header, Outcome, exits, AddOptions,
  finish, place_loop, after_loop, add,
}

-- A header that was written is the whole text.
write_firmware_header-whole :
    (event : FileEvent) (d : Device)
    → (write_firmware_header event d).0 ≡ true
    → (write_firmware_header event d).1 ≡ some (firmware_header d.id d.key)
unfolding write_firmware_header
write_firmware_header-whole open_failed d h = cc h
write_firmware_header-whole write_failed d h = cc h
write_firmware_header-whole (wrote n) d h =
    let full : n ≡ length (firmware_header d.id d.key) = (==_iff _ _).0 h in
    ap some (take-eq_self n (firmware_header d.id d.key) (omega arith))

-- The new row, but revoked.
pub record HasRevokedRow (d : Device) (before after : Table) : Type 0 where
  pub now : Bytes
  pub valid : valid_device_id d.id ≡ true
  pub free : before d.id ≡ none
  pub rows :
      (j : Bytes)
      → after j ≡ (
          if equal d.id j
          then some (apply_change (set_status (pos 0)) (row_of d now))
          else before j)

HasNewRow-after :
    (d : Device) (before mid after : Table)
    → HasNewRow d before mid
    → Unchanged mid after
    → HasNewRow d before after
HasNewRow-after d before mid after new same = record {
  now = new.now;
  valid = new.valid;
  free = new.free;
  rows = λ j. same j ∙ new.rows j;
}

new_row :
    (d : Device) (before mid : Table) (new : HasNewRow d before mid)
    → mid d.id ≡ some (row_of d new.now)
new_row d before mid new = rw equal_refl at (new.rows d.id)

-- Revoking the row that was just made.
revoke-HasNewRow :
    (valid : Bool) (d : Device) (before mid after : Table) (l : Lookup)
    → valid ≡ true
    → HasNewRow d before mid
    → UpdateResult valid d.id (set_status (pos 0)) mid after l
    → HasRevokedRow d before after ⊎ ((l ≡ error) × HasNewRow d before after)
revoke-HasNewRow valid d before mid after _ v new (hit r _ at rows) = inl (record {
  now = new.now;
  valid = new.valid;
  free = new.free;
  rows = λ j. elim (Bool-cases (equal d.id j)) [
    | inl same ↦
        let e : r ≡ row_of d new.now = some_inj (sym at ∙ new_row d before mid new) in
        rw same
          ((rw same at (rows j)) ∙ ap (λ (x : Row). some (apply_change (set_status (pos 0)) x)) e)
    | inr other ↦ rw other ((rw other at (rows j)) ∙ (rw other at (new.rows j)))
  ];
})
revoke-HasNewRow valid d before mid after _ v new (malformed bad _) = absurd (cc (v, bad))
revoke-HasNewRow valid d before mid after _ v new (missing _ absent _) =
    absurd (cc (absent, new_row d before mid new))
revoke-HasNewRow valid d before mid after _ v new (fault same) =
    inr (refl, HasNewRow-after d before mid after new same)

module _ (q : Sqlite) (laws : SqliteLaws q) where
  -- How the command may end; `make` is the device with a given ID, `header` the path of the header.
  pub data AddEnd (make : Bytes → Device) (header : Bytes) (before after : Table)
      : Outcome → Type 0 where
    printed :
        (id : Bytes)
        → header ≡ []
        → HasNewRow (make id) before after
        → AddEnd make header before after
            (record { status = 0; out = (make id).id ++ codes "\n"; file = none })
    flashed :
        (id : Bytes)
        → header ≢ []
        → HasNewRow (make id) before after
        → AddEnd make header before after (record {
          status = 0;
          out = (make id).id ++ codes "\n";
          file = some (firmware_header (make id).id (make id).key);
        })
    revoked :
        (id : Bytes) (file : Option Bytes)
        → header ≢ []
        → HasRevokedRow (make id) before after
        → AddEnd make header before after (record { status = 1; out = []; file = file })
    left_active :
        (id : Bytes) (file : Option Bytes) (w : q.World)
        → header ≢ []
        → (set_device_status q (make id).id (pos 0) w).0 ≡ error
        → HasNewRow (make id) before after
        → AddEnd make header before after (record { status = 1; out = []; file = file })
    nothing : Unchanged before after → AddEnd make header before after (exits 1)

  finish-AddEnd :
      (event : FileEvent) (header : Bytes) (make : Bytes → Device) (id : Bytes) (before : Table)
      (w : q.World)
      → HasNewRow (make id) before (laws.find w)
      → AddEnd make header before
          (laws.find (finish q event header (true, make id) w).1)
          (finish q event header (true, make id) w).0
  unfolding finish
  finish-AddEnd event [] make id before w new = printed id refl new
  finish-AddEnd event (c ∷ path) make id before w new =
      let d = make id in
      let (ok, file) = write_firmware_header event d in
      elim (Bool-cases ok) [
        | inl whole ↦
            rw (whole, write_firmware_header-whole event d whole) (flashed id (λ e. cc e) new)
        | inr broken ↦
            let (l, w') = set_device_status q d.id (pos 0) w in
            rw broken
              (elim (revoke-HasNewRow (valid_device_id d.id) d before (laws.find w) (laws.find w') l
                new.valid new (set_device_status-UpdateResult q laws d.id w (pos 0))) [
                  | inl row ↦ revoked id file (λ e. cc e) row
                  | inr (failed, row) ↦ left_active id file w (λ e. cc e) failed row
                ])
      ]

  module _ (draws : ℕ → ℕ → Option Bytes) where
    after_loop-AddEnd :
        (event : FileEvent) (header : Bytes) (make : Bytes → Device) (before : Table)
        (r : Option (Bool × Device)) (w : q.World)
        → PlaceResult make before (laws.find w) r
        → AddEnd make header before
            (laws.find (after_loop q draws event header (r, w)).1)
            (after_loop q draws event header (r, w)).0
    unfolding after_loop finish
    after_loop-AddEnd event header make before _ w (in_table id new) =
        finish-AddEnd event header make id before w new
    after_loop-AddEnd event header make before _ w (not_in d same) = nothing same
    after_loop-AddEnd event header make before _ w (threw same) = nothing same

    -- The device that the command makes from a key, a label and an ID.
    abbrev pub new_device : Bytes → Bytes → Bytes → Device
    new_device label key id = record default_device {
      id = id;
      key = key;
      status = pos 1;
      note = label;
    }

    pub data AddResult (o : AddOptions) (before after : Table) : Outcome → Type 0 where
      refused :
          (valid_label o.label ≡ false)
            ⊎ (lt_ℤ o.id_length (pos device_id_min) || lt_ℤ (pos device_id_max) o.id_length ≡ true)
          → Unchanged before after
          → AddResult o before after (exits 2)
      no_key :
          generate_key (draws 0) ≡ none
          → Unchanged before after
          → AddResult o before after (exits 1)
      tried :
          (r : Outcome) (key : Bytes)
          → generate_key (draws 0) ≡ some key
          → AddEnd (new_device o.label key) o.header before after r
          → AddResult o before after r

    -- With status 0 the new row is in the table, active, with the key that was drawn, and the header
    -- file, if one was asked for, holds the whole text of that ID and key. Any other status
    -- leaves the table as it was, but for one case: the row was made and the header was not written.
    -- Then the row is revoked, or the update that revokes it failed and the row is active.
    pub add-AddResult :
        (event : FileEvent) (o : AddOptions) (w : q.World)
        → AddResult o (laws.find w) (laws.find (add q draws event o w).1) (add q draws event o w).0
    unfolding add
    add-AddResult event o w = elim (Bool-cases (valid_label o.label)) [
      | inr bad ↦ rw bad (refused (inl bad) (λ j. refl))
      | inl good ↦
          rw good
            (elim (Bool-cases
              (lt_ℤ o.id_length (pos device_id_min) || lt_ℤ (pos device_id_max) o.id_length)) [
                | inl out ↦ rw out (refused (inr out) (λ j. refl))
                | inr fits ↦ elim (Option-cases (generate_key (draws 0))) [
                  | inl failed ↦ rw (add, fits, failed) (no_key failed (λ j. refl))
                  | inr (key, drawn) ↦
                      let d : Device = record default_device {
                        status = pos 1;
                        note = o.label;
                        key = key;
                      } in
                      let looped = place_loop q draws (pos_part o.id_length) 16 1 d w in
                      rw (add, fits, drawn)
                        (tried _ key drawn (
                          after_loop-AddEnd event o.header (new_device o.label key) (laws.find w)
                            looped.0 looped.1
                            (place_loop-PlaceResult q laws draws (pos_part o.id_length) 16 1 d w)))
                ]
              ])
    ]
