-- ===== src/Provision/Results.antt =====
-- What a run of the tool of tools/provision/main.cpp says, by its arguments.
use x_auth.Base.{
  ℕ, true, false, ◌&&◌, Bytes, codes, List, [], ◌∷◌, Option, none, some, if◌then◌else◌, equal,
  c_str, ◌++◌, ◌≡◌, ◌≢◌,
}
use x_auth.Base.Int.{ℤ, pos}
use x_auth.Keygen.{valid_label}
use x_auth.Keystore.Id.{valid_device_id}
use x_auth.Keystore.Sqlite.{Change, set_status, set_note, Sqlite, SqliteLaws}
use x_auth.Keystore.Store.{Device, Lookup, list_devices, migrate_keystore}
use x_auth.Keystore.Update.{Table, UpdateResult}
use x_auth.Admin.Add.{Unchanged}
use x_auth.Provision.{Outcome, exits, report, device_rows, title_row, AddOptions, add_defaults}
use x_auth.Provision.Add.{AddResult}
use x_auth.Provision.Args.{AddArgs}

-- The row, the change and the word for success that the arguments of a run ask for.
abbrev pub row_update : Bytes → Bytes → Option (Bytes × Change × Bytes)
row_update cmd id =
    if equal cmd (codes "revoke")
    then some (id, set_status (pos 0), codes "revoked")
    else if equal cmd (codes "activate")
    then some (id, set_status (pos 1), codes "active")
    else none

abbrev pub label_update : Bytes → Bytes → Bytes → Option (Bytes × Change × Bytes)
label_update cmd id text =
    if equal cmd (codes "label") && valid_label text
    then some (id, set_note (c_str text), codes "relabelled")
    else none

abbrev pub update_of : List Bytes → Option (Bytes × Change × Bytes)
update_of (cmd ∷ id ∷ []) = row_update cmd id
update_of (cmd ∷ id ∷ text ∷ []) = label_update cmd id text
update_of argv = none

module _ (stoi : Bytes → Option ℤ) where
  -- Arguments that ask for nothing: `add` with options that do not parse, or none of the commands with
  -- the arguments that it takes.
  pub data IsMisuse : List Bytes → Type 0 where
    bad_add :
        (args : List Bytes)
        → ¬ ((o : AddOptions) × AddArgs stoi args add_defaults o)
        → IsMisuse (codes "add" ∷ args)
    unknown :
        (cmd : Bytes) (args : List Bytes)
        → cmd ≢ codes "add"
        → cmd ∷ args ≢ codes "list" ∷ []
        → update_of (cmd ∷ args) ≡ none
        → IsMisuse (cmd ∷ args)

module _ (q : Sqlite) (laws : SqliteLaws q) where
  module _ (draws : ℕ → ℕ → Option Bytes) (stoi : Bytes → Option ℤ) where
    -- What a command says of the table before and after it, on a keystore that is ready.
    pub data CommandResult (start : q.World) (before after : Table)
        : List Bytes → Outcome → Type 0 where
      adds :
          (args : List Bytes) (o : AddOptions) (r : Outcome)
          → AddArgs stoi args add_defaults o
          → AddResult q laws draws o before after r
          → CommandResult start before after (codes "add" ∷ args) r
      updates :
          (argv : List Bytes) (id word : Bytes) (c : Change) (l : Lookup)
          → update_of argv ≡ some (id, c, word)
          → UpdateResult (valid_device_id id) id c before after l
          → CommandResult start before after argv (report l id word)
      lists :
          (devices : List Device)
          → (list_devices q start).0 ≡ (true, devices)
          → Unchanged before after
          → CommandResult start before after
              (codes "list" ∷ [])
              (record { status = 0; out = title_row ++ device_rows devices; file = none })
      list_failed :
          (list_devices q start).0.0 ≡ false
          → Unchanged before after
          → CommandResult start before after (codes "list" ∷ []) (exits 1)
      misused :
          (argv : List Bytes)
          → IsMisuse stoi argv
          → Unchanged before after
          → CommandResult start before after argv (exits 2)

    -- What a run of the tool says.
    pub data MainResult (first : q.World) (before after : Table)
        : List Bytes → Outcome → Type 0 where
      no_command : Unchanged before after → MainResult first before after [] (exits 2)
      unready :
          (cmd : Bytes) (args : List Bytes)
          → (migrate_keystore q first).0 ≡ false
          → Unchanged before after
          → MainResult first before after (cmd ∷ args) (exits 1)
      ready :
          (cmd : Bytes) (args : List Bytes) (r : Outcome)
          → (migrate_keystore q first).0 ≡ true
          → CommandResult (migrate_keystore q first).1 before after (cmd ∷ args) r
          → MainResult first before after (cmd ∷ args) r
