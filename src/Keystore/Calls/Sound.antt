-- ===== src/Keystore/Calls/Sound.antt =====
-- Rows that can log in, under calls with sound arguments.
use x_auth.Base.{
  true, Bytes, some, if◌then◌else◌, equal, equal_iff, length, Lacks, c_str, c_str-Lacks, ◌≡◌, ◌⊎◌,
  sym, ap, ◌∙◌, Bool-cases, inl, inr, subst, some_inj,
}
use x_auth.Base.Int.{ℤ, pos}
use x_auth.Keygen.{valid_label}
use x_auth.Keygen.Labels.{valid_label-Lacks}
use x_auth.Keystore.Id.{valid_device_id}
use x_auth.Keystore.Sqlite.{Row, Sqlite, SqliteLaws}
use x_auth.Keystore.Insert.{row_of}
use x_auth.Keystore.Update.{Table}
use x_auth.Keystore.Calls.{Call, find, add, status, note, list, migrate, perform, Run, Run-keeps}
use x_auth.Keystore.Calls.Keeps.{Effect, nothing, new_status, new_note, new_row, perform-Effect}

abbrev pub IsStatus : ℤ → Type 0
IsStatus s = (s ≡ pos 0) ⊎ (s ≡ pos 1)

-- A valid ID, a key of 128 characters and no NUL, a valid label, and one of the two statuses.
pub record IsSound (id : Bytes) (r : Row) : Type 0 where
  pub valid : valid_device_id id ≡ true
  pub key : Bytes
  pub at_key : r.key ≡ some key
  pub full : length key ≡ 128
  pub text : Lacks 0 key
  pub label : Bytes
  pub at_note : r.note ≡ some label
  pub good_label : valid_label label ≡ true
  pub known : IsStatus r.status

abbrev pub IsSoundTable : Table → Type 0
IsSoundTable t = (id : Bytes) (r : Row) → t id ≡ some r → IsSound id r

-- The arguments that give such rows.
abbrev pub IsSoundCall : Call → Type 0
IsSoundCall (find id out) = Unit
IsSoundCall (add d) =
    (length d.key ≡ 128) × Lacks 0 d.key × (valid_label d.note ≡ true) × IsStatus d.status
IsSoundCall (status id s) = IsStatus s
IsSoundCall (note id n) = valid_label n ≡ true
IsSoundCall list = Unit
IsSoundCall migrate = Unit

replaced-IsSound :
    (before after : Table) (changed_id : Bytes) (new : Row)
    → IsSound changed_id new
    → IsSoundTable before
    → ((j : Bytes) → after j ≡ (if equal changed_id j then some new else before j))
    → IsSoundTable after
replaced-IsSound before after changed_id new sound all rows j r at =
    elim (Bool-cases (equal changed_id j)) [
      | inr other ↦ all j r (sym (rw other at (rows j)) ∙ at)
      | inl hit_it ↦
          let same_row : new ≡ r = some_inj (sym (rw hit_it at (rows j)) ∙ at) in
          subst (λ (i : Bytes). IsSound i r) ((equal_iff changed_id j).0 hit_it)
            (subst (λ (x : Row). IsSound changed_id x) same_row sound)
    ]

c_str-valid_label : (s : Bytes) → valid_label s ≡ true → c_str s ≡ s
c_str-valid_label s h = c_str-Lacks s (valid_label-Lacks s h).0

Effect-IsSoundTable :
    (before after : Table) (c : Call)
    → IsSoundCall c
    → Effect before after c
    → IsSoundTable before
    → IsSoundTable after
Effect-IsSoundTable before after c p (nothing _ same) all =
    λ j. λ r. λ at. all j r (sym (same j) ∙ at)
Effect-IsSoundTable before after _ p (new_status i s old at rows) all =
    replaced-IsSound before after i _
      (let was = all i old at in
        record {
          valid = was.valid;
          key = was.key;
          at_key = was.at_key;
          full = was.full;
          text = was.text;
          label = was.label;
          at_note = was.at_note;
          good_label = was.good_label;
          known = p;
        })
      all rows
Effect-IsSoundTable before after _ p (new_note i n old at rows) all =
    replaced-IsSound before after i _
      (let was = all i old at in
        record {
          valid = was.valid;
          key = was.key;
          at_key = was.at_key;
          full = was.full;
          text = was.text;
          label = n;
          at_note = ap some (c_str-valid_label n p);
          good_label = p;
          known = was.known;
        })
      all rows
Effect-IsSoundTable before after _ p (new_row d now valid free rows) all =
    replaced-IsSound before after d.id (row_of d now)
      (record {
        valid = valid;
        key = d.key;
        at_key = ap some (c_str-Lacks d.key p.1);
        full = p.0;
        text = p.1;
        label = d.note;
        at_note = ap some (c_str-valid_label d.note p.2);
        good_label = p.2;
        known = p.3;
      })
      all rows

module _ (q : Sqlite) (laws : SqliteLaws q) where
  pub Run-IsSoundTable :
      (w v : q.World)
      → IsSoundTable (laws.find w)
      → Run q IsSoundCall w v
      → IsSoundTable (laws.find v)
  Run-IsSoundTable w v all run =
      Run-keeps q (λ (u : q.World). IsSoundTable (laws.find u))
        (λ c u p h.
          Effect-IsSoundTable (laws.find u) (laws.find (perform q c u)) c p
            (perform-Effect q laws c u) h)
        all run
