-- ===== src/System/Entries.antt =====
-- What a whole listing of the keystore has in it.
use x_auth.Base.{
  true, Bytes, List, [], ◌∷◌, Option, none, some, All, map, ◌≡◌, ◌⊎◌, inl, inr, refl, sym, ap, ◌∙◌,
  some_inj, c_str, c_str-Lacks,
}
use x_auth.Keygen.Labels.{valid_label-Lacks}
use x_auth.Keystore.Sqlite.{Listed, Row, Sqlite, SqliteLaws}
use x_auth.Keystore.Store.{collect, device_of_listed, column_text}
use x_auth.Keystore.Find.{c_str-valid}
use x_auth.Keystore.Update.{Table}
use x_auth.Keystore.Calls.Sound.{IsSoundTable}
use x_auth.Admin.Dates.Listing.{Entry, entry, active_status}
use x_auth.System.Stamps.{IsCreated, IsStampedTable}

-- `COALESCE(Created, '')`.
abbrev pub or_empty : Option Bytes → Bytes
or_empty none = []
or_empty (some t) = t

-- A listed row stands in the table.
pub record IsRowOf (t : Table) (l : Listed) : Type 0 where
  pub row : Row
  pub at_id : t l.id ≡ some row
  pub same_status : l.status ≡ row.status
  pub same_note : l.note ≡ row.note
  pub same_created : l.created ≡ or_empty row.created

abbrev pub Has : {A : Type 0} → A → List A → Type 0
Has a [] = ⊥
Has a (x ∷ xs) = (x ≡ a) ⊎ Has a xs

-- What is documented of the query: the rows that it gives stand in the table.
abbrev pub ListsRows : (q : Sqlite) → SqliteLaws q → Type 0
ListsRows q laws = (w : q.World) → All (IsRowOf (laws.find w)) (q.step_all w).0

-- If the query runs to its end, the ID of every row of the table is among those that it gave.
abbrev pub IsComplete : (q : Sqlite) → SqliteLaws q → q.World → Type 0
IsComplete q laws v =
    (q.step_all v).1 ≡ true
    → (id : Bytes) (r : Row) → laws.find v id ≡ some r
    → Has id (map (λ (l : Listed). l.id) (q.step_all v).0)

-- The entry that stands for a row.
abbrev pub entry_of : Bytes → Row → Entry
entry_of id r = record {
  id = id;
  active = active_status r.status;
  created = or_empty r.created;
  label = or_empty r.note;
}

-- Entries that are the rows of the table: every row has its entry, and every entry is that of a row.
pub record ListsTable (t : Table) (es : List Entry) : Type 0 where
  pub every : (id : Bytes) (r : Row) → t id ≡ some r → Has (entry_of id r) es
  pub only : All (λ (e : Entry). (r : Row) × (t e.id ≡ some r) × (e ≡ entry_of e.id r)) es

-- A row that is listed, with what is read of it.
pub record IsTrueEntry (t : Table) (l : Listed) : Type 0 where
  pub row : Row
  pub at_id : t l.id ≡ some row
  pub shown : entry (device_of_listed l) ≡ entry_of l.id row

created-whole : (o : Option Bytes) → IsCreated o → c_str (or_empty o) ≡ or_empty o
unfolding c_str
created-whole none h = refl
created-whole (some t) h = c_str-Lacks t h.1

listed-IsTrueEntry :
    (t : Table) (l : Listed) → IsRowOf t l → IsSoundTable t → IsStampedTable t → IsTrueEntry t l
unfolding column_text
listed-IsTrueEntry t l h sound stamped =
    let s = sound l.id h.row h.at_id in
    let label_text = valid_label-Lacks s.label s.good_label in
    let whole_id : c_str l.id ≡ l.id = c_str-valid l.id s.valid in
    let whole_note : column_text l.note ≡ or_empty h.row.note =
      ap column_text (h.same_note ∙ s.at_note)
      ∙ c_str-Lacks s.label label_text.0
      ∙ sym (ap or_empty s.at_note) in
    let whole_created : c_str l.created ≡ or_empty h.row.created =
      ap c_str h.same_created ∙ created-whole h.row.created (stamped l.id h.row h.at_id) in
    record {
      row = h.row;
      at_id = h.at_id;
      shown = rw whole_id (rw whole_note (rw whole_created (rw h.same_status refl)));
    }

module _ (t : Table) where
  collect-every :
      (ls : List Listed) (id : Bytes) (r : Row)
      → All (IsTrueEntry t) ls
      → t id ≡ some r
      → Has id (map (λ (l : Listed). l.id) ls)
      → Has (entry_of id r) (map entry (collect ls))
  unfolding collect
  collect-every [] id r h at has = has
  collect-every (l ∷ ls) id r h at (inr later) = inr (collect-every ls id r h.1 at later)
  collect-every (l ∷ ls) id r h at (inl here) =
      let same_row : h.0.row ≡ r = some_inj (sym h.0.at_id ∙ ap t here ∙ at) in
      inl (h.0.shown ∙ ap (λ i. entry_of i h.0.row) here ∙ ap (entry_of id) same_row)

  collect-only :
      (ls : List Listed)
      → All (IsTrueEntry t) ls
      → All
          (λ (e : Entry). (r : Row) × (t e.id ≡ some r) × (e ≡ entry_of e.id r))
          (map entry (collect ls))
  unfolding collect
  collect-only [] h = tt
  collect-only (l ∷ ls) h =
      let same_id = ap (λ (e : Entry). e.id) h.0.shown in
      (
        (h.0.row, ap t same_id ∙ h.0.at_id, h.0.shown ∙ ap (λ i. entry_of i h.0.row) (sym same_id)),
        collect-only ls h.1,
      )

  -- The order is that of the query.
  pub collect-ids :
      (ls : List Listed)
      → All (IsTrueEntry t) ls
      → map (λ (e : Entry). e.id) (map entry (collect ls)) ≡ map (λ (l : Listed). l.id) ls
  unfolding collect
  collect-ids [] h = refl
  collect-ids (l ∷ ls) h =
      rw (ap (λ (e : Entry). e.id) h.0.shown) (ap (◌∷◌ l.id) (collect-ids ls h.1))

  all-IsTrueEntry :
      (ls : List Listed)
      → All (IsRowOf t) ls
      → IsSoundTable t
      → IsStampedTable t
      → All (IsTrueEntry t) ls
  all-IsTrueEntry [] h sound stamped = tt
  all-IsTrueEntry (l ∷ ls) h sound stamped =
      (listed-IsTrueEntry t l h.0 sound stamped, all-IsTrueEntry ls h.1 sound stamped)

  -- The devices of a query that gave the IDs of all rows.
  pub collect-ListsTable :
      (ls : List Listed)
      → All (IsRowOf t) ls
      → ((id : Bytes) (r : Row) → t id ≡ some r → Has id (map (λ (l : Listed). l.id) ls))
      → IsSoundTable t
      → IsStampedTable t
      → ListsTable t (map entry (collect ls))
        × (map (λ (e : Entry). e.id) (map entry (collect ls)) ≡ map (λ (l : Listed). l.id) ls)
  collect-ListsTable ls rows all sound stamped =
      let good = all-IsTrueEntry ls rows sound stamped in
      (
        record {
          every = λ id r at. collect-every ls id r good at (all id r at);
          only = collect-only ls good;
        },
        collect-ids ls good,
      )
