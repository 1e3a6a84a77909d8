-- ===== src/Keystore/Unchanged.antt =====
-- The functions of core/keystore.cpp that leave every row as it reads.
use x_auth.Base.{codes, ◌≡◌, ◌∙◌, Bool-cases, inl, inr}
use x_auth.Keystore.Sqlite.{read_only, read_write, table_info, select_all, Sqlite, SqliteLaws}
use x_auth.Keystore.Store.{has_column, migrate_keystore, list_devices}

module _ (q : Sqlite) (laws : SqliteLaws q) where
  -- Adding the column leaves every row as it reads.
  pub migrate_keystore-Unchanged : (w : q.World) → laws.find (migrate_keystore q w).1 ≡ laws.find w
  unfolding migrate_keystore
  migrate_keystore-Unchanged w =
      let w1 = (q.open_v2 read_write w).1 in
      let w2 = (q.prepare_v2 table_info w1).1 in
      let w3 = (q.step_table_info w2).1 in
      let opened = laws.find-open read_write w in
      let prepared = laws.find-prepare table_info w1 ∙ opened in
      let read = laws.find-table_info w2 ∙ prepared in
      elim (Bool-cases (q.open_v2 read_write w).0) [
        | inr shut ↦ rw shut opened
        | inl ready ↦ rw ready (elim (Bool-cases (q.prepare_v2 table_info w1).0) [
          | inr bad ↦ rw bad prepared
          | inl good ↦
              rw good (elim (Bool-cases (has_column (codes "Created") (q.step_table_info w2).0)) [
                | inl there ↦ rw there read
                | inr absent ↦ rw absent (laws.find-add_created w3 ∙ read)
              ])
        ])
      ]

  pub list_devices-Unchanged : (w : q.World) → laws.find (list_devices q w).1 ≡ laws.find w
  unfolding list_devices
  list_devices-Unchanged w =
      let w1 = (q.open_v2 read_only w).1 in
      let w2 = (q.prepare_v2 select_all w1).1 in
      let opened = laws.find-open read_only w in
      let prepared = laws.find-prepare select_all w1 ∙ opened in
      elim (Bool-cases (q.open_v2 read_only w).0) [
        | inr shut ↦ rw shut opened
        | inl ready ↦ rw ready (elim (Bool-cases (q.prepare_v2 select_all w1).0) [
          | inr bad ↦ rw bad prepared
          | inl good ↦ rw good (laws.find-all w2 ∙ prepared)
        ])
      ]
