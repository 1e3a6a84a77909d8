-- ===== src/System/Listing.antt =====
-- A `LIST` to the admin daemon, of a keystore that the programs made.
use x_auth.Base.{
  ℕ, suc, ◌≤◌, true, Bytes, codes, List, [], ◌∷◌, Option, none, some, All, map, length, ◌≡◌, sym,
  ap, ◌∙◌, subst, c_str, c_str-Lacks, Bool-cases, inl, inr,
}
use x_auth.Base.Int.{ℤ}
use x_auth.Keygen.Labels.{valid_label-Lacks}
use x_auth.Keystore.Id.{valid_device_id-Lacks}
use x_auth.Keystore.Sqlite.{read_only, select_all, Listed, Sqlite, SqliteLaws}
use x_auth.Keystore.Store.{Device, collect, device_of_listed, column_text, list_devices}
use x_auth.Keystore.Find.{c_str-valid}
use x_auth.Keystore.Update.{Table}
use x_auth.Keystore.Calls.Sound.{IsSoundTable}
use x_auth.Socket.{ReadEvent, WriteEvent, peer_allowed}
use x_auth.Socket.ReadLine.{first_line, stream}
use x_auth.Socket.WriteAll.{offered}
use x_auth.Admin.{list_lines}
use x_auth.Admin.Dates.{single_token_dates}
use x_auth.Admin.Dates.Listing.{Entry, IsStamp, undated, IsListable, entry, lines, read_lines}
use x_auth.Admin.Serve.{max_request, connection, connection-list}
use x_auth.System.{Event, run_events}
use x_auth.System.Keys.{run_events-Run_any}
use x_auth.System.Entries.{or_empty, IsRowOf, ListsRows, IsComplete, ListsTable, collect-ListsTable}
use x_auth.System.Login.{Fills, run_events-IsSoundTable}
use x_auth.System.Stamps.{IsTime, IsCreated, IsStampedTable, Run-IsStampedTable}

created-IsStamp : (o : Option Bytes) → IsCreated o → IsStamp (c_str (or_empty o))
unfolding c_str
created-IsStamp none h = undated
created-IsStamp (some t) h = subst IsStamp (sym (c_str-Lacks t h.1)) h.0

listed-IsListable :
    (t : Table) (l : Listed)
    → IsRowOf t l
    → IsSoundTable t
    → IsStampedTable t
    → IsListable (device_of_listed l)
unfolding column_text
listed-IsListable t l h sound stamped =
    let s = sound l.id h.row h.at_id in
    let id_text = valid_device_id-Lacks l.id s.valid in
    let label_text = valid_label-Lacks s.label s.good_label in
    let whole_id : c_str l.id ≡ l.id = c_str-valid l.id s.valid in
    let whole_note : column_text l.note ≡ s.label =
      ap column_text (h.same_note ∙ s.at_note) ∙ c_str-Lacks s.label label_text.0 in
    record {
      id_space = rw whole_id id_text.1;
      id_line = rw whole_id id_text.2;
      stamp = rw h.same_created (created-IsStamp h.row.created (stamped l.id h.row h.at_id));
      note_line = rw whole_note label_text.1;
    }

collect-IsListable :
    (t : Table) (ls : List Listed)
    → All (IsRowOf t) ls
    → IsSoundTable t
    → IsStampedTable t
    → All IsListable (collect ls)
unfolding collect
collect-IsListable t [] h sound stamped = tt
collect-IsListable t (l ∷ ls) h sound stamped =
    (listed-IsListable t l h.0 sound stamped, collect-IsListable t ls h.1 sound stamped)

-- The world in which the query of a listing runs.
abbrev pub listing_world : (q : Sqlite) → q.World → q.World
listing_world q w = (q.prepare_v2 select_all (q.open_v2 read_only w).1).1

abbrev entry_ids : List Entry → List Bytes
entry_ids es = map (λ (e : Entry). e.id) es

module _ (q : Sqlite) (laws : SqliteLaws q) (query : ListsRows q laws) where
  -- A listing that succeeds is what the query gave.
  list_devices-collect :
      (w : q.World) (devices : List Device)
      → (list_devices q w).0 ≡ (true, devices)
      → ((q.step_all (listing_world q w)).1 ≡ true)
        × (collect (q.step_all (listing_world q w)).0 ≡ devices)
  unfolding list_devices
  list_devices-collect w devices h =
      let opened = q.open_v2 read_only w in
      let prepared = q.prepare_v2 select_all opened.1 in
      elim (Bool-cases opened.0) [
        | inr shut ↦ absurd (cc (rw shut at h))
        | inl open_ok ↦ elim (Bool-cases prepared.0) [
          | inr unready ↦ absurd (cc (rw (open_ok, unready) at h))
          | inl ready ↦
              (ap (λ r. r.0) (rw (open_ok, ready) at h), ap (λ r. r.1) (rw (open_ok, ready) at h))
        ]
      ]

  -- The devices of a listing are the rows, in the order of the query.
  list_devices-ListsTable :
      (w : q.World) (devices : List Device)
      → (list_devices q w).0 ≡ (true, devices)
      → IsSoundTable (laws.find w)
      → IsStampedTable (laws.find w)
      → IsComplete q laws (listing_world q w)
      → All IsListable devices
        × ListsTable (laws.find w) (map entry devices)
        × (entry_ids (map entry devices)
            ≡ map (λ (l : Listed). l.id) (q.step_all (listing_world q w)).0)
  list_devices-ListsTable w devices h sound stamped complete =
      let v = listing_world q w in
      let same : laws.find v ≡ laws.find w =
        laws.find-prepare select_all (q.open_v2 read_only w).1 ∙ laws.find-open read_only w in
      let (ended, got) = list_devices-collect w devices h in
      let rows = query v in
      let (all, order) =
        collect-ListsTable (laws.find v) (q.step_all v).0 rows (complete ended) (rw same sound)
          (rw same stamped) in
      (
        subst (λ (ds : List Device). All IsListable ds) got
            (collect-IsListable (laws.find v) (q.step_all v).0 rows (rw same sound)
              (rw same stamped)),
        subst (λ (t : Table). ListsTable t (map entry devices)) same
            (subst (λ (ds : List Device). ListsTable (laws.find v) (map entry ds)) got all),
        ap (λ (ds : List Device). entry_ids (map entry ds)) (sym got) ∙ order,
      )

module _ (hmac : Bytes → Bytes → Option Bytes) (q : Sqlite) (laws : SqliteLaws q)
    (query : ListsRows q laws) (times : (w : q.World) → IsTime (q.datetime_now w)) where
  run_events-IsStampedTable :
      (events : List Event) (w : q.World)
      → IsStampedTable (laws.find w)
      → IsStampedTable (laws.find (run_events hmac q events w))
  run_events-IsStampedTable events w h =
      Run-IsStampedTable q laws times (λ c. Unit) w (run_events hmac q events w) h
        (run_events-Run_any hmac q laws events w)

  -- Over any sequence of admin connections and starts, runs of the tools and logins, from a table whose
  -- rows are sound and have a time as SQLite writes it or none (an empty table, say): if an allowed
  -- peer then sends `LIST`, whose query runs to its end, the reply has one line per device, which
  -- read as the comment at the top of admin/main.cpp writes them (an ID, a status, a time or `-`, and
  -- a label with its spaces, whatever labels were given) are entries for all the rows of the
  -- table: every row has its entry, every entry is the ID, whether the status is 1, the time and the label of a row, and they
  -- are in the order of the query. The query gives rows of the table, and all of them when it runs
  -- to its end; the writes are not cut off, and random bytes fill the buffers of the keys. The
  -- length of the reply has no bound here.
  pub run_events-list :
      (events : List Event) (first : q.World) (draws : ℕ → ℕ → Option Bytes) (allow_uid : ℤ)
      (uid : Option ℕ) (reads : List ReadEvent) (writes : List WriteEvent) (devices : List Device)
      → IsSoundTable (laws.find first)
      → IsStampedTable (laws.find first)
      → All (Fills hmac q laws) events
      → peer_allowed allow_uid uid ≡ true
      → first_line (suc max_request) (stream reads) ≡ some (codes "LIST")
      → let w = run_events hmac q events first in
        (list_devices q w).0 ≡ (true, devices)
        → IsComplete q laws (listing_world q w)
        → length (single_token_dates (list_lines devices)) ≤ offered writes
        → (reply : Bytes) × (entries : List Entry) × ((connection q draws allow_uid uid reads writes
              w).0
            ≡ some reply)
          × (read_lines (lines reply) ≡ some entries)
          × ListsTable (laws.find w) entries
          × (entry_ids entries ≡ map (λ (l : Listed). l.id) (q.step_all (listing_world q w)).0)
  run_events-list events first draws allow_uid uid reads writes devices sound stamped fills allowed
        sent listed complete enough =
      let w = run_events hmac q events first in
      let (listable, all, order) =
        list_devices-ListsTable q laws query w devices listed
          (run_events-IsSoundTable hmac q laws events first sound fills)
          (run_events-IsStampedTable events first stamped) complete in
      let (reply, answered, read) =
        connection-list q draws allow_uid uid reads writes w devices allowed sent listed listable
          enough in
      (reply, map entry devices, answered, read, all, order)
