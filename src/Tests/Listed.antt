-- ===== src/Tests/Listed.antt =====
-- A `LIST` behind other events.
use x_auth.Base.{
  suc, true, Bytes, codes, List, [], ◌∷◌, Option, none, some, map, length, lacks, lacks-Lacks,
  equal, break_at, c_str, ◌≡◌, refl, arith, Bool-cases, inl, inr, some_inj, subst, All, sym, ap,
  ◌∙◌, equal_iff,
}
use x_auth.Base.Int.{negsuc, pos}
use x_auth.Keystore.Id.{crockford_char, crockford_chars, valid_device_id}
use x_auth.Keystore.Sqlite.{Listed, Row}
use x_auth.Keystore.Store.{
  Device, default_device, column_text, read_columns, read_step, open_db, find_device, collect,
  list_devices, migrate_keystore, has_column,
}
use x_auth.Socket.{ReadEvent, chunk, scan_chunk, read_line, peer_allowed}
use x_auth.Socket.ReadLine.{first_line, stream}
use x_auth.Verifier.Protocol.{split_parts, status_reply, answer}
use x_auth.Verifier.Protocol
use x_auth.Verifier.Serve.{serve_line, serve}
use x_auth.Provision.{main, command, cmd_list, by_count}
use x_auth.Admin.{status_word, device_line, list_lines}
use x_auth.Admin.Dates.{
  strip_prefix, find_word, join_at, join_date, join_fields, dates_loop, single_token_dates,
}
use x_auth.Admin.Dates.Listing.{Entry, lines, read_lines, dated}
use x_auth.Admin.Serve.{max_request, connection}
use x_auth.System.{run_event, run_events}
use x_auth.System.Stamps.{IsTime, IsCreated, IsStampedTable}
use x_auth.System.Entries.{ListsRows, IsComplete, IsRowOf, ListsTable, or_empty}
use x_auth.System.Listing.{listing_world, run_events-list}
use x_auth.Tests.Events.{quiet, draws, plenty, keystore-IsSoundTable}
use x_auth.Tests.Fixtures.{
  Memory, memory, memory_laws, hmac, id, keystore, drawn_fills, now_text, listed_row, text_of,
}

now-IsTime : IsTime now_text
unfolding lacks
now-IsTime =
    let date = codes "026-01-01" in
    let time = codes "00:00:00" in
    (
      dated b'2' date time refl (λ e. omega arith) (lacks-Lacks b' ' (b'2' ∷ date) refl)
          (lacks-Lacks b'T' (b'2' ∷ date) refl) (lacks-Lacks b'\n' (b'2' ∷ date) refl)
          (lacks-Lacks b' ' time refl) (lacks-Lacks b'\n' time refl),
      lacks-Lacks 0 now_text refl,
    )

created-or_empty : (o : Option Bytes) → text_of o ≡ or_empty o
created-or_empty none = refl
created-or_empty (some t) = refl

listed_row-IsRowOf :
    (w : Memory) (i : Bytes) (o : Option Row)
    → w.table i ≡ o
    → All (IsRowOf w.table) (listed_row i o)
listed_row-IsRowOf w i none h = tt
listed_row-IsRowOf w i (some r) h = (
  record {
    row = r;
    at_id = h;
    same_status = refl;
    same_note = refl;
    same_created = created-or_empty r.created;
  },
  tt,
)

memory_lists : ListsRows memory memory_laws
memory_lists w = listed_row-IsRowOf w (codes "AB12") (w.table (codes "AB12")) refl

keystore-IsStampedTable : IsStampedTable (memory_laws.find keystore)
keystore-IsStampedTable j r at = elim (Bool-cases (equal id j)) [
  | inr absent ↦ absurd (cc (rw absent at at))
  | inl there ↦ subst (λ (x : Row). IsCreated x.created) (some_inj (rw there at at)) now-IsTime
]

abbrev devices : List Device
devices =
    record default_device { id = id; status = pos 1; created = now_text; note = codes "OK" } ∷ []

all_listed : (list_devices memory (run_events hmac memory quiet keystore)).0 ≡ (true, devices)
unfolding list_devices collect run_events run_event Protocol.handle_request answer split_parts
    break_at equal find_device open_db read_step read_columns column_text valid_device_id
    crockford_chars crockford_char c_str serve serve_line peer_allowed read_line scan_chunk main
    command cmd_list by_count status_reply migrate_keystore has_column
all_listed = refl

same_table : (run_events hmac memory quiet keystore).table ≡ keystore.table
unfolding run_events run_event Protocol.handle_request answer split_parts break_at equal find_device
    open_db read_step read_columns column_text valid_device_id crockford_chars crockford_char c_str
    serve serve_line peer_allowed read_line scan_chunk main command cmd_list by_count status_reply
    migrate_keystore has_column
same_table = refl

-- The fixture's query gives the row of the ID "AB12", which is the only row.
keystore-IsComplete :
    IsComplete memory memory_laws (listing_world memory (run_events hmac memory quiet keystore))
unfolding equal
keystore-IsComplete ended j r at = elim (Bool-cases (equal id j)) [
  | inr absent ↦ absurd (cc (rw absent at (ap (λ t. t j) (sym same_table) ∙ at)))
  | inl there ↦ rw same_table (inl ((equal_iff id j).0 there))
]

abbrev reads : List ReadEvent
reads = chunk (codes "LI") ∷ chunk (codes "ST\n") ∷ []

request_sent : first_line (suc max_request) (stream reads) ≡ some (codes "LIST")
unfolding first_line break_at
request_sent = refl

allowed : peer_allowed (negsuc 0) none ≡ true
unfolding peer_allowed
allowed = refl

reply_size : length (single_token_dates (list_lines devices)) ≡ 46
unfolding single_token_dates dates_loop strip_prefix find_word join_fields join_date join_at
    break_at list_lines device_line status_word
reply_size = refl

run_events-list_example :
    (reply : Bytes) × (entries : List Entry) × ((connection memory draws
        (negsuc 0)
        none
        reads
        plenty
        (run_events hmac memory quiet keystore)).0
      ≡ some reply)
    × (read_lines (lines reply) ≡ some entries)
    × ListsTable (memory_laws.find (run_events hmac memory quiet keystore)) entries
    × (map (λ (e : Entry). e.id) entries
        ≡ map
            (λ (l : Listed). l.id)
            (memory.step_all (listing_world memory (run_events hmac memory quiet keystore))).0)
run_events-list_example =
    run_events-list hmac memory memory_laws memory_lists (λ w. now-IsTime) quiet keystore draws
      (negsuc 0) none reads plenty devices keystore-IsSoundTable keystore-IsStampedTable
      ((λ n buf h. cc h), (drawn_fills, tt)) allowed request_sent all_listed keystore-IsComplete
      (let size = reply_size in omega (arith, size))
