-- ===== src/Tests/Listing.antt =====
-- Connections to the admin daemon, one and several, on a keystore whose listing has two devices.
use x_auth.Base.{
  ℕ, suc, true, Bytes, codes, List, [], ◌∷◌, Option, none, some, ◌+◌, ◌≤◌, All, length, ◌≡◌, refl,
}
use x_auth.Base.Int.{pos, negsuc}
use x_auth.Keystore.Sqlite.{Sqlite, Listed}
use x_auth.Socket.{ReadEvent, chunk, WriteEvent, wrote, peer_allowed}
use x_auth.Socket.ReadLine.{first_line, stream}
use x_auth.Admin.Serve.{max_request, connection, Ended, connection-Ended}
use x_auth.Admin.Life.{
  Arrival, accept_failed, accepted, Draws, Closed, sink_size, accept_loop, accept_loop-up,
}
use x_auth.Tests.Fixtures.{drawn_fills, memory, keystore, drawn, id, now_text}

abbrev draws : ℕ → ℕ → Option Bytes
draws call = drawn

abbrev listed : List Listed
listed =
    record { id = id; status = pos 1; created = now_text; note = some (codes "DEVICE 7") }
    ∷ record { id = codes "CD34"; status = pos 0; created = []; note = some (codes "old") }
    ∷ []

abbrev listing : Sqlite
listing = record memory { step_all = λ w. (listed, true, w) }

-- The request comes in two reads, and the reply leaves in two writes.
abbrev reads : List ReadEvent
reads = chunk (codes "LI") ∷ chunk (codes "ST\n") ∷ []

abbrev writes : List WriteEvent
writes = wrote 30 ∷ wrote 100 ∷ []

connection-Ended_example :
    Ended listing draws
      (peer_allowed (pos 7) (some 7))
      (first_line (suc max_request) (stream reads))
      keystore
      (connection listing draws (pos 7) (some 7) reads writes keystore).0
      (connection listing draws (pos 7) (some 7) reads writes keystore).1
connection-Ended_example = connection-Ended listing draws (pos 7) (some 7) reads writes keystore

-- A failed `accept`, a peer that sends no whole line and more behind it, and a peer that adds a device.
abbrev arrivals : List Arrival
arrivals =
    accept_failed
    ∷ accepted draws none (chunk (codes "LIS") ∷ ReadEvent.failed ∷ []) []
        (chunk (codes "T\n") ∷ [])
    ∷ accepted draws (some 33) (chunk (codes "ADD desk\n") ∷ []) (wrote 1000 ∷ []) []
    ∷ []

never_fails : Draws draws
never_fails = ((λ call. drawn_fills), (λ call n. (_, refl)))

accept_loop-up_example :
    let life = (accept_loop memory (negsuc 0) arrivals keystore).0 in
    (life.up ≡ true)
    × (length life.closed ≡ 2)
    × All (λ (c : Closed). c.dropped ≤ 4095 + sink_size) life.closed
accept_loop-up_example =
    accept_loop-up memory (negsuc 0) arrivals keystore (tt, (never_fails, (never_fails, tt)))
