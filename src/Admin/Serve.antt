-- ===== src/Admin/Serve.antt =====
-- The body of the accept loop in `main` of admin/main.cpp, behind `accept`, up to the drain.
use x_auth.Base.{
  ℕ, suc, Bool, true, false, not, Bytes, List, [], ◌++◌, Option, none, some, ◌>>=◌, if◌then◌else◌,
  ◌≡◌, refl, ap, ◌∙◌, Bool-cases, Option-cases, inl, inr, codes, length, map, All, ◌≤◌, break_at,
  equal,
}
use x_auth.Base.Int.{ℤ}
use x_auth.Keystore.Sqlite.{Sqlite}
use x_auth.Keystore.Store.{Device, list_devices}
use x_auth.Socket.{ReadEvent, WriteEvent, read_line, write_all, peer_allowed}
use x_auth.Socket.ReadLine.{first_line, stream, read_line-stream}
use x_auth.Socket.WriteAll.{offered, write_all-prefix, write_all_complete}
use x_auth.Admin.{reply_err, list_lines, handle_list, dispatch, handle_request}
use x_auth.Admin.Dates.{single_token_dates}
use x_auth.Admin.Dates.Listing.{entry, lines, read_lines, IsListable}
use x_auth.Admin.Dates.RoundTrip.{single_token_dates-read}

abbrev pub max_request : ℕ
max_request = 128

module _ (q : Sqlite) (draws : ℕ → ℕ → Option Bytes) where
  -- What is written for a line, or for no line; `none` is a throw, which ends the daemon.
  unfoldable pub reply_to : List WriteEvent → Option Bytes → q.World → Option Bytes × q.World
  reply_to writes none w = (some (write_all writes reply_err), w)
  reply_to writes (some line) w =
      let (reply, w') = handle_request q draws line w in
      ((do r ← reply; some (write_all writes (single_token_dates r))), w')

  -- A refused peer gets nothing.
  unfoldable pub connection :
      ℤ → Option ℕ → List ReadEvent → List WriteEvent → q.World → Option Bytes × q.World
  unfolding reply_to
  connection allow_uid uid reads writes w =
      if not (peer_allowed allow_uid uid)
      then (some [], w)
      else reply_to writes (read_line (suc max_request) reads []) w

  -- `delivered` and what was not sent make up the text.
  pub record IsFront (delivered text : Bytes) : Type 0 where
    pub unsent : Bytes
    pub whole : delivered ++ unsent ≡ text

  write_all-IsFront :
      (writes : List WriteEvent) (text : Bytes) → IsFront (write_all writes text) text
  write_all-IsFront writes text =
      let (unsent, whole) = write_all-prefix writes text in
      record { unsent = unsent; whole = whole }

  -- How a connection ends.
  pub data Ended (allowed : Bool) (sent : Option Bytes) (w : q.World)
      : Option Bytes → q.World → Type 0 where
    refused : allowed ≡ false → Ended allowed sent w (some []) w
    no_line :
        (delivered : Bytes)
        → allowed ≡ true
        → sent ≡ none
        → IsFront delivered reply_err
        → Ended allowed sent w (some delivered) w
    threw :
        (line : Bytes)
        → allowed ≡ true
        → sent ≡ some line
        → (handle_request q draws line w).0 ≡ none
        → Ended allowed sent w none (handle_request q draws line w).1
    replied :
        (line reply delivered : Bytes)
        → allowed ≡ true
        → sent ≡ some line
        → (handle_request q draws line w).0 ≡ some reply
        → IsFront delivered (single_token_dates reply)
        → Ended allowed sent w (some delivered) (handle_request q draws line w).1

  reply_to-Ended :
      (allowed : Bool) (writes : List WriteEvent) (line : Option Bytes) (w : q.World)
      → allowed ≡ true
      → Ended allowed line w (reply_to writes line w).0 (reply_to writes line w).1
  unfolding reply_to
  reply_to-Ended allowed writes none w ok =
      no_line (write_all writes reply_err) ok refl (write_all-IsFront writes reply_err)
  reply_to-Ended allowed writes (some line) w ok =
      elim (Option-cases (handle_request q draws line w).0) [
        | inl thrown ↦ rw thrown (threw line ok refl thrown)
        | inr (reply, made) ↦ rw made (
            replied line reply (write_all writes (single_token_dates reply)) ok refl made
              (write_all-IsFront writes (single_token_dates reply)))
      ]

  -- A connection ends in one of four ways, however its stream is cut into reads and its writes are cut
  -- short. A peer that is not allowed gets nothing; one that sends no line within 129 bytes gets a
  -- front part of `ERR`; both leave the keystore alone. Otherwise exactly the first line is handled,
  -- and a front part of its reply, with joined dates, is delivered, or the handling throws.
  pub connection-Ended :
      (allow_uid : ℤ) (uid : Option ℕ) (reads : List ReadEvent) (writes : List WriteEvent)
      (w : q.World)
      → Ended
          (peer_allowed allow_uid uid)
          (first_line (suc max_request) (stream reads))
          w
          (connection allow_uid uid reads writes w).0
          (connection allow_uid uid reads writes w).1
  unfolding connection
  connection-Ended allow_uid uid reads writes w = elim (Bool-cases (peer_allowed allow_uid uid)) [
    | inr shut ↦ rw shut (refused refl)
    | inl allowed ↦ rw allowed (
        rw (← read_line-stream (suc max_request) reads)
          (reply_to-Ended true writes (read_line (suc max_request) reads []) w refl))
  ]

-- A `LIST` from end to end.
module _ (q : Sqlite) (draws : ℕ → ℕ → Option Bytes) where
  handle_request-list :
      (w : q.World) (devices : List Device)
      → (list_devices q w).0 ≡ (true, devices)
      → (handle_request q draws (codes "LIST") w).0 ≡ some (list_lines devices)
  unfolding handle_request dispatch handle_list break_at equal
  handle_request-list w devices h = rw h refl

  -- An allowed peer that sends `LIST` gets lines that read as the devices of the keystore, in the order of the query, if the query runs to its end, every device is listable, and the
  -- writes are not cut off. It holds however the request is cut into reads and the reply into writes.
  pub connection-list :
      (allow_uid : ℤ) (uid : Option ℕ) (reads : List ReadEvent) (writes : List WriteEvent)
      (w : q.World) (devices : List Device)
      → peer_allowed allow_uid uid ≡ true
      → first_line (suc max_request) (stream reads) ≡ some (codes "LIST")
      → (list_devices q w).0 ≡ (true, devices)
      → All IsListable devices
      → length (single_token_dates (list_lines devices)) ≤ offered writes
      → (reply : Bytes) × ((connection q draws allow_uid uid reads writes w).0 ≡ some reply)
        × (read_lines (lines reply) ≡ some (map entry devices))
  unfolding connection reply_to
  connection-list allow_uid uid reads writes w devices allowed sent listed listable enough =
      let reply = single_token_dates (list_lines devices) in
      let got = read_line-stream (suc max_request) reads ∙ sent in
      (
        reply,
        rw allowed (
            rw got (
              rw (handle_request-list w devices listed)
                (ap some (write_all_complete writes reply enough)))),
        single_token_dates-read devices listable,
      )
