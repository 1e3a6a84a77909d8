-- ===== src/Admin/Life.antt =====
-- The accept loop in `main` of admin/main.cpp: one connection after the other. `draws` says what each
-- call of `RAND_bytes` gives while the connection is handled.
use x_auth.Base.{
  ℕ, zero, suc, ◌+◌, ◌≤◌, Bool, true, false, not, ◌&&◌, Bytes, codes, List, [], ◌∷◌, Option, none,
  some, All, length, equal, break_at, ◌≡◌, refl, ap, arith, Bool-cases, inl, inr,
}
use x_auth.Base.Int.{ℤ, pos}
use x_auth.Keygen.{FillsBuffer, valid_label}
use x_auth.Keygen.Ids.{generate_device_id-valid}
use x_auth.Keygen.Keys.{generate_key-hex}
use x_auth.Keystore.Id.{device_id_min}
use x_auth.Keystore.Sqlite.{Sqlite}
use x_auth.Keystore.Store.{Device, default_device}
use x_auth.Socket.{ReadEvent, WriteEvent, read_line, write_all, peer_allowed, drain}
use x_auth.Socket.WriteAll.{drain-bound}
use x_auth.Admin.{
  Attempt, placed, gave_up, next_id, attempt, after_attempt, add_loop, handle_add, label_command,
  behind_space, no_text, dispatch, handle_request,
}
use x_auth.Admin.Dates.{single_token_dates}
use x_auth.Admin.Serve.{max_request, reply_to, connection}

-- What `accept` brings; `rest` is what the peer sends behind its request.
pub data Arrival : Type 0 where
  accept_failed : Arrival
  accepted :
      (draws : ℕ → ℕ → Option Bytes) (uid : Option ℕ) (reads : List ReadEvent)
      (writes : List WriteEvent) (rest : List ReadEvent)
      → Arrival

-- What a connection was sent, and how many bytes behind its request were read and dropped.
pub record Closed : Type 0 where
  pub sent : Bytes
  pub dropped : ℕ

-- The connections that were closed, and whether the daemon is still up.
pub record Life : Type 0 where
  pub closed : List Closed
  pub up : Bool

abbrev pub sink_size : ℕ
sink_size = 256

module _ (q : Sqlite) (allow_uid : ℤ) where
  -- A throw ends the daemon.
  unfoldable pub after_connection :
      List ReadEvent → Option Bytes × q.World → Life × q.World → Life × q.World
  after_connection rest (none, w) later = (record { closed = []; up = false }, w)
  after_connection rest (some s, w) (life, v) = (
    record {
      closed = record { sent = s; dropped = drain sink_size rest 0 } ∷ life.closed;
      up = life.up;
    },
    v,
  )

  unfoldable pub accept_loop : List Arrival → q.World → Life × q.World
  unfolding after_connection
  accept_loop [] w = (record { closed = []; up = true }, w)
  accept_loop (accept_failed ∷ arrivals) w = accept_loop arrivals w
  accept_loop (accepted draws uid reads writes rest ∷ arrivals) w =
      let done = connection q draws allow_uid uid reads writes w in
      after_connection rest done (accept_loop arrivals done.1)

-- `RAND_bytes` does not fail, and fills its buffer.
abbrev pub Draws : (ℕ → ℕ → Option Bytes) → Type 0
Draws draws =
    ((call : ℕ) → FillsBuffer (draws call))
    × ((call n : ℕ) → (buf : Bytes) × (draws call n ≡ some buf))

abbrev pub ArrivalDraws : Arrival → Type 0
ArrivalDraws accept_failed = Unit
ArrivalDraws (accepted draws uid reads writes rest) = Draws draws

-- How many peers were accepted.
abbrev pub peers : List Arrival → ℕ
peers [] = 0
peers (accept_failed ∷ arrivals) = peers arrivals
peers (accepted draws uid reads writes rest ∷ arrivals) = suc (peers arrivals)

abbrev IsAnswer : Option Bytes → Type 0
IsAnswer o = (r : Bytes) × (o ≡ some r)

module _ (q : Sqlite) where
  after_attempt-IsAnswer :
      (d : Device) (tried : Attempt) (w : q.World) (later : Option Bytes × q.World)
      → IsAnswer later.0
      → IsAnswer (after_attempt q d (tried, w) later).0
  unfolding after_attempt
  after_attempt-IsAnswer d placed w later h = (_, refl)
  after_attempt-IsAnswer d gave_up w later h = (_, refl)
  after_attempt-IsAnswer d next_id w later h = h

  module _ (draws : ℕ → ℕ → Option Bytes) (works : Draws draws) where
    add_loop-IsAnswer :
        (left call : ℕ) (d : Device) (w : q.World) → IsAnswer (add_loop q draws left call d w).0
    unfolding add_loop
    add_loop-IsAnswer zero call d w = (_, refl)
    add_loop-IsAnswer (suc left) call d w =
        let (buf, drawn) = works.1 call device_id_min in
        let (id, made, _, _) =
          generate_device_id-valid (draws call) device_id_min buf (works.0 call) drawn (omega arith)
            (omega arith) in
        let d' : Device = record d { id = id } in
        let tried = attempt q d' w in
        rw (add_loop, made)
          (after_attempt-IsAnswer d' tried.0 tried.1 (add_loop q draws left (suc call) d' tried.1)
            (add_loop-IsAnswer left (suc call) d' tried.1))

    handle_add-IsAnswer : (label : Bytes) (w : q.World) → IsAnswer (handle_add q draws label w).0
    unfolding handle_add
    handle_add-IsAnswer label w = elim (Bool-cases (valid_label label)) [
      | inr bad ↦ rw bad (_, refl)
      | inl good ↦
          let (buf, drawn) = works.1 0 64 in
          let (key, made, _, _, _) = generate_key-hex (draws 0) buf (works.0 0) drawn in
          let d : Device = record default_device { status = pos 1; note = label; key = key } in
          rw (handle_add, good, made) (add_loop-IsAnswer 16 1 d w)
    ]

    label_command-IsAnswer :
        (id : Bytes) (label : Option Bytes) (w : q.World)
        → IsAnswer (label_command q (id, label) w).0
    unfolding label_command
    label_command-IsAnswer id none w = (_, refl)
    label_command-IsAnswer id (some label) w = elim (Bool-cases (valid_label label)) [
      | inr bad ↦ rw bad (_, refl)
      | inl good ↦ rw good (_, refl)
    ]

    dispatch-IsAnswer : (cmd rest : Bytes) (w : q.World) → IsAnswer (dispatch q draws cmd rest w).0
    unfolding dispatch
    dispatch-IsAnswer cmd rest w = elim (Bool-cases (equal cmd (codes "LIST") && no_text rest)) [
      | inl a ↦ rw (dispatch, a) (_, refl)
      | inr a ↦ elim (Bool-cases (equal cmd (codes "ADD"))) [
        | inl b ↦ rw (dispatch, a, b) (handle_add-IsAnswer rest w)
        | inr b ↦ elim (Bool-cases (equal cmd (codes "REVOKE") && not (no_text rest))) [
          | inl c ↦ rw (dispatch, a, b, c) (_, refl)
          | inr c ↦ elim (Bool-cases (equal cmd (codes "ACTIVATE") && not (no_text rest))) [
            | inl d ↦ rw (dispatch, a, b, c, d) (_, refl)
            | inr d ↦ elim (Bool-cases (equal cmd (codes "LABEL"))) [
              | inl e ↦
                  rw (dispatch, a, b, c, d, e)
                    (label_command-IsAnswer (break_at b' ' rest).0 (break_at b' ' rest).1 w)
              | inr e ↦ rw (dispatch, a, b, c, d, e) (_, refl)
            ]
          ]
        ]
      ]
    ]

    reply_to-IsAnswer :
        (writes : List WriteEvent) (line : Option Bytes) (w : q.World)
        → IsAnswer (reply_to q draws writes line w).0
    unfolding reply_to handle_request
    reply_to-IsAnswer writes none w = (_, refl)
    reply_to-IsAnswer writes (some line) w =
        let (r, made) =
          dispatch-IsAnswer (break_at b' ' line).0 (behind_space (break_at b' ' line).1) w in
        (write_all writes (single_token_dates r), rw made refl)

    connection-IsAnswer :
        (allow_uid : ℤ) (uid : Option ℕ) (reads : List ReadEvent) (writes : List WriteEvent)
        (w : q.World)
        → IsAnswer (connection q draws allow_uid uid reads writes w).0
    unfolding connection
    connection-IsAnswer allow_uid uid reads writes w =
        elim (Bool-cases (peer_allowed allow_uid uid)) [
          | inr shut ↦ rw shut (_, refl)
          | inl allowed ↦
              rw allowed (reply_to-IsAnswer writes (read_line (suc max_request) reads []) w)
        ]

  -- As long as `RAND_bytes` does not fail, the daemon stays up whatever its peers send and however
  -- their reads and writes end, and closes as many connections as it accepted, after it has read and
  -- dropped at most 4351 bytes behind each request.
  pub accept_loop-up :
      (allow_uid : ℤ) (arrivals : List Arrival) (w : q.World)
      → All ArrivalDraws arrivals
      → let life = (accept_loop q allow_uid arrivals w).0 in
        (life.up ≡ true)
        × (length life.closed ≡ peers arrivals)
        × All (λ (c : Closed). c.dropped ≤ 4095 + sink_size) life.closed
  unfolding accept_loop after_connection
  accept_loop-up allow_uid [] w works = (refl, refl, tt)
  accept_loop-up allow_uid (accept_failed ∷ arrivals) w works =
      accept_loop-up allow_uid arrivals w works.1
  accept_loop-up allow_uid (accepted draws uid reads writes rest ∷ arrivals) w works =
      let (s, answered) = connection-IsAnswer draws works.0 allow_uid uid reads writes w in
      let (up, all, few) =
        accept_loop-up allow_uid arrivals (connection q draws allow_uid uid reads writes w).1
          works.1 in
      rw answered (up, ap suc all, (drain-bound sink_size rest, few))
