-- ===== src/Admin/Calls.antt =====
-- Which calls of the keystore a request to admin/main.cpp makes.
use x_auth.Base.{
  ℕ, zero, suc, true, not, ◌&&◌, Bytes, codes, List, [], ◌∷◌, ◌++◌, Option, none, some, equal,
  equal_iff, break_at, break_at-joins, ◌≡◌, refl, sym, ap, ◌∙◌, arith, Bool-cases, Option-cases,
  inl, inr,
}
use x_auth.Base.Int.{ℤ, pos}
use x_auth.Keygen.{generate_device_id, generate_key, valid_label}
use x_auth.Keystore.Id.{device_id_min}
use x_auth.Keystore.Sqlite.{Sqlite}
use x_auth.Keystore.Store.{Device, default_device, Lookup, found, not_found, error, find_device}
use x_auth.Keystore.Calls.{
  Call, find, add, status, note, list, perform, Run, here, Run-one, Run-append,
}
use x_auth.Socket.{ReadEvent, WriteEvent, read_line, peer_allowed}
use x_auth.Socket.ReadLine.{first_line, stream, read_line-stream}
use x_auth.Admin.Serve.{max_request, reply_to, connection}
use x_auth.Admin.{
  Attempt, placed, gave_up, next_id, after_lookup, attempt, after_attempt, add_loop, handle_add,
  handle_list, label_command, no_text, behind_space, dispatch, handle_request,
}

module _ (q : Sqlite) (P : Call → Type 0)
    (finds : (id : Bytes) (out : Device) → P (find id out)) where
  after_lookup-Run :
      (d : Device) (l : Lookup) (w : q.World) → P (add d) → Run q P w (after_lookup q d l w).1
  unfolding after_lookup perform
  after_lookup-Run d error w adds = here
  after_lookup-Run d found w adds = here
  after_lookup-Run d not_found w adds = Run-one q P (add d) w adds

  pub attempt-Run : (d : Device) (w : q.World) → P (add d) → Run q P w (attempt q d w).1
  unfolding attempt perform
  attempt-Run d w adds =
      let looked = find_device q d.id default_device w in
      Run-append q (Run-one q P (find d.id default_device) w (finds d.id default_device))
        (after_lookup-Run d looked.0.0 looked.1 adds)

  after_attempt-Run :
      (d : Device) (first : q.World) (tried : Attempt) (w : q.World)
      (later : Option Bytes × q.World)
      → Run q P first w
      → Run q P w later.1
      → Run q P first (after_attempt q d (tried, w) later).1
  unfolding after_attempt
  after_attempt-Run d first placed w later r s = r
  after_attempt-Run d first gave_up w later r s = r
  after_attempt-Run d first next_id w later r s = Run-append q r s

  module _ (draws : ℕ → ℕ → Option Bytes) where
    add_loop-Run :
        (left call : ℕ) (d : Device) (w : q.World)
        → ((id : Bytes) → P (add (record d { id = id })))
        → Run q P w (add_loop q draws left call d w).1
    unfolding add_loop
    add_loop-Run zero call d w adds = here
    add_loop-Run (suc left) call d w adds =
        elim (Option-cases (generate_device_id (draws call) device_id_min)) [
          | inl failed ↦ rw (add_loop, failed) here
          | inr (id, drawn) ↦
              let d' : Device = record d { id = id } in
              let tried = attempt q d' w in
              rw (add_loop, drawn)
                (after_attempt-Run d' w tried.0 tried.1
                  (add_loop q draws left (suc call) d' tried.1) (attempt-Run d' w (adds id))
                  (add_loop-Run left (suc call) d' tried.1 adds))
        ]

    -- A key that was drawn and a valid label.
    abbrev pub Adds : Type 0
    Adds =
        (id key label : Bytes)
        → generate_key (draws 0) ≡ some key
        → valid_label label ≡ true
        → P (add (record default_device { id = id; key = key; status = pos 1; note = label }))

    handle_add-Run : (label : Bytes) (w : q.World) → Adds → Run q P w (handle_add q draws label w).1
    unfolding handle_add
    handle_add-Run label w adds = elim (Bool-cases (valid_label label)) [
      | inr bad ↦ rw bad here
      | inl good ↦ elim (Option-cases (generate_key (draws 0))) [
        | inl failed ↦ rw (handle_add, good, failed) here
        | inr (key, drawn) ↦
            rw (handle_add, good, drawn)
              (add_loop-Run 16 1 (record default_device { status = pos 1; note = label; key = key })
                w (λ id. adds id key label drawn good))
      ]
    ]

    module _ (lists : P list) (adds : Adds) (revokes : (id : Bytes) → P (status id (pos 0)))
        (notes : (id label : Bytes) → valid_label label ≡ true → P (note id label)) where
      label_command-Run :
          (id : Bytes) (label : Option Bytes) (w : q.World)
          → Run q P w (label_command q (id, label) w).1
      unfolding label_command perform
      label_command-Run id none w = here
      label_command-Run id (some label) w = elim (Bool-cases (valid_label label)) [
        | inr bad ↦ rw bad here
        | inl good ↦ rw good (Run-one q P (note id label) w (notes id label good))
      ]

      label_command_Run :
          (parts : Bytes × Option Bytes) (w : q.World) → Run q P w (label_command q parts w).1
      label_command_Run (id, label) w = label_command-Run id label w

      dispatch-Run :
          (cmd rest : Bytes) (w : q.World)
          → (equal cmd (codes "ACTIVATE") && not (no_text rest) ≡ true → P (status rest (pos 1)))
          → Run q P w (dispatch q draws cmd rest w).1
      unfolding dispatch handle_list perform
      dispatch-Run cmd rest w activates =
          elim (Bool-cases (equal cmd (codes "LIST") && no_text rest)) [
            | inl l ↦ rw l (Run-one q P list w lists)
            | inr not_l ↦ rw not_l (elim (Bool-cases (equal cmd (codes "ADD"))) [
              | inl a ↦ rw a (handle_add-Run rest w adds)
              | inr not_a ↦
                  rw not_a (elim (Bool-cases (equal cmd (codes "REVOKE") && not (no_text rest))) [
                    | inl r ↦ rw r (Run-one q P (status rest (pos 0)) w (revokes rest))
                    | inr not_r ↦
                        rw not_r
                          (elim (Bool-cases (equal cmd (codes "ACTIVATE") && not (no_text rest))) [
                            | inl v ↦ rw v (Run-one q P (status rest (pos 1)) w (activates v))
                            | inr not_v ↦ rw not_v (elim (Bool-cases (equal cmd (codes "LABEL"))) [
                              | inl b ↦ rw b (label_command_Run (break_at b' ' rest) w)
                              | inr other ↦ rw other here
                            ])
                          ])
                  ])
            ])
          ]

      asked_to_activate :
          (line : Bytes) (back : Option Bytes)
          → (break_at b' ' line).1 ≡ back
          → equal (break_at b' ' line).0 (codes "ACTIVATE") && not (no_text (behind_space back))
            ≡ true
          → line ≡ codes "ACTIVATE " ++ behind_space back
      asked_to_activate line none e h = absurd (ground (arith, h))
      asked_to_activate line (some rest) e h =
          let cmd : (break_at b' ' line).0 ≡ codes "ACTIVATE" =
            (equal_iff (break_at b' ' line).0 (codes "ACTIVATE")).0 (ground (arith, h)) in
          (break_at-joins b' ' line rest e).0 ∙ ap (λ (c : Bytes). c ++ b' ' ∷ rest) cmd

      pub handle_request-Run :
          (line : Bytes) (w : q.World)
          → ((id : Bytes) → line ≡ codes "ACTIVATE " ++ id → P (status id (pos 1)))
          → Run q P w (handle_request q draws line w).1
      unfolding handle_request
      handle_request-Run line w activates =
          let back = (break_at b' ' line).1 in
          dispatch-Run (break_at b' ' line).0 (behind_space back) w
            (λ v. activates (behind_space back) (asked_to_activate line back refl v))

      reply_to-Run :
          (writes : List WriteEvent) (line : Option Bytes) (w : q.World)
          → ((id : Bytes) → line ≡ some (codes "ACTIVATE " ++ id) → P (status id (pos 1)))
          → Run q P w (reply_to q draws writes line w).1
      unfolding reply_to
      reply_to-Run writes none w activates = here
      reply_to-Run writes (some line) w activates =
          handle_request-Run line w (λ id. λ e. activates id (ap some e))

      -- A connection from a peer that is allowed makes the calls of its first line.
      pub connection-Run :
          (allow_uid : ℤ) (uid : Option ℕ) (reads : List ReadEvent) (writes : List WriteEvent)
          (w : q.World)
          → ((id : Bytes)
              → peer_allowed allow_uid uid ≡ true
              → first_line (suc max_request) (stream reads) ≡ some (codes "ACTIVATE " ++ id)
              → P (status id (pos 1)))
          → Run q P w (connection q draws allow_uid uid reads writes w).1
      unfolding connection
      connection-Run allow_uid uid reads writes w activates =
          elim (Bool-cases (peer_allowed allow_uid uid)) [
            | inr refused ↦ rw refused here
            | inl allowed ↦ rw allowed (
                reply_to-Run writes (read_line (suc max_request) reads []) w (λ id.
                  λ e. activates id allowed (sym (read_line-stream (suc max_request) reads) ∙ e)))
          ]
