-- ===== src/Provision/Calls.antt =====
-- Which calls of the keystore a run of tools/provision/main.cpp makes.
use x_auth.Base.{
  ℕ, zero, suc, Bool, true, false, ◌&&◌, ◌||◌, Bytes, codes, List, [], ◌∷◌, Option, none, some,
  equal, equal_iff, ◌≡◌, ap, Bool-cases, Option-cases, inl, inr,
}
use x_auth.Base.Int.{ℤ, pos, lt_ℤ, pos_part}
use x_auth.Keygen.{generate_device_id, generate_key, valid_label}
use x_auth.Keystore.Id.{device_id_min, device_id_max}
use x_auth.Keystore.Sqlite.{Sqlite}
use x_auth.Keystore.Store.{Device, default_device, migrate_keystore}
use x_auth.Keystore.Calls.{
  Call, find, status, note, list, migrate, perform, Run, here, Run-one, Run-append,
}
use x_auth.Admin.{Attempt, placed, gave_up, next_id, attempt}
use x_auth.Admin.Calls.{Adds, attempt-Run}
use x_auth.Provision.{
  FileEvent, write_firmware_header, AddOptions, add_defaults, after_try, finish, place_loop,
  after_loop, add, parse_add, cmd_add, cmd_list, with_one, with_two, by_count, no_arguments,
  command, main,
}

module _ (q : Sqlite) (P : Call → Type 0) (finds : (id : Bytes) (out : Device) → P (find id out))
    (revokes : (id : Bytes) → P (status id (pos 0))) where
  after_try-Run :
      (d : Device) (first : q.World) (tried : Attempt) (w : q.World)
      (later : Option (Bool × Device) × q.World)
      → Run q P first w
      → Run q P w later.1
      → Run q P first (after_try q d (tried, w) later).1
  unfolding after_try
  after_try-Run d first placed w later r s = r
  after_try-Run d first gave_up w later r s = r
  after_try-Run d first next_id w later r s = Run-append q r s

  finish-Run :
      (event : FileEvent) (header : Bytes) (r : Bool × Device) (w : q.World)
      → Run q P w (finish q event header r w).1
  unfolding finish perform
  finish-Run event header (false, d) w = here
  finish-Run event [] (true, d) w = here
  finish-Run event (c ∷ path) (true, d) w = elim (Bool-cases (write_firmware_header event d).0) [
    | inl whole ↦ rw whole here
    | inr broken ↦ rw broken (Run-one q P (status d.id (pos 0)) w (revokes d.id))
  ]

  module _ (draws : ℕ → ℕ → Option Bytes) where
    place_loop-Run :
        (len left call : ℕ) (d : Device) (w : q.World)
        → ((id : Bytes) → P (Call.add (record d { id = id })))
        → Run q P w (place_loop q draws len left call d w).1
    unfolding place_loop
    place_loop-Run len zero call d w adds = here
    place_loop-Run len (suc left) call d w adds =
        elim (Option-cases (generate_device_id (draws call) len)) [
          | inl failed ↦ rw (place_loop, failed) here
          | inr (id, drawn) ↦
              let d' : Device = record d { id = id } in
              let tried = attempt q d' w in
              rw (place_loop, drawn)
                (after_try-Run d' w tried.0 tried.1
                  (place_loop q draws len left (suc call) d' tried.1)
                  (attempt-Run q P finds d' w (adds id))
                  (place_loop-Run len left (suc call) d' tried.1 adds))
        ]

    after_loop-Run :
        (event : FileEvent) (header : Bytes) (first : q.World) (r : Option (Bool × Device))
        (w : q.World)
        → Run q P first w
        → Run q P first (after_loop q draws event header (r, w)).1
    unfolding after_loop
    after_loop-Run event header first none w run = run
    after_loop-Run event header first (some r) w run =
        Run-append q run (finish-Run event header r w)

    module _ (adds : Adds q P finds draws) where
      add-Run :
          (event : FileEvent) (o : AddOptions) (w : q.World) → Run q P w (add q draws event o w).1
      unfolding add
      add-Run event o w = elim (Bool-cases (valid_label o.label)) [
        | inr bad ↦ rw bad here
        | inl good ↦
            elim (Bool-cases
              (lt_ℤ o.id_length (pos device_id_min) || lt_ℤ (pos device_id_max) o.id_length)) [
                | inl out ↦ rw good (rw out here)
                | inr fits ↦ elim (Option-cases (generate_key (draws 0))) [
                  | inl failed ↦ rw (add, good, fits, failed) here
                  | inr (key, drawn) ↦
                      let d : Device = record default_device {
                        status = pos 1;
                        note = o.label;
                        key = key;
                      } in
                      let looped = place_loop q draws (pos_part o.id_length) 16 1 d w in
                      rw (add, good, fits, drawn)
                        (after_loop-Run event o.header w looped.0 looped.1 (
                          place_loop-Run (pos_part o.id_length) 16 1 d w
                            (λ id. adds id key o.label drawn good)))
                ]
              ]
      ]

      module _ (stoi : Bytes → Option ℤ) (lists : P list) (migrates : P migrate)
          (notes : (id label : Bytes) → valid_label label ≡ true → P (note id label)) where
        cmd_add-Run :
            (event : FileEvent) (args : List Bytes) (w : q.World)
            → Run q P w (cmd_add q draws stoi event args w).1
        unfolding cmd_add
        cmd_add-Run event args w = elim (Option-cases (parse_add stoi args add_defaults)) [
          | inl bad ↦ rw (cmd_add, bad) here
          | inr (o, parsed) ↦ rw (cmd_add, parsed) (add-Run event o w)
        ]

        with_one-Run :
            (cmd id : Bytes) (w : q.World)
            → (equal cmd (codes "activate") ≡ true → P (status id (pos 1)))
            → Run q P w (with_one q draws stoi cmd id w).1
        unfolding with_one perform
        with_one-Run cmd id w activates = elim (Bool-cases (equal cmd (codes "revoke"))) [
          | inl r ↦ rw r (Run-one q P (status id (pos 0)) w (revokes id))
          | inr not_r ↦ rw not_r (elim (Bool-cases (equal cmd (codes "activate"))) [
            | inl a ↦ rw a (Run-one q P (status id (pos 1)) w (activates a))
            | inr other ↦ rw other here
          ])
        ]

        with_two-Run :
            (cmd id label : Bytes) (w : q.World)
            → Run q P w (with_two q draws stoi cmd id label w).1
        unfolding with_two perform
        with_two-Run cmd id label w = elim (Bool-cases (equal cmd (codes "label"))) [
          | inr other ↦ rw other here
          | inl l ↦ elim (Bool-cases (valid_label label)) [
            | inr bad ↦ rw l (rw bad here)
            | inl good ↦ rw l (rw good (Run-one q P (note id label) w (notes id label good)))
          ]
        ]

        by_count-Run :
            (cmd : Bytes) (args : List Bytes) (w : q.World)
            → ((id : Bytes) → cmd ∷ args ≡ codes "activate" ∷ id ∷ [] → P (status id (pos 1)))
            → Run q P w (by_count q draws stoi cmd args w).1
        unfolding by_count
        by_count-Run cmd [] w activates = here
        by_count-Run cmd (a ∷ []) w activates = with_one-Run cmd a w (λ h.
            activates a (ap (λ (c : Bytes). c ∷ a ∷ []) ((equal_iff cmd (codes "activate")).0 h)))
        by_count-Run cmd (a ∷ b ∷ []) w activates = with_two-Run cmd a b w
        by_count-Run cmd (a ∷ b ∷ c ∷ args) w activates = here

        command-Run :
            (event : FileEvent) (cmd : Bytes) (args : List Bytes) (w : q.World)
            → ((id : Bytes) → cmd ∷ args ≡ codes "activate" ∷ id ∷ [] → P (status id (pos 1)))
            → Run q P w (command q draws stoi event cmd args w).1
        unfolding command cmd_list perform
        command-Run event cmd args w activates = elim (Bool-cases (equal cmd (codes "add"))) [
          | inl a ↦ rw a (cmd_add-Run event args w)
          | inr not_a ↦
              rw not_a (elim (Bool-cases (equal cmd (codes "list") && no_arguments args)) [
                | inl l ↦ rw l (Run-one q P list w lists)
                | inr other ↦ rw other (by_count-Run cmd args w activates)
              ])
        ]

        pub main-Run :
            (event : FileEvent) (argv : List Bytes) (w : q.World)
            → ((id : Bytes) → argv ≡ codes "activate" ∷ id ∷ [] → P (status id (pos 1)))
            → Run q P w (main q draws stoi event argv w).1
        unfolding main perform
        main-Run event [] w activates = here
        main-Run event (cmd ∷ args) w activates =
            let first = Run-one q P migrate w migrates in
            elim (Bool-cases (migrate_keystore q w).0) [
              | inr broken ↦ rw broken first
              | inl ready ↦ rw ready (
                  Run-append q first
                    (command-Run event cmd args (migrate_keystore q w).1 activates))
            ]
