-- ===== src/Verifier/Calls.antt =====
-- Which calls of the keystore a connection to verifier/main.cpp makes.
use x_auth.Base.{
  ℕ, suc, Bytes, codes, List, [], ◌∷◌, Option, none, some, equal, Bool-cases, inl, inr,
}
use x_auth.Base.Int.{ℤ}
use x_auth.Keystore.Sqlite.{Sqlite}
use x_auth.Keystore.Store.{Device, default_device}
use x_auth.Keystore.Calls.{Call, find, perform, Run, here, Run-one}
use x_auth.Socket.{ReadEvent, WriteEvent, read_line, peer_allowed}
use x_auth.Verifier.Check.{verify_code}
use x_auth.Verifier.Protocol.{split_parts, answer, handle_request}
use x_auth.Verifier.Serve.{max_request, serve_line, serve}

module _ (hmac : Bytes → Bytes → Option Bytes) (q : Sqlite) (dummy_key : Bytes) (P : Call → Type 0)
    (finds : (id : Bytes) (out : Device) → P (find id out)) where
  verify_code-Run :
      (time : ℕ) (id code : Bytes) (w : q.World)
      → Run q P w (verify_code hmac q dummy_key time id code w).1
  unfolding verify_code perform
  verify_code-Run time id code w = Run-one q P (find id default_device) w (finds id default_device)

  answer-Run :
      (time : ℕ) (parts : List Bytes) (w : q.World)
      → Run q P w (answer hmac q dummy_key time parts w).1
  unfolding answer perform
  answer-Run time [] w = here
  answer-Run time (a ∷ []) w = here
  answer-Run time (cmd ∷ id ∷ []) w = elim (Bool-cases (equal cmd (codes "STATUS"))) [
    | inl s ↦ rw s (Run-one q P (find id default_device) w (finds id default_device))
    | inr other ↦ rw other here
  ]
  answer-Run time (cmd ∷ id ∷ code ∷ []) w = elim (Bool-cases (equal cmd (codes "VERIFY"))) [
    | inl v ↦ rw v (verify_code-Run time id code w)
    | inr other ↦ rw other here
  ]
  answer-Run time (a ∷ b ∷ c ∷ d ∷ more) w = here

  serve_line-Run :
      (writes : List WriteEvent) (time : ℕ) (line : Option Bytes) (w : q.World)
      → Run q P w (serve_line hmac q dummy_key writes time line w).1
  unfolding serve_line handle_request
  serve_line-Run writes time none w = here
  serve_line-Run writes time (some line) w = answer-Run time (split_parts 4 line) w

  pub serve-Run :
      (allow_uid : ℤ) (uid : Option ℕ) (reads : List ReadEvent) (writes : List WriteEvent)
      (time : ℕ) (w : q.World)
      → Run q P w (serve hmac q dummy_key allow_uid uid reads writes time w).1
  unfolding serve
  serve-Run allow_uid uid reads writes time w = elim (Bool-cases (peer_allowed allow_uid uid)) [
    | inr refused ↦ rw refused here
    | inl allowed ↦ rw allowed (serve_line-Run writes time (read_line (suc max_request) reads []) w)
  ]
