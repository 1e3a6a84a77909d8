-- ===== src/Verifier/Protocol.antt =====
-- `handle_request` of verifier/main.cpp: one line, one reply.
pub mod Split
pub mod Replies
pub mod Login
use x_auth.Base.{
  ℕ, zero, suc, Bool, true, false, ◌&&◌, Bytes, codes, List, [], ◌∷◌, ◌++◌, Option, none, some,
  ◌>>=◌, if◌then◌else◌, equal, break_at, decimal,
}
use x_auth.Keystore.Sqlite.{Sqlite}
use x_auth.Keystore.Store.{Device, default_device, Lookup, found, not_found, error, find_device}
use x_auth.Verifier.Check.{is_found, is_active, verify_code}

-- The pieces between single spaces, `n` at most; what stands behind the last one is dropped.
unfoldable pub split_parts : ℕ → Bytes → List Bytes
split_parts zero line = []
split_parts (suc n) line =
    (break_at b' ' line).0
    ∷ (elim (break_at b' ' line).1 [ some rest ↦ split_parts n rest | none ↦ [] ])

abbrev pub reply_no : Bytes
reply_no = codes "NO\n"

abbrev pub reply_err : Bytes
reply_err = codes "ERR\n"

abbrev pub reply_ok : ℕ → Bytes
reply_ok matched = codes "OK " ++ (decimal matched ++ codes "\n")

unfoldable pub verify_reply : Bool × ℕ → Bytes
verify_reply (ok, matched) = if ok then reply_ok matched else reply_no

unfoldable pub status_reply : Lookup → Device → Bytes
unfolding is_found is_active
status_reply error device = reply_err
status_reply l device =
    if is_found l && is_active device.status then codes "ACTIVE\n" else codes "INACTIVE\n"

module _ (hmac : Bytes → Bytes → Option Bytes) (q : Sqlite) (dummy_key : Bytes) where
  unfoldable pub answer : ℕ → List Bytes → q.World → Option Bytes × q.World
  unfolding verify_reply status_reply
  answer time (cmd ∷ id ∷ code ∷ []) w =
      if equal cmd (codes "VERIFY")
      then (let (checked, w') = verify_code hmac q dummy_key time id code w in
          ((do r ← checked; some (verify_reply r)), w'))
      else (some reply_err, w)
  answer time (cmd ∷ id ∷ []) w =
      if equal cmd (codes "STATUS")
      then (let ((l, device), w') = find_device q id default_device w in
          (some (status_reply l device), w'))
      else (some reply_err, w)
  answer time parts w = (some reply_err, w)

  -- The reply, or `none` for a throw.
  unfoldable pub handle_request : ℕ → Bytes → q.World → Option Bytes × q.World
  unfolding answer split_parts
  handle_request time line w = answer time (split_parts 4 line) w
