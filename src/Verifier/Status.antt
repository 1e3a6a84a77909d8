-- ===== src/Verifier/Status.antt =====
-- A `STATUS` over the socket of verifier/main.cpp, which the login page asks about its sessions.
use x_auth.Base.{
  ℕ, zero, suc, ◌≤◌, Bool, true, false, Bytes, codes, List, ◌∷◌, ◌++◌, Option, none, some, Lacks,
  length, equal, if◌then◌else◌, ◌≡◌, ◌≢◌, refl, ap, ◌∙◌, arith, Bool-cases, inl, inr,
}
use x_auth.Base.Int.{ℤ, pos, negsuc}
use x_auth.Keystore.Id.{valid_device_id, valid_device_id_iff, valid_device_id-Lacks}
use x_auth.Keystore.Sqlite.{Row, Sqlite, SqliteLaws}
use x_auth.Keystore.Store.{default_device, read_columns}
use x_auth.Keystore.Answers.{Answers, lookup_row, find_device-lookup}
use x_auth.Socket.{ReadEvent, WriteEvent, peer_allowed}
use x_auth.Socket.ReadLine.{first_line, first_line-front, stream}
use x_auth.Socket.WriteAll.{offered}
use x_auth.Verifier.Check.{is_found, is_active}
use x_auth.Verifier.Protocol.{status_reply, answer, handle_request}
use x_auth.Verifier.Protocol.Split.{split_parts-two}
use x_auth.Verifier.Serve.{max_request, serve}
use x_auth.Verifier.Session.{serve-delivers, Lacks-append}

abbrev is_one : ℤ → Bool
is_one (pos (suc zero)) = true
is_one _ = false

abbrev with_key : Option Bytes → ℤ → Bool
with_key none s = false
with_key (some key) s = is_one s

-- A row with a key and with status 1.
abbrev pub is_live : Option Row → Bool
is_live none = false
is_live (some r) = with_key r.key r.status

abbrev pub status_text : Option Row → Bytes
status_text o = if is_live o then codes "ACTIVE\n" else codes "INACTIVE\n"

is_active-is_one : (s : ℤ) → is_active s ≡ is_one s
unfolding is_active
is_active-is_one (pos zero) = refl
is_active-is_one (pos (suc zero)) = refl
is_active-is_one (pos (suc (suc n))) = ground arith
is_active-is_one (negsuc n) = refl

status_reply-columns :
    (id : Bytes) (key : Option Bytes) (r : Row)
    → let (l, d) = read_columns id default_device key r in
      status_reply l d ≡ (if with_key key r.status then codes "ACTIVE\n" else codes "INACTIVE\n")
unfolding status_reply read_columns is_found
status_reply-columns id none r = refl
status_reply-columns id (some key) r = rw (is_active-is_one r.status) refl

status_reply-row :
    (id : Bytes) (o : Option Row)
    → let (l, d) = lookup_row id default_device o in status_reply l d ≡ status_text o
unfolding status_reply is_found
status_reply-row id none = refl
status_reply-row id (some r) = status_reply-columns id r.key r

length-status_text : (o : Option Row) → length (status_text o) ≤ 24
length-status_text o = elim (Bool-cases (is_live o)) [
  | inl live ↦ rw live (omega arith)
  | inr dead ↦ rw dead (omega arith)
]

abbrev pub status_line : Bytes → Bytes
status_line id = codes "STATUS" ++ b' ' ∷ id

status_line-fits :
    (id : Bytes)
    → valid_device_id id ≡ true
    → (length (status_line id) ≤ max_request) × Lacks b'\n' (status_line id)
status_line-fits id valid =
    let (_, short, _) = (valid_device_id_iff id).0 valid in
    let (_, _, one_line, _) = valid_device_id-Lacks id valid in
    (
      omega arith,
      Lacks-append b'\n' (codes "STATUS") (b' ' ∷ id)
          (
            (λ e. omega (arith, e)),
            (
              (λ e. omega (arith, e)),
              (
                (λ e. omega (arith, e)),
                ((λ e. omega (arith, e)), ((λ e. omega (arith, e)), ((λ e. omega (arith, e)), tt))),
              ),
            ),
          )
          ((λ e. omega (arith, e)), one_line),
    )

module _ (hmac : Bytes → Bytes → Option Bytes) (q : Sqlite) (laws : SqliteLaws q)
    (answers : Answers q) (dummy_key : Bytes) where
  handle_request-status :
      (id : Bytes) (time : ℕ) (w : q.World)
      → valid_device_id id ≡ true
      → (handle_request hmac q dummy_key time (status_line id) w).0
        ≡ some (status_text (laws.find w id))
  unfolding handle_request answer equal
  handle_request-status id time w valid =
      rw (split_parts-two (codes "STATUS") id (omega arith) (valid_device_id-Lacks id valid).1) (
        rw (find_device-lookup q laws answers id default_device w valid)
          (ap some (status_reply-row id (laws.find w id))))

  -- An allowed peer that sends `STATUS` with a valid ID and a newline gets exactly `ACTIVE` if the ID
  -- has a row with a key and status 1, and exactly `INACTIVE` otherwise, whatever the key is and however
  -- the bytes are cut into reads and writes. The writes offer to take 24 bytes, and the keystore can
  -- be read.
  pub serve-status :
      (id rest : Bytes) (time : ℕ) (w : q.World) (allow_uid : ℤ) (uid : Option ℕ)
      (reads : List ReadEvent) (writes : List WriteEvent)
      → valid_device_id id ≡ true
      → peer_allowed allow_uid uid ≡ true
      → stream reads ≡ status_line id ++ b'\n' ∷ rest
      → 24 ≤ offered writes
      → (serve hmac q dummy_key allow_uid uid reads writes time w).0
        ≡ some (status_text (laws.find w id))
  serve-status id rest time w allow_uid uid reads writes valid allowed sent enough =
      let (short, one) = status_line-fits id valid in
      serve-delivers hmac q dummy_key allow_uid uid reads writes time w (status_line id)
        (status_text (laws.find w id)) allowed
        (ap (first_line (suc max_request)) sent
          ∙ first_line-front max_request (status_line id) rest short one)
        (handle_request-status id time w valid) (omega (arith, length-status_text (laws.find w id)))

with_key-not : (key : Option Bytes) (s : ℤ) → s ≢ pos 1 → with_key key s ≡ false
with_key-not none s ne = refl
with_key-not (some key) (pos zero) ne = refl
with_key-not (some key) (pos (suc zero)) ne = absurd (ne refl)
with_key-not (some key) (pos (suc (suc n))) ne = refl
with_key-not (some key) (negsuc n) ne = refl

-- A row of another status.
pub not_live : (r : Row) → r.status ≢ pos 1 → is_live (some r) ≡ false
not_live r ne = with_key-not r.key r.status ne
