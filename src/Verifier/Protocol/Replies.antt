-- ===== src/Verifier/Protocol/Replies.antt =====
-- The replies of `handle_request` of verifier/main.cpp.
use x_auth.Base.{
  ℕ, Bool, true, false, Bytes, codes, List, [], ◌∷◌, Option, some, equal, equal_iff, ◌≡◌, ◌≢◌, inl,
  inr, refl, sym, ap, ◌∙◌, arith, Bool-cases, some_inj, bind-eq-some, cons_inj,
}
use x_auth.Otp.{IsSha256}
use x_auth.Keystore.Sqlite.{Row, Sqlite, SqliteLaws}
use x_auth.Keystore.Store.{Device, default_device, Lookup, found, not_found, error, find_device}
use x_auth.Keystore.Find.{find_device_sound}
use x_auth.Verifier.Check.{is_active, verify_code}
use x_auth.Verifier.Check.Sound.{Authentic, verify_code_sound}
use x_auth.Verifier.Check.Complete.{verify_code-total}
use x_auth.Verifier.Protocol.{
  split_parts, reply_no, reply_err, reply_ok, verify_reply, status_reply, answer, handle_request,
}
use x_auth.Verifier.Protocol.Split.{request_line, split_parts-three}

-- The forms of a reply.
pub data IsReply : Bytes → Type 0 where
  ok : (matched : ℕ) → IsReply (reply_ok matched)
  no_match : IsReply reply_no
  active : IsReply (codes "ACTIVE\n")
  inactive : IsReply (codes "INACTIVE\n")
  refused : IsReply reply_err

verify_reply-IsReply : (r : Bool × ℕ) → IsReply (verify_reply r)
unfolding verify_reply
verify_reply-IsReply (true, m) = ok m
verify_reply-IsReply (false, m) = no_match

status_reply-IsReply : (l : Lookup) (d : Device) → IsReply (status_reply l d)
unfolding status_reply
status_reply-IsReply error d = refused
status_reply-IsReply not_found d = inactive
status_reply-IsReply found d = elim (Bool-cases (is_active d.status)) [
  | inl on ↦ rw on active
  | inr off ↦ rw off inactive
]

module _ (hmac : Bytes → Bytes → Option Bytes) (q : Sqlite) (laws : SqliteLaws q)
    (dummy_key : Bytes) (time : ℕ) where
  -- A reply of a given kind, and the table left alone.
  abbrev pub Served : q.World → Option Bytes × q.World → Type 0
  Served w (reply, w') = ((r : Bytes) × (reply ≡ some r) × IsReply r) × (laws.find w' ≡ laws.find w)

  verify_keeps :
      (id code : Bytes) (w : q.World)
      → laws.find (verify_code hmac q dummy_key time id code w).1 ≡ laws.find w
  unfolding verify_code
  verify_keeps id code w = (find_device_sound q laws id default_device w).1

  answer-Served :
      IsSha256 hmac
      → (parts : List Bytes) (w : q.World) → Served w (answer hmac q dummy_key time parts w)
  unfolding answer
  answer-Served sha [] w = ((reply_err, refl, refused), refl)
  answer-Served sha (a ∷ []) w = ((reply_err, refl, refused), refl)
  answer-Served sha (cmd ∷ id ∷ []) w = elim (Bool-cases (equal cmd (codes "STATUS"))) [
    | inl yes_status ↦
        let (l, d) = (find_device q id default_device w).0 in
        rw yes_status (
          (status_reply l d, refl, status_reply-IsReply l d),
          (find_device_sound q laws id default_device w).1,
        )
    | inr other ↦ rw other ((reply_err, refl, refused), refl)
  ]
  answer-Served sha (cmd ∷ id ∷ code ∷ []) w = elim (Bool-cases (equal cmd (codes "VERIFY"))) [
    | inl yes_verify ↦
        let (r, e) = verify_code-total hmac sha q dummy_key time id code w in
        rw yes_verify ((verify_reply r, rw e, verify_reply-IsReply r), verify_keeps id code w)
    | inr other ↦ rw other ((reply_err, refl, refused), refl)
  ]
  answer-Served sha (a ∷ b ∷ c ∷ d ∷ rest) w = ((reply_err, refl, refused), refl)

  -- With a working HMAC every line gets one of the five replies of the protocol, with no throw. No
  -- request changes the table.
  pub handle_request-served :
      IsSha256 hmac
      → (line : Bytes) (w : q.World)
      → ((r : Bytes) × ((handle_request hmac q dummy_key time line w).0 ≡ some r) × IsReply r)
        × (laws.find (handle_request hmac q dummy_key time line w).1 ≡ laws.find w)
  unfolding handle_request
  handle_request-served sha line w = answer-Served sha (split_parts 4 line) w

-- Only `OK` begins with the letter O.
err_head : (rest : Bytes) → reply_err ≢ b'O' ∷ rest
err_head rest h = absurd (omega (arith, (cons_inj h).0))

status_head : (l : Lookup) (d : Device) (rest : Bytes) → status_reply l d ≢ b'O' ∷ rest
unfolding status_reply
status_head error d rest h = err_head rest h
status_head not_found d rest h = absurd (omega (arith, (cons_inj h).0))
status_head found d rest h = elim (Bool-cases (is_active d.status)) [
  | inl on ↦ absurd (omega (arith, (cons_inj (rw on at h)).0))
  | inr off ↦ absurd (omega (arith, (cons_inj (rw off at h)).0))
]

verify_head :
    (r : Bool × ℕ) (rest : Bytes)
    → verify_reply r ≡ b'O' ∷ rest
    → (r ≡ (true, r.1)) × (reply_ok r.1 ≡ b'O' ∷ rest)
unfolding verify_reply
verify_head (true, m) rest h = (refl, h)
verify_head (false, m) rest h = absurd (omega (arith, (cons_inj h).0))

-- What an `OK` reply says of the request.
pub record Granted (hmac : Bytes → Bytes → Option Bytes) (table : Bytes → Option Row) (time : ℕ)
    (line reply : Bytes) : Type 0 where
  pub id : Bytes
  pub code : Bytes
  pub matched : ℕ
  pub asked : line ≡ request_line (codes "VERIFY") id code
  pub told : reply ≡ reply_ok matched
  pub authentic : Authentic hmac (table id) time id code matched

module _ (hmac : Bytes → Bytes → Option Bytes) (q : Sqlite) (laws : SqliteLaws q)
    (dummy_key : Bytes) (time : ℕ) (line rest : Bytes) (w : q.World) where
  answer-Granted :
      (parts : List Bytes)
      → split_parts 4 line ≡ parts
      → (answer hmac q dummy_key time parts w).0 ≡ some (b'O' ∷ rest)
      → Granted hmac (laws.find w) time line (b'O' ∷ rest)
  unfolding answer
  answer-Granted [] e h = absurd (err_head rest (some_inj h))
  answer-Granted (a ∷ []) e h = absurd (err_head rest (some_inj h))
  answer-Granted (cmd ∷ id ∷ []) e h = elim (Bool-cases (equal cmd (codes "STATUS"))) [
    | inl yes_status ↦
        let (l, d) = (find_device q id default_device w).0 in
        absurd (status_head l d rest (some_inj (rw yes_status at h)))
    | inr other ↦ absurd (err_head rest (some_inj (rw other at h)))
  ]
  answer-Granted (cmd ∷ id ∷ code ∷ []) e h = elim (Bool-cases (equal cmd (codes "VERIFY"))) [
    | inr other ↦ absurd (err_head rest (some_inj (rw other at h)))
    | inl yes_verify ↦
        let (r, checked, told) =
          bind-eq-some (verify_code hmac q dummy_key time id code w).0
            (λ (r : Bool × ℕ). some (verify_reply r)) (rw yes_verify at h) in
        let (is_ok, reply) = verify_head r rest (some_inj told) in
        record {
          id = id;
          code = code;
          matched = r.1;
          asked =
              split_parts-three line cmd id code e
              ∙ ap (λ c. request_line c id code) ((equal_iff cmd (codes "VERIFY")).0 yes_verify);
          told = sym reply;
          authentic =
              verify_code_sound hmac q laws dummy_key time id code w r.1 (checked ∙ ap some is_ok);
        }
  ]
  answer-Granted (a ∷ b ∷ c ∷ d ∷ more) e h = absurd (err_head rest (some_inj h))

  -- A reply that begins with O is given only to the line `VERIFY id code`, for an ID that stands in
  -- the table as an active device with a full key, and a code that its key makes in the window; the
  -- number in the reply is the counter of that code.
  pub handle_request-Granted :
      (handle_request hmac q dummy_key time line w).0 ≡ some (b'O' ∷ rest)
      → Granted hmac (laws.find w) time line (b'O' ∷ rest)
  unfolding handle_request
  handle_request-Granted h = answer-Granted (split_parts 4 line) refl h
