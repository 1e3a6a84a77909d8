-- ===== src/Verifier/Serve.antt =====
-- `serve` of verifier/main.cpp: one connection, from the peer's credentials to the bytes that it gets
-- back. The drain that follows is `Socket.drain`; the count of connections is in `InFlight`.
use x_auth.Base.{
  ℕ, suc, true, not, Bytes, List, [], ◌∷◌, ◌++◌, Option, none, some, ◌>>=◌, bind-eq-some,
  if◌then◌else◌, ◌≡◌, ◌≢◌, refl, sym, ap, ◌∙◌, arith, Bool-cases, inl, inr, some_inj, cons_inj,
}
use x_auth.Base.Int.{ℤ}
use x_auth.Keystore.Sqlite.{Row, Sqlite, SqliteLaws}
use x_auth.Socket.{ReadEvent, WriteEvent, read_line, write_all, peer_allowed}
use x_auth.Socket.ReadLine.{first_line, stream, read_line-stream}
use x_auth.Socket.WriteAll.{write_all-prefix}
use x_auth.Verifier.Protocol.{reply_err, handle_request}
use x_auth.Verifier.Protocol.Replies.{Granted, handle_request-Granted}

abbrev pub max_request : ℕ
max_request = 64

module _ (hmac : Bytes → Bytes → Option Bytes) (q : Sqlite) (dummy_key : Bytes) where
  -- What is written for a line, or for no line; `none` is a throw.
  unfoldable pub serve_line : List WriteEvent → ℕ → Option Bytes → q.World → Option Bytes × q.World
  serve_line writes time none w = (some (write_all writes reply_err), w)
  serve_line writes time (some line) w =
      let (reply, w') = handle_request hmac q dummy_key time line w in
      ((do r ← reply; some (write_all writes r)), w')

  -- A refused peer gets nothing.
  unfoldable pub serve :
      ℤ → Option ℕ → List ReadEvent → List WriteEvent → ℕ → q.World → Option Bytes × q.World
  unfolding serve_line
  serve allow_uid uid reads writes time w =
      if not (peer_allowed allow_uid uid)
      then (some [], w)
      else serve_line writes time (read_line (suc max_request) reads []) w

-- What a connection that gets the letter O back has asked for.
pub record Served (hmac : Bytes → Bytes → Option Bytes) (table : Bytes → Option Row) (time : ℕ)
    (reads : List ReadEvent) (delivered : Bytes) : Type 0 where
  pub line : Bytes
  pub reply : Bytes
  pub unsent : Bytes
  pub sent : first_line (suc max_request) (stream reads) ≡ some line
  pub granted : Granted hmac table time line reply
  pub front : delivered ++ unsent ≡ reply

module _ (hmac : Bytes → Bytes → Option Bytes) (q : Sqlite) (laws : SqliteLaws q)
    (dummy_key : Bytes) (reads : List ReadEvent) (writes : List WriteEvent) (time : ℕ)
    (rest : Bytes) (w : q.World) where
  err_not_ok : (unsent : Bytes) → (b'O' ∷ rest) ++ unsent ≢ reply_err
  err_not_ok unsent e = absurd (omega (arith, (cons_inj e).0))

  serve_line-Served :
      (line : Option Bytes)
      → first_line (suc max_request) (stream reads) ≡ line
      → (serve_line hmac q dummy_key writes time line w).0 ≡ some (b'O' ∷ rest)
      → Served hmac (laws.find w) time reads (b'O' ∷ rest)
  unfolding serve_line
  serve_line-Served none sent h =
      let (unsent, front) = write_all-prefix writes reply_err in
      absurd (err_not_ok unsent (ap (λ t. t ++ unsent) (sym (some_inj h)) ∙ front))
  serve_line-Served (some line) sent h =
      let (reply, replied, delivered) =
        bind-eq-some (handle_request hmac q dummy_key time line w).0
          (λ (r : Bytes). some (write_all writes r)) h in
      let (unsent, front) = write_all-prefix writes reply in
      let whole : b'O' ∷ (rest ++ unsent) ≡ reply =
        ap (λ t. t ++ unsent) (sym (some_inj delivered)) ∙ front in
      record {
        line = line;
        reply = b'O' ∷ (rest ++ unsent);
        unsent = unsent;
        sent = sent;
        granted =
            handle_request-Granted hmac q laws dummy_key time line (rest ++ unsent) w
              (replied ∙ ap some (sym whole));
        front = refl;
      }

  -- A connection gets bytes that begin with O only if its peer is allowed and the first line of what
  -- it sent ends within 65 bytes and is granted; the bytes are a front part of that line's reply. It
  -- holds however the stream is cut into reads and the writes are cut short.
  pub serve-Served :
      (allow_uid : ℤ) (uid : Option ℕ)
      → (serve hmac q dummy_key allow_uid uid reads writes time w).0 ≡ some (b'O' ∷ rest)
      → (peer_allowed allow_uid uid ≡ true) × Served hmac (laws.find w) time reads (b'O' ∷ rest)
  unfolding serve
  serve-Served allow_uid uid h = elim (Bool-cases (peer_allowed allow_uid uid)) [
    | inr refused ↦ absurd (nothing_sent (rw refused at h))
    | inl allowed ↦ (
      allowed,
      serve_line-Served (read_line (suc max_request) reads [])
          (sym (read_line-stream (suc max_request) reads)) (rw allowed at h),
    )
  ]
    where
      nothing_sent : ¬ ◌≡◌ {A = Option Bytes} (some []) (some (b'O' ∷ rest))
      nothing_sent e = cc e
