-- ===== src/Startup/Private.antt =====
-- What the start-up does to the path, and with which rights.
use x_auth.Base.{
  Option, none, some, ℕ, ◌%◌, ◌<◌, Bool, true, false, List, [], ◌∷◌, All, ◌≡◌, ◌≢◌, refl, sym, ◌∙◌,
  arith, subst, Bool-cases, inl, inr,
}
use x_auth.Startup.{
  Entry, absent, other_file, socket_file, Site, Os, OsLaws, Started, exited, listening, masked,
  after_bind, make_listener, after_lstat, open_listener,
}

-- What may stand at the path later: the same, nothing in the place of a socket, or a socket that
-- gives others no rights, in the place of anything but another file.
pub data Kept (before : Entry) : Entry → Type 0 where
  same : Kept before before
  removed : (m : ℕ) → before ≡ socket_file m → Kept before absent
  made : (m : ℕ) → before ≢ other_file → m % 8 ≡ 0 → m < 0x200 → Kept before (socket_file m)

socket-ne-other : (m : ℕ) → socket_file m ≢ other_file
socket-ne-other m e = cc e

absent-ne-other : absent ≢ other_file
absent-ne-other e = cc e

Kept-ne : {before e : Entry} → Kept before e → e ≢ other_file → before ≢ other_file
Kept-ne same h = h
Kept-ne (removed m e) h = λ f. socket-ne-other m (sym e ∙ f)
Kept-ne (made m ne _ _) h = ne

abbrev pub latest : Site → List Site → Site
latest s [] = s
latest s (t ∷ passed) = t

-- How the socket is opened; `passed` has the sites from the last to the first.
pub record Opened (mode : ℕ) (s : Site) (started : Started) (passed : List Site) : Type 0 where
  pub kept : All (λ (t : Site). Kept s.entry t.entry) passed
  pub restored : (latest s passed).umask ≡ s.umask
  pub ready : started ≡ listening → (latest s passed).entry ≡ socket_file (masked mode)

not_listening : (n : ℕ) → exited n ≢ listening
not_listening n e = cc e

stopped :
    (mode n : ℕ) (s t : Site) (passed : List Site)
    → All (λ (x : Site). Kept s.entry x.entry) (t ∷ passed)
    → t.umask ≡ s.umask
    → Opened mode s (exited n) (t ∷ passed)
stopped mode n s t passed kept same_umask = record {
  kept = kept;
  restored = same_umask;
  ready = λ e. absurd (not_listening n e);
}

module _ (os : Os) (laws : OsLaws os) where
  bind-Kept :
      (before : Entry) (s : Site)
      → s.umask ≡ 0x7f
      → Kept before s.entry
      → Kept before (os.bind s).1.entry
  bind-Kept before s u k = elim (Bool-cases (os.bind s).0) [
    | inr failed ↦ subst (λ (e : Entry). Kept before e) (sym (laws.bind-failed s failed)) k
    | inl bound ↦
        subst (λ (e : Entry). Kept before e) (sym (laws.bind-made s bound))
          (made _ (Kept-ne k (λ e. absent-ne-other (sym (laws.bind-free s bound) ∙ e)))
            (ground (arith, u)) (omega (arith, u)))
  ]

  chmod-Kept :
      (mode m : ℕ) (before : Entry) (s : Site)
      → s.entry ≡ socket_file m
      → Kept before s.entry
      → Kept before (os.chmod (masked mode) s).1.entry
  chmod-Kept mode m before s at_socket k = elim (Bool-cases (os.chmod (masked mode) s).0) [
    | inr failed ↦
        subst (λ (e : Entry). Kept before e) (sym (laws.chmod-failed (masked mode) s failed)) k
    | inl changed ↦
        subst (λ (e : Entry). Kept before e)
          (sym (laws.chmod-done (masked mode) m s at_socket changed))
          (made (masked mode) (Kept-ne k (λ e. socket-ne-other m (sym at_socket ∙ e)))
            (ground arith) (ground arith))
  ]

  after_bind-Opened :
      (mode : ℕ) (bound : Bool) (s t : Site) (passed : List Site)
      → All (λ (x : Site). Kept s.entry x.entry) (t ∷ passed)
      → t.umask ≡ s.umask
      → (bound ≡ true → (m : ℕ) × (t.entry ≡ socket_file m))
      → Opened mode s (after_bind os mode bound t passed).0 (after_bind os mode bound t passed).1
  unfolding after_bind
  after_bind-Opened mode false s t passed kept u there = stopped mode 1 s t passed kept u
  after_bind-Opened mode true s t passed kept u there =
      let (m, at_socket) = there refl in
      let all : All (λ (x : Site). Kept s.entry x.entry)
          ((os.chmod (masked mode) t).1 ∷ t ∷ passed) =
        (chmod-Kept mode m s.entry t at_socket kept.0, kept) in
      let umask = laws.chmod-umask (masked mode) t ∙ u in
      elim (Bool-cases (os.chmod (masked mode) t).0) [
        | inr bad ↦ rw bad (stopped mode 1 s _ _ all umask)
        | inl good ↦ rw good (elim (Bool-cases os.listen) [
          | inr deaf ↦ rw deaf (stopped mode 1 s _ _ all umask)
          | inl heard ↦ rw heard (record {
            kept = all;
            restored = umask;
            ready = λ _. laws.chmod-done (masked mode) m t at_socket good;
          })
        ])
      ]

  make_listener-Opened :
      (mode : ℕ) (s t : Site) (passed : List Site)
      → All (λ (x : Site). Kept s.entry x.entry) (t ∷ passed)
      → t.umask ≡ s.umask
      → Opened mode s (make_listener os mode t passed).0 (make_listener os mode t passed).1
  unfolding make_listener
  make_listener-Opened mode s t passed kept u = elim (Bool-cases os.socket) [
    | inr bad ↦ rw bad (stopped mode 1 s t passed kept u)
    | inl good ↦
        let t' : Site = record t { umask = 0x7f } in
        let k = bind-Kept s.entry t' refl kept.0 in
        rw good (
          after_bind-Opened mode (os.bind t').0 s _ _ (k, (k, (kept.0, kept))) u
            (λ bound. (_, laws.bind-made t' bound)))
  ]

  unlink-Kept : (s : Site) (m : ℕ) → s.entry ≡ socket_file m → Kept s.entry (os.unlink s).entry
  unlink-Kept s m at_socket = elim (laws.unlink-entry s) [
    | inl gone ↦ subst (λ (e : Entry). Kept s.entry e) (sym gone) (removed m at_socket)
    | inr there ↦ subst (λ (e : Entry). Kept s.entry e) (sym there) same
  ]

  after_lstat-Opened :
      (mode : ℕ) (s : Site) (seen : Option Bool)
      → os.lstat s ≡ seen
      → Opened mode s (after_lstat os mode s seen).0 (after_lstat os mode s seen).1
  unfolding after_lstat
  after_lstat-Opened mode s none h = make_listener-Opened mode s s [] (same, tt) refl
  after_lstat-Opened mode s (some false) h = stopped mode 1 s s [] (same, tt) refl
  after_lstat-Opened mode s (some true) h =
      let (m, at_socket) = laws.lstat-socket s h in
      make_listener-Opened mode s (os.unlink s) (s ∷ []) (unlink-Kept s m at_socket, (same, tt))
        (laws.unlink-umask s)

  open_listener-Opened :
      (mode : ℕ) (s : Site) → Opened mode s (open_listener os mode s).0 (open_listener os mode s).1
  unfolding open_listener
  open_listener-Opened mode s = after_lstat-Opened mode s (os.lstat s) refl

-- How a start-up ends: for some mode, the socket was opened so, and if it listens, the mode is fit for
-- that.
pub record IsStarted (fit : ℕ → Type 0) (s : Site) (r : Started × List Site) : Type 0 where
  pub mode : ℕ
  pub opened : Opened mode s r.0 r.1
  pub ready : r.0 ≡ listening → fit mode

pub exit_early : (fit : ℕ → Type 0) (n : ℕ) (s : Site) → IsStarted fit s (exited n, s ∷ [])
exit_early fit n s = record {
  mode = 0;
  opened = stopped 0 n s s [] (same, tt) refl;
  ready = λ e. absurd (not_listening n e);
}

pub listen_with :
    (fit : ℕ → Type 0) (os : Os) (laws : OsLaws os) (mode : ℕ) (s : Site)
    → fit mode
    → IsStarted fit s (open_listener os mode s)
listen_with fit os laws mode s h = record {
  mode = mode;
  opened = open_listener-Opened os laws mode s;
  ready = λ _. h;
}
