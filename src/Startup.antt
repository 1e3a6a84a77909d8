-- ===== src/Startup.antt =====
-- The start-up that `main` of verifier/main.cpp and `main` of admin/main.cpp share: the options and the
-- socket. `stoul` and `stol` are the functions of the standard library, `stoul` with base 8. What
-- goes to the error stream is left out. Signals has what the daemons do with signals.
pub mod Private
pub mod Signals
use x_auth.Base.{
  ℕ, ◌+◌, ◌*◌, ◌-◌, ◌/◌, ◌%◌, ◌^◌, Bool, true, false, not, Bytes, codes, List, [], ◌∷◌, ◌++◌,
  Option, none, some, ◌>>=◌, if◌then◌else◌, ◌≡◌, ◌⊎◌, equal, leb, length,
}
use x_auth.Base.Int.{ℤ, pos, negsuc}

pub record Options : Type 0 where
  pub path : Bytes
  pub mode : ℕ
  pub allow_uid : ℤ

-- 0660 is 6 * 64 + 6 * 8.
abbrev pub defaults : Options
defaults = record { path = []; mode = 6 * 64 + 6 * 8; allow_uid = negsuc 0 }

module _ (stoul : Bytes → Option ℕ) (stol : Bytes → Option ℤ) where
  -- One option with its value; `none` is the way to `usage`. A mode is a 32-bit number.
  unfoldable pub set_option : Bytes → Bytes → Options → Option Options
  set_option arg val o =
      if equal arg (codes "--socket")
      then some (record o { path = val })
      else if equal arg (codes "--mode")
      then (do n ← stoul val; some (record o { mode = n % 2 ^ 32 }))
      else if equal arg (codes "--allow-uid")
      then (do n ← stol val; some (record o { allow_uid = n }))
      else none

  unfoldable pub parse_options : List Bytes → Options → Option Options
  unfolding set_option
  parse_options [] o = some o
  parse_options (arg ∷ []) o = none
  parse_options (arg ∷ val ∷ args) o = do o' ← set_option arg val o; parse_options args o'

-- What stands at the path: a socket has a mode.
pub data Entry : Type 0 where
  absent other_file : Entry
  socket_file : ℕ → Entry

pub record Site : Type 0 where
  pub entry : Entry
  pub umask : ℕ

-- The calls of the operating system on the path, which nobody else changes meanwhile. `lstat` says
-- whether a socket stands there, and `socket` and `listen` whether the call succeeds.
pub record Os : Type 0 where
  pub lstat : Site → Option Bool
  pub unlink : Site → Site
  pub socket : Bool
  pub bind : Site → Bool × Site
  pub chmod : ℕ → Site → Bool × Site
  pub listen : Bool

-- What is documented of them. `bind` fails where something stands at the path; the socket that it
-- makes has the mode 0777 without the bits of the umask.
pub record OsLaws (os : Os) : Type 0 where
  pub lstat-socket : (s : Site) → os.lstat s ≡ some true → (m : ℕ) × (s.entry ≡ socket_file m)
  pub unlink-entry : (s : Site) → ((os.unlink s).entry ≡ absent) ⊎ ((os.unlink s).entry ≡ s.entry)
  pub unlink-umask : (s : Site) → (os.unlink s).umask ≡ s.umask
  pub bind-free : (s : Site) → (os.bind s).0 ≡ true → s.entry ≡ absent
  pub bind-made :
      (s : Site)
      → (os.bind s).0 ≡ true
      → (os.bind s).1.entry ≡ socket_file (0x1ff - s.umask % 0x200)
  pub bind-failed : (s : Site) → (os.bind s).0 ≡ false → (os.bind s).1.entry ≡ s.entry
  pub chmod-done :
      (n m : ℕ) (s : Site)
      → s.entry ≡ socket_file m
      → (os.chmod n s).0 ≡ true
      → (os.chmod n s).1.entry ≡ socket_file n
  pub chmod-failed :
      (n : ℕ) (s : Site) → (os.chmod n s).0 ≡ false → (os.chmod n s).1.entry ≡ s.entry
  pub chmod-umask : (n : ℕ) (s : Site) → (os.chmod n s).1.umask ≡ s.umask

pub data Started : Type 0 where
  exited : ℕ → Started
  listening : Started

-- `mode & 0770`.
abbrev pub masked : ℕ → ℕ
masked mode = mode % 0x200 / 8 * 8

module _ (os : Os) where
  -- From `chmod` on, with the sites that are passed, the last one first.
  unfoldable pub after_bind : ℕ → Bool → Site → List Site → Started × List Site
  after_bind mode bound s passed =
      if not bound
      then (exited 1, s ∷ passed)
      else (let (changed, s') = os.chmod (masked mode) s in
          (
            (if not changed then exited 1 else if not os.listen then exited 1 else listening),
            s' ∷ s ∷ passed,
          ))

  -- From `socket` on.
  unfoldable pub make_listener : ℕ → Site → List Site → Started × List Site
  unfolding after_bind
  make_listener mode s passed =
      if not os.socket
      then (exited 1, s ∷ passed)
      else (let (bound, s') = os.bind (record s { umask = 0x7f }) in
          after_bind mode bound (record s' { umask = s.umask })
            (s' ∷ record s { umask = 0x7f } ∷ s ∷ passed))

  -- From the answer of `lstat` on.
  unfoldable pub after_lstat : ℕ → Site → Option Bool → Started × List Site
  unfolding make_listener
  after_lstat mode s none = make_listener mode s []
  after_lstat mode s (some false) = (exited 1, s ∷ [])
  after_lstat mode s (some true) = make_listener mode (os.unlink s) (s ∷ [])

  unfoldable pub open_listener : ℕ → Site → Started × List Site
  unfolding after_lstat
  open_listener mode s = after_lstat mode s (os.lstat s)

-- Whether the path is one that a socket can have; `path_size` is the size of `sun_path`.
abbrev pub fits_path : ℕ → Bytes → Bool
fits_path path_size [] = false
fits_path path_size (c ∷ path) = not (leb path_size (length (c ∷ path)))
