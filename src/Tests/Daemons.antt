-- ===== src/Tests/Daemons.antt =====
-- The start-up of the daemons on the keystore in memory, with a stale socket at the path.
use x_auth.Base.{
  ℕ, ◌*◌, ◌+◌, true, false, Bytes, codes, List, [], ◌∷◌, Option, some, ◌≡◌, ◌≢◌, refl, Bool, false,
  none, ◌-◌, ◌%◌, inl, ap, equal, c_str,
}
use x_auth.Base.Decimal.{value}
use x_auth.Base.Int.{ℤ, pos}
use x_auth.Keygen.{hex_bytes}
use x_auth.Keystore.Id.{crockford_char, crockford_chars, valid_device_id}
use x_auth.Keystore.Store.{column_text, read_columns, read_step, open_db, find_device}
use x_auth.Startup.{
  Entry, absent, other_file, socket_file, Os, OsLaws, Site, listening, parse_options, set_option,
  open_listener, after_lstat, make_listener, after_bind,
}
use x_auth.Verifier.Check.{random_hex_key}
use x_auth.Startup.Private.{IsStarted}
use x_auth.Startup.Signals.{
  Signal, sig_pipe, sig_term, sig_int, Action, by_default, killed, Kernel, KernelLaws,
}
use x_auth.Verifier.Signals.{LeavesAll, start_verifier-LeavesAll}
use x_auth.Verifier.Startup.{
  IsVerifierReady, probe, with_options, start_verifier, start_verifier-IsStarted,
}
use x_auth.Admin.Startup.{IsAdminReady, start_admin, start_admin-IsStarted}
use x_auth.Tests.Fixtures.{memory, memory_laws, keystore, drawn}

abbrev octal : Bytes → Option ℕ
octal s = some (6 * 64 + 6 * 8)

abbrev number : Bytes → Option ℤ
number s = some (pos (value s))

abbrev args : List Bytes
args = codes "--socket" ∷ codes "run/s" ∷ codes "--mode" ∷ codes "660" ∷ []

abbrev stale : Site
stale = record { entry = socket_file 0x1ff; umask = 0x12 }

abbrev bind_entry : ℕ → Entry → Bool × Entry
bind_entry umask absent = (true, socket_file (0x1ff - umask % 0x200))
bind_entry umask e = (false, e)

abbrev chmod_entry : ℕ → Entry → Entry
chmod_entry n (socket_file m) = socket_file n
chmod_entry n e = e

abbrev is_socket : Entry → Option Bool
is_socket absent = none
is_socket other_file = some false
is_socket (socket_file m) = some true

-- No call fails that can succeed.
abbrev calm : Os
calm = record {
  lstat = λ s. is_socket s.entry;
  unlink = λ s. record s { entry = absent };
  socket = true;
  bind = λ s. ((bind_entry s.umask s.entry).0, record s { entry = (bind_entry s.umask s.entry).1 });
  chmod = λ n s. (true, record s { entry = chmod_entry n s.entry });
  listen = true;
}

at_socket : (e : Entry) → is_socket e ≡ some true → (m : ℕ) × (e ≡ socket_file m)
at_socket absent h = cc h
at_socket other_file h = cc h
at_socket (socket_file m) h = (m, refl)

bind_free : (u : ℕ) (e : Entry) → (bind_entry u e).0 ≡ true → e ≡ absent
bind_free u absent h = refl
bind_free u other_file h = cc h
bind_free u (socket_file m) h = cc h

bind_made :
    (u : ℕ) (e : Entry)
    → (bind_entry u e).0 ≡ true
    → (bind_entry u e).1 ≡ socket_file (0x1ff - u % 0x200)
bind_made u absent h = refl
bind_made u other_file h = cc h
bind_made u (socket_file m) h = cc h

bind_failed : (u : ℕ) (e : Entry) → (bind_entry u e).0 ≡ false → (bind_entry u e).1 ≡ e
bind_failed u absent h = cc h
bind_failed u other_file h = refl
bind_failed u (socket_file m) h = refl

calm_laws : OsLaws calm
calm_laws = record {
  lstat-socket = λ s h. at_socket s.entry h;
  unlink-entry = λ s. inl refl;
  unlink-umask = λ s. refl;
  bind-free = λ s h. bind_free s.umask s.entry h;
  bind-made = λ s h. bind_made s.umask s.entry h;
  bind-failed = λ s h. bind_failed s.umask s.entry h;
  chmod-done = λ n m s e h. ap (chmod_entry n) e;
  chmod-failed = λ n s h. cc h;
  chmod-umask = λ n s. refl;
}

start_verifier-IsStarted_example :
    IsStarted
      (IsVerifierReady memory drawn 108 octal number calm args keystore)
      stale
      (start_verifier memory drawn 108 octal number calm args stale keystore)
start_verifier-IsStarted_example =
    start_verifier-IsStarted memory drawn 108 octal number calm calm_laws args stale keystore

start_admin-IsStarted_example :
    IsStarted
      (IsAdminReady memory 108 octal number calm args keystore)
      stale
      (start_admin memory 108 octal number calm args stale keystore).0
    × (memory_laws.find (start_admin memory 108 octal number calm args stale keystore).1
        ≡ memory_laws.find keystore)
start_admin-IsStarted_example =
    start_admin-IsStarted memory 108 octal number calm calm_laws memory_laws args stale keystore

-- The verifier listens.
verifier_listens :
    (start_verifier memory drawn 108 octal number calm args stale keystore).0 ≡ listening
unfolding start_verifier with_options probe parse_options set_option equal random_hex_key hex_bytes
    find_device valid_device_id crockford_chars crockford_char open_db read_step read_columns
    column_text c_str open_listener after_lstat make_listener after_bind
verifier_listens = refl

-- What happens on each signal.
abbrev Table : Type 0
Table = Signal → Action

abbrev set_action : Signal → Action → Table → Table
set_action sig_pipe a t sig_pipe = a
set_action sig_pipe a t sig_term = t sig_term
set_action sig_pipe a t sig_int = t sig_int
set_action sig_term a t sig_pipe = t sig_pipe
set_action sig_term a t sig_term = a
set_action sig_term a t sig_int = t sig_int
set_action sig_int a t sig_pipe = t sig_pipe
set_action sig_int a t sig_term = t sig_term
set_action sig_int a t sig_int = a

abbrev kernel : Kernel
kernel = record {
  Process = Table;
  limit_core = λ soft hard t. t;
  set_dumpable = λ n t. t;
  signal = set_action;
  default_outcome = λ s. killed;
}

set_same : (s : Signal) (a : Action) (t : Table) → set_action s a t s ≡ a
set_same sig_pipe a t = refl
set_same sig_term a t = refl
set_same sig_int a t = refl

set_other : (s u : Signal) (a : Action) (t : Table) → s ≢ u → set_action s a t u ≡ t u
set_other sig_pipe sig_pipe a t ne = absurd (ne refl)
set_other sig_pipe sig_term a t ne = refl
set_other sig_pipe sig_int a t ne = refl
set_other sig_term sig_pipe a t ne = refl
set_other sig_term sig_term a t ne = absurd (ne refl)
set_other sig_term sig_int a t ne = refl
set_other sig_int sig_pipe a t ne = refl
set_other sig_int sig_term a t ne = refl
set_other sig_int sig_int a t ne = absurd (ne refl)

kernel_laws : KernelLaws kernel
kernel_laws = record { action = λ t. t; signal-set = set_same; signal-other = set_other }

unset : Table
unset s = by_default

start_verifier-LeavesAll_example :
    LeavesAll calm calm_laws kernel kernel_laws unset
      (socket_file 0x1ff)
      (start_verifier memory drawn 108 octal number calm args stale keystore).1
start_verifier-LeavesAll_example =
    start_verifier-LeavesAll memory drawn 108 octal number calm calm_laws kernel kernel_laws unset
      args stale keystore
