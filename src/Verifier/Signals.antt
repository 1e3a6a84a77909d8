-- ===== src/Verifier/Signals.antt =====
-- Signals to the verifier at any moment of its start-up, behind `harden_process`, and when it listens.
use x_auth.Base.{ℕ, Bytes, List, [], ◌∷◌, Option, All}
use x_auth.Base.Int.{ℤ}
use x_auth.Keystore.Sqlite.{Sqlite}
use x_auth.Startup.{Entry, Os, OsLaws, Site}
use x_auth.Startup.Private.{Kept}
use x_auth.Startup.Signals.{Signal, Kernel, KernelLaws, harden_process, receive, Left, receive-Left}
use x_auth.Verifier.Startup.{start_verifier, start_verifier-IsStarted}

module _ (os : Os) (laws : OsLaws os) (k : Kernel) (kernel_laws : KernelLaws k) (p : k.Process)
    (before : Entry) where
  -- What each signal leaves where the start-up has passed.
  abbrev pub LeavesAll : List Site → Type 0
  LeavesAll passed =
      All
        (λ (site : Site).
          (s : Signal)
          → let done = receive os k (kernel_laws.action (harden_process k p) s) s site in
            Left before site.entry s done.0 done.1.entry)
        passed

  Kept-LeavesAll :
      (passed : List Site) → All (λ (t : Site). Kept before t.entry) passed → LeavesAll passed
  Kept-LeavesAll [] h = tt
  Kept-LeavesAll (t ∷ passed) h =
      ((λ s. receive-Left os laws k kernel_laws p before t s h.0), Kept-LeavesAll passed h.1)

module _ (q : Sqlite) (rand_bytes : ℕ → Option Bytes) (path_size : ℕ) (stoul : Bytes → Option ℕ)
    (stol : Bytes → Option ℤ) where
  -- A signal at any moment of the start-up of the verifier behind `harden_process`, with any arguments
  -- and whichever calls of the operating system fail: SIGPIPE does nothing. SIGTERM and SIGINT end
  -- the process with status 0, and the path then holds what it held before, or nothing in the place
  -- of a socket, or a socket without rights for others in the place of a socket or of nothing, or
  -- else nothing in the place of another file, which is lost. The calls are as documented.
  pub start_verifier-LeavesAll :
      (os : Os) (laws : OsLaws os) (k : Kernel) (kernel_laws : KernelLaws k) (p : k.Process)
      (args : List Bytes) (s : Site) (w : q.World)
      → LeavesAll os laws k kernel_laws p s.entry
          (start_verifier q rand_bytes path_size stoul stol os args s w).1
  start_verifier-LeavesAll os laws k kernel_laws p args s w =
      let started = start_verifier-IsStarted q rand_bytes path_size stoul stol os laws args s w in
      Kept-LeavesAll os laws k kernel_laws p s.entry
        (start_verifier q rand_bytes path_size stoul stol os args s w).1 started.opened.kept
