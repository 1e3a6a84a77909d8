-- ===== src/Startup/Signals.antt =====
-- Signals to the daemons: `harden_process` and `on_signal` of verifier/main.cpp, whose bodies are also
-- in `main` and `on_signal` of admin/main.cpp.
use x_auth.Base.{ℕ, ◌≡◌, ◌≢◌, inl, inr, refl, sym, ◌∙◌, subst}
use x_auth.Startup.{Entry, absent, other_file, socket_file, Site, Os, OsLaws}
use x_auth.Startup.Private.{Kept, same, removed}

pub data Signal : Type 0 where
  sig_pipe sig_term sig_int : Signal

pub data Action : Type 0 where
  by_default ignored handled : Action

-- How a process is after a signal.
pub data Outcome : Type 0 where
  goes_on killed : Outcome
  quit : ℕ → Outcome

-- The calls that set up a process, and what the system does on a signal by default.
pub record Kernel : Type 1 where
  pub Process : Type 0
  pub limit_core : ℕ → ℕ → Process → Process
  pub set_dumpable : ℕ → Process → Process
  pub signal : Signal → Action → Process → Process
  pub default_outcome : Signal → Outcome

-- What is documented of `signal`: it sets what happens on one signal.
pub record KernelLaws (k : Kernel) : Type 0 where
  pub action : k.Process → Signal → Action
  pub signal-set : (s : Signal) (a : Action) (p : k.Process) → action (k.signal s a p) s ≡ a
  pub signal-other :
      (s t : Signal) (a : Action) (p : k.Process) → s ≢ t → action (k.signal s a p) t ≡ action p t

unfoldable pub harden_process : (k : Kernel) → k.Process → k.Process
harden_process k p =
    let quiet = k.set_dumpable 0 (k.limit_core 0 0 p) in
    k.signal sig_int handled (k.signal sig_term handled (k.signal sig_pipe ignored quiet))

unfoldable pub on_signal : Os → Site → Outcome × Site
on_signal os s = (quit 0, os.unlink s)

-- A signal that is handled calls the handler, one that is ignored does nothing.
unfoldable pub receive : Os → Kernel → Action → Signal → Site → Outcome × Site
unfolding on_signal
receive os k by_default sig s = (k.default_outcome sig, s)
receive os k ignored sig s = (goes_on, s)
receive os k handled sig s = on_signal os s

-- What a signal leaves at the path, in the place of `before`, when `now` stands there.
pub data Left (before now : Entry) : Signal → Outcome → Entry → Type 0 where
  nothing_done : Left before now sig_pipe goes_on now
  kept : (s : Signal) (e : Entry) → s ≢ sig_pipe → Kept before e → Left before now s (quit 0) e
  lost_file : (s : Signal) → s ≢ sig_pipe → before ≡ other_file → Left before now s (quit 0) absent

module _ (os : Os) (laws : OsLaws os) (k : Kernel) (kernel_laws : KernelLaws k) where
  term-handled : (p : k.Process) → kernel_laws.action (harden_process k p) sig_term ≡ handled
  unfolding harden_process
  term-handled p =
      kernel_laws.signal-other sig_int sig_term handled _ (λ e. cc e)
      ∙ kernel_laws.signal-set sig_term handled _

  int-handled : (p : k.Process) → kernel_laws.action (harden_process k p) sig_int ≡ handled
  unfolding harden_process
  int-handled p = kernel_laws.signal-set sig_int handled _

  pipe-ignored : (p : k.Process) → kernel_laws.action (harden_process k p) sig_pipe ≡ ignored
  unfolding harden_process
  pipe-ignored p =
      kernel_laws.signal-other sig_int sig_pipe handled _ (λ e. cc e)
      ∙ kernel_laws.signal-other sig_term sig_pipe handled _ (λ e. cc e)
      ∙ kernel_laws.signal-set sig_pipe ignored _

  unlinked-Left :
      (before now : Entry) (s : Signal) → s ≢ sig_pipe → Left before now s (quit 0) absent
  unlinked-Left absent now s ne = kept s absent ne same
  unlinked-Left other_file now s ne = lost_file s ne refl
  unlinked-Left (socket_file m) now s ne = kept s absent ne (removed m refl)

  on_signal-Left :
      (before : Entry) (site : Site) (s : Signal)
      → s ≢ sig_pipe
      → Kept before site.entry
      → Left before site.entry s (on_signal os site).0 (on_signal os site).1.entry
  unfolding on_signal
  on_signal-Left before site s ne k = elim (laws.unlink-entry site) [
    | inl gone ↦
        subst (λ (e : Entry). Left before site.entry s (quit 0) e) (sym gone)
          (unlinked-Left before site.entry s ne)
    | inr there ↦
        kept s (os.unlink site).entry ne (subst (λ (e : Entry). Kept before e) (sym there) k)
  ]

  pub receive-Left :
      (p : k.Process) (before : Entry) (site : Site) (s : Signal)
      → Kept before site.entry
      → let done = receive os k (kernel_laws.action (harden_process k p) s) s site in
        Left before site.entry s done.0 done.1.entry
  unfolding receive
  receive-Left p before site sig_pipe k = rw (pipe-ignored p) nothing_done
  receive-Left p before site sig_term k =
      rw (term-handled p) (on_signal-Left before site sig_term (λ e. cc e) k)
  receive-Left p before site sig_int k =
      rw (int-handled p) (on_signal-Left before site sig_int (λ e. cc e) k)
