-- ===== src/Verifier/InFlight.antt =====
-- The accept loop at the end of `main` in verifier/main.cpp, with the threads that it starts and the
-- counter `in_flight`. Each atomic access of the counter is a step of its own, so that the steps of
-- the threads fall between those of the loop in any order.
use x_auth.Base.{
  ℕ, zero, suc, ◌+◌, ◌-◌, ◌≤◌, Option, none, some, leb, if◌then◌else◌, ◌≡◌, refl, ◌∙◌, arith,
  Bool-cases, inl, inr, some_inj, ◌↔◌,
}

abbrev pub max_in_flight : ℕ
max_in_flight = 32

-- Where the loop stands: at `accept`, behind the test of the counter on the way to the refusal, or on
-- the way to the new thread.
pub data Place : Type 0 where
  accepting refusing starting : Place

pub record Daemon : Type 0 where
  pub in_flight : ℕ
  pub place : Place
  -- The threads that run `serve` and have not yet counted down.
  pub serving : ℕ

pub data Event : Type 0 where
  accept_failed accept_done count_down start_thread serve_end : Event

unfoldable pub start : Daemon
start = record { in_flight = 0; place = accepting; serving = 0 }

-- `in_flight.fetch_add(1) >= MAX_IN_FLIGHT`.
unfoldable pub fetch_add : Daemon → Daemon
fetch_add d = record d {
  in_flight = d.in_flight + 1;
  place = if leb max_in_flight d.in_flight then refusing else starting;
}

unfoldable pub ends : ℕ → Daemon → Option Daemon
ends zero d = none
ends (suc n) d = some (record d { in_flight = d.in_flight - 1; serving = n })

-- `none` for an event that cannot come there.
unfoldable pub step_at : Place → Event → Daemon → Option Daemon
unfolding fetch_add ends
step_at place serve_end d = ends d.serving d
step_at accepting accept_failed d = some d
step_at accepting accept_done d = some (fetch_add d)
step_at refusing count_down d = some (record d { in_flight = d.in_flight - 1; place = accepting })
step_at starting start_thread d = some (record d { serving = d.serving + 1; place = accepting })
step_at _ _ d = none

unfoldable pub step : Event → Daemon → Option Daemon
unfolding step_at
step e d = step_at d.place e d

pub data Reachable : Daemon → Type 0 where
  at_start : Reachable start
  after : {d d' : Daemon} (e : Event) → Reachable d → step e d ≡ some d' → Reachable d'

-- What the loop has counted for itself.
abbrev pub pending : Place → ℕ
pending accepting = 0
pending refusing = 1
pending starting = 1

-- The threads that the loop is about to have.
abbrev pub starts : Place → ℕ
starts accepting = 0
starts refusing = 0
starts starting = 1

abbrev pub Counted : Daemon → Type 0
Counted d =
    (d.in_flight ≡ d.serving + pending d.place) × (d.serving + starts d.place ≤ max_in_flight)

fetch_add-Counted :
    (n s : ℕ)
    → n ≡ s
    → s ≤ max_in_flight
    → Counted (fetch_add (record { in_flight = n; place = accepting; serving = s }))
unfolding fetch_add
fetch_add-Counted n s same bound = elim (Bool-cases (leb max_in_flight n)) [
  | inl full ↦ rw full (omega arith, omega arith)
  | inr room ↦ rw room (omega arith, ground (arith, room))
]

step_at-Counted :
    (e : Event) (n s : ℕ) (p : Place) (d' : Daemon)
    → n ≡ s + pending p
    → s + starts p ≤ max_in_flight
    → step_at p e (record { in_flight = n; place = p; serving = s }) ≡ some d'
    → Counted d'
unfolding step_at ends
step_at-Counted serve_end n zero p d' same bound h = absurd (cc h)
step_at-Counted serve_end n (suc s) p d' same bound h = rw (← some_inj h) (omega arith, omega arith)
step_at-Counted accept_failed n s accepting d' same bound h = rw (← some_inj h) (same, bound)
step_at-Counted accept_done n s accepting d' same bound h =
    rw (← some_inj h) (fetch_add-Counted n s (omega arith) (omega arith))
step_at-Counted count_down n s refusing d' same bound h =
    rw (← some_inj h) (omega arith, omega arith)
step_at-Counted start_thread n s starting d' same bound h =
    rw (← some_inj h) (omega arith, omega arith)
step_at-Counted _ n s _ d' same bound h = absurd (cc h)

step-Counted : (e : Event) (d d' : Daemon) → Counted d → step e d ≡ some d' → Counted d'
unfolding step
step-Counted e d d' c h = step_at-Counted e d.in_flight d.serving d.place d' c.0 c.1 h

pub Reachable-Counted : {d : Daemon} → Reachable d → Counted d
unfolding start
Reachable-Counted at_start = (refl, omega arith)
Reachable-Counted (after e r h) = step-Counted e _ _ (Reachable-Counted r) h

pending-le : (p : Place) → pending p ≤ 1
pending-le accepting = omega arith
pending-le refusing = omega arith
pending-le starting = omega arith

-- Whatever the order of the steps, the counter is the number of threads that serve, with one more while
-- the loop is between its test and the refusal or the new thread; at most 32 threads serve, and the
-- counter is at most 33.
pub Reachable-bounds :
    (d : Daemon)
    → Reachable d
    → (d.in_flight ≡ d.serving + pending d.place)
      × (d.serving + starts d.place ≤ max_in_flight)
      × (d.in_flight ≤ max_in_flight + 1)
Reachable-bounds d r =
    let c = Reachable-Counted r in (c.0, c.1, omega (arith, c.0, c.1, pending-le d.place))

-- Steps that all are such as `P` says.
pub data Steps (P : Event → Type 0) : Daemon → Daemon → Type 0 where
  done : {d : Daemon} → Steps P d d
  more : {d d' d'' : Daemon} (e : Event) → P e → step e d ≡ some d' → Steps P d' d'' → Steps P d d''

-- What comes without another connection.
abbrev pub Finishes : Event → Type 0
Finishes count_down = Unit
Finishes start_thread = Unit
Finishes serve_end = Unit
Finishes _ = ⊥

threads_end :
    (n : ℕ) → Steps Finishes (record { in_flight = n; place = accepting; serving = n }) start
unfolding step step_at ends start
threads_end zero = done
threads_end (suc n) =
    let e : suc n - 1 ≡ n = omega arith in more serve_end tt refl (rw e (threads_end n))

place-returns :
    (p : Place) (n s : ℕ)
    → n ≡ s + pending p
    → Steps Finishes (record { in_flight = n; place = p; serving = s }) start
unfolding step step_at
place-returns accepting n s same = let e : n ≡ s = omega arith in rw e (threads_end s)
place-returns refusing n s same =
    let e : n - 1 ≡ s = omega arith in more count_down tt refl (rw e (threads_end s))
place-returns starting n s same =
    let e : n ≡ s + 1 = omega arith in more start_thread tt refl (rw e (threads_end (s + 1)))

-- A connection is refused exactly if 32 threads serve when the counter is tested.
fetch_add-refusing :
    (d : Daemon)
    → Reachable d
    → d.place ≡ accepting
    → ((fetch_add d).place ≡ refusing) ↔ (d.serving ≡ max_in_flight)
unfolding fetch_add
fetch_add-refusing d r here =
    let c = Reachable-Counted r in
    let same : d.in_flight ≡ d.serving = (rw here at c.0) ∙ omega arith in
    let bound : d.serving ≤ max_in_flight = omega (arith, c.1) in
    elim (Bool-cases (leb max_in_flight d.in_flight)) [
      | inl full ↦ rw full ((λ _. ground (arith, full)), (λ _. refl))
      | inr room ↦ rw room ((λ e. cc e), (λ e. absurd (ground (arith, room))))
    ]

-- Whatever connections came and in whatever order the steps fell: a connection is refused exactly if
-- 32 threads serve when the counter is tested, and as soon as the loop and the threads finish what
-- they have begun, the daemon is as at its start, so that no refused or ended connection keeps a
-- place.
pub Reachable-returns :
    (d : Daemon)
    → Reachable d
    → Steps Finishes d start
      × (d.place ≡ accepting → ((fetch_add d).place ≡ refusing) ↔ (d.serving ≡ max_in_flight))
Reachable-returns d r =
    (place-returns d.place d.in_flight d.serving (Reachable-Counted r).0, fetch_add-refusing d r)
