-- ===== src/Breaker/Calls/Laws.antt =====
-- The state machine of the breaker, over any interleaving of calls.
use insta.Prelude.{ℕ, zero, suc, ◌+◌, ◌≤◌, ◌<◌, ◌≡◌, ◌≢◌, true, false, List, [], ◌∷◌, arith}
use insta.Breaker.Calls.{
  closed, half_open, CircuitBreaker, new, Admission, rejected, guarded, probe, begin, Ending,
  settle_guarded, settle_probe,
}

-- The calls in flight: guarded ones, counted, and the probe, which holds the lock.
pub record System : Type 0 where
  pub breaker : CircuitBreaker
  pub in_flight : ℕ
  pub probes : ℕ

-- What happens next, at a time: a call begins, or one in flight ends.
pub data Event : Type 0 where
  begins : Event
  guarded_ends probe_ends : Ending → Event

abbrev launch : System → CircuitBreaker × Admission → System
launch s (b, rejected r) = record s { breaker = b }
launch s (b, guarded) = record s { breaker = b; in_flight = s.in_flight + 1 }
launch s (b, probe) = record s { breaker = b; probes = s.probes + 1 }

-- An event that no call in flight can cause changes nothing.
unfoldable pub step : Event → ℕ → System → System
step begins now s = launch s (begin s.breaker now)
step (guarded_ends e) now s = elim s.in_flight [
  | zero ↦ s
  | suc n ↦ record s { breaker = settle_guarded e s.breaker now; in_flight = n }
]
step (probe_ends e) now s = elim s.probes [
  | zero ↦ s
  | suc n ↦ record s { breaker = settle_probe e s.breaker now; probes = n }
]

unfoldable pub steps : List (Event × ℕ) → System → System
steps [] s = s
steps ((e, now) ∷ rest) s = steps rest (step e now s)

abbrev pub fresh : ℕ → ℕ → System
fresh failure_threshold recovery_timeout = record {
  breaker = new failure_threshold recovery_timeout;
  in_flight = 0;
  probes = 0;
}

-- The stored state is never `half_open`; a closed breaker is below its threshold; there is at most
-- one probe, and the lock is held exactly while it runs.
pub record IsValid (s : System) : Type 0 where
  pub stored : s.breaker.state ≢ half_open
  pub below : s.breaker.state ≡ closed → s.breaker.failure_count < s.breaker.failure_threshold
  pub single : s.probes ≤ 1
  pub locked : s.probes ≡ 1 → s.breaker.probing ≡ true
  pub free : s.probes ≡ 0 → s.breaker.probing ≡ false
  pub positive : 0 < s.breaker.failure_threshold

step-IsValid : (e : Event) (now : ℕ) (s : System) → IsValid s → IsValid (step e now s)
unfolding step begin settle_guarded settle_probe
step-IsValid begins now s v = ground arith
step-IsValid (guarded_ends e) now s v = ground arith
step-IsValid (probe_ends e) now s v = ground arith

steps-IsValid : (es : List (Event × ℕ)) (s : System) → IsValid s → IsValid (steps es s)
unfolding steps
steps-IsValid [] s v = v
steps-IsValid ((e, now) ∷ rest) s v = steps-IsValid rest (step e now s) (step-IsValid e now s v)

-- From a new breaker with a positive threshold, whatever calls begin and end in whatever order: at
-- most one probe runs, a closed breaker is below its threshold, and half-open is never stored.
pub run-IsValid :
    (failure_threshold recovery_timeout : ℕ) (es : List (Event × ℕ))
    → 0 < failure_threshold
    → IsValid (steps es (fresh failure_threshold recovery_timeout))
unfolding new
run-IsValid failure_threshold recovery_timeout es h =
    steps-IsValid es (fresh failure_threshold recovery_timeout) (ground arith)
