-- ===== src/Breaker/Calls/Trips.antt =====
-- When the breaker opens, what it rejects, and how it recovers.
use insta.Prelude.{
  ℕ, ◌+◌, ◌-◌, ◌≤◌, ◌<◌, leb, ◌≡◌, true, false, List, [], ◌∷◌, length, arith, if◌then◌else◌,
}
use insta.Breaker.Calls.{
  closed, open_state, CircuitBreaker, observed, remaining, rejected, probe, begin, Ending, returned,
  raised, raised_circuit_open, cancelled, settle_guarded, settle_probe,
}

-- Guarded calls that all raise, one after another, at the given times.
unfoldable pub fail_all : List ℕ → CircuitBreaker → CircuitBreaker
fail_all [] b = b
fail_all (now ∷ rest) b = fail_all rest (settle_guarded raised b now)

stays_open :
    (ts : List ℕ) (b : CircuitBreaker) → b.state ≡ open_state → (fail_all ts b).state ≡ open_state
unfolding fail_all settle_guarded
stays_open [] b h = h
stays_open (now ∷ rest) b h = stays_open rest (settle_guarded raised b now) (ground arith)

opens_from :
    (ts : List ℕ) (b : CircuitBreaker)
    → b.state ≡ closed
    → b.failure_count < b.failure_threshold
    → (fail_all ts b).state
      ≡ (if leb b.failure_threshold (b.failure_count + length ts) then open_state else closed)
unfolding fail_all settle_guarded
opens_from [] b h k = ground arith
opens_from (now ∷ rest) b h k = ground (
  arith,
  stays_open rest (settle_guarded raised b now),
  opens_from rest (settle_guarded raised b now),
)

-- A closed breaker with no failures behind it and a positive threshold opens exactly when as many
-- calls in a row have raised as its threshold says.
pub opens_at_threshold :
    (ts : List ℕ) (b : CircuitBreaker)
    → b.state ≡ closed
    → b.failure_count ≡ 0
    → 0 < b.failure_threshold
    → (fail_all ts b).state ≡ (if leb b.failure_threshold (length ts) then open_state else closed)
opens_at_threshold ts b h k l = ground (arith, opens_from ts b)

-- From the last failure until the recovery timeout has passed, an open breaker rejects every call,
-- stays as it is, and reports the time that is left.
pub open_rejects :
    (b : CircuitBreaker) (now : ℕ)
    → b.state ≡ open_state
    → b.last_failure_time ≤ now
    → now < b.last_failure_time + b.recovery_timeout
    → begin b now ≡ (b, rejected (b.last_failure_time + b.recovery_timeout - now))
unfolding begin remaining
open_rejects b now h k l = ground arith

-- Guarded calls that began before the trip, ending one after another in any way.
unfoldable pub end_all : List (Ending × ℕ) → CircuitBreaker → CircuitBreaker
end_all [] b = b
end_all ((e, now) ∷ rest) b = end_all rest (settle_guarded e b now)

-- The probe runs: the breaker is open, and the lock is taken.
abbrev IsProbing : ℕ → CircuitBreaker → Type 0
IsProbing timeout b = (b.state ≡ open_state) × (b.probing ≡ true) × (b.recovery_timeout ≡ timeout)

settle_guarded-IsProbing :
    (timeout : ℕ) (e : Ending) (b : CircuitBreaker) (now : ℕ)
    → IsProbing timeout b
    → IsProbing timeout (settle_guarded e b now)
unfolding settle_guarded
settle_guarded-IsProbing timeout returned b now h = ground arith
settle_guarded-IsProbing timeout raised b now h = ground arith
settle_guarded-IsProbing timeout raised_circuit_open b now h = h
settle_guarded-IsProbing timeout cancelled b now h = h

end_all-IsProbing :
    (timeout : ℕ) (ends : List (Ending × ℕ)) (b : CircuitBreaker)
    → IsProbing timeout b
    → IsProbing timeout (end_all ends b)
unfolding end_all
end_all-IsProbing timeout [] b h = h
end_all-IsProbing timeout ((e, now) ∷ rest) b h =
    end_all-IsProbing timeout rest (settle_guarded e b now)
      (settle_guarded-IsProbing timeout e b now h)

begin-IsProbing :
    (b : CircuitBreaker) (now : ℕ)
    → b.state ≡ open_state
    → b.last_failure_time + b.recovery_timeout ≤ now
    → b.probing ≡ false
    → ((begin b now).1 ≡ probe) × IsProbing b.recovery_timeout (begin b now).0
unfolding begin observed
begin-IsProbing b now h k l = ground arith

probing_rejects :
    (timeout : ℕ) (b : CircuitBreaker) (now : ℕ)
    → IsProbing timeout b
    → begin b now ≡ (b, rejected (remaining b now))
unfolding begin observed remaining
probing_rejects timeout b now h = ground arith

probe_ends_lem :
    (timeout : ℕ) (b : CircuitBreaker) (later t : ℕ)
    → IsProbing timeout b
    → later ≤ t
    → t < later + timeout
    → (observed (settle_probe returned b later) later ≡ closed)
      × ((settle_probe returned b later).failure_count ≡ 0)
      × ((settle_probe raised b later).last_failure_time ≡ later)
      × (observed (settle_probe raised b later) t ≡ open_state)
      × (begin (settle_probe raised b later) t
          ≡ (settle_probe raised b later, rejected (later + timeout - t)))
unfolding begin observed remaining settle_probe
probe_ends_lem timeout b later t h k l = ground arith

-- Once the timeout has passed, the first call is the probe. Until it ends, whatever guarded calls that
-- began before the trip end in between, every other call is rejected at any time and changes nothing.
-- If the probe returns, the breaker is closed with no failures; if it raises, the breaker is open, and
-- rejects every call with the time that is left, until another timeout has passed since then.
pub probe_decides :
    (b : CircuitBreaker) (ends : List (Ending × ℕ)) (now other later t : ℕ)
    → b.state ≡ open_state
    → b.last_failure_time + b.recovery_timeout ≤ now
    → b.probing ≡ false
    → later ≤ t
    → t < later + b.recovery_timeout
    → let during = end_all ends (begin b now).0 in
      ((begin b now).1 ≡ probe)
      × (begin during other ≡ (during, rejected (remaining during other)))
      × (observed (settle_probe returned during later) later ≡ closed)
      × ((settle_probe returned during later).failure_count ≡ 0)
      × ((settle_probe raised during later).last_failure_time ≡ later)
      × (observed (settle_probe raised during later) t ≡ open_state)
      × (begin (settle_probe raised during later) t
          ≡ (settle_probe raised during later, rejected (later + b.recovery_timeout - t)))
probe_decides b ends now other later t h k l m n =
    let (first, probing) = begin-IsProbing b now h k l in
    let kept = end_all-IsProbing b.recovery_timeout ends (begin b now).0 probing in
    let during = end_all ends (begin b now).0 in
    let (closes, resets, fails_at, reopens, refuses) =
      probe_ends_lem b.recovery_timeout during later t kept m n in
    (
      first,
      probing_rejects b.recovery_timeout during other kept,
      closes,
      resets,
      fails_at,
      reopens,
      refuses,
    )

-- A guarded call that began before the trip may raise while the probe runs. Until another timeout has
-- passed the breaker then reads as open, and the probe's return closes it: it goes from open to
-- closed without being half-open.
pub late_failure_then_probe :
    (b : CircuitBreaker) (now late later : ℕ)
    → b.state ≡ open_state
    → b.last_failure_time + b.recovery_timeout ≤ now
    → b.probing ≡ false
    → late ≤ later
    → later < late + b.recovery_timeout
    → let during = settle_guarded raised (begin b now).0 late in
      (observed during later ≡ open_state)
      × (observed (settle_probe returned during later) later ≡ closed)
unfolding begin observed settle_guarded settle_probe
late_failure_then_probe b now late later h k l m n = ground arith
