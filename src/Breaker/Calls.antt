-- ===== src/Breaker/Calls.antt =====
-- `CircuitBreaker` of backend/ai_copilot/adapters/circuit_breaker.py. `call` awaits the protected
-- function, so it is two steps: `begin`, up to the await, and `settle`, with what the function did;
-- between them other calls may begin and settle. Times are clock ticks of `time.monotonic`.
pub mod Laws
pub mod Trips
use insta.Prelude.{ℕ, ◌+◌, ◌-◌, leb, ltb, Bool, true, false, List, [], ◌∷◌, if◌then◌else◌}

-- `CircuitState`
pub data CircuitState : Type 0 where
  closed open_state half_open : CircuitState

pub record CircuitBreaker : Type 0 where
  pub failure_threshold : ℕ
  pub recovery_timeout : ℕ
  pub state : CircuitState
  pub failure_count : ℕ
  pub last_failure_time : ℕ
  -- `_half_open_lock.locked()`
  pub probing : Bool

unfoldable pub new : ℕ → ℕ → CircuitBreaker
new failure_threshold recovery_timeout = record {
  failure_threshold = failure_threshold;
  recovery_timeout = recovery_timeout;
  state = closed;
  failure_count = 0;
  last_failure_time = 0;
  probing = false;
}

observe : CircuitState → CircuitBreaker → ℕ → CircuitState
observe open_state b now =
    if leb b.recovery_timeout (now - b.last_failure_time) then half_open else open_state
observe s b now = s

-- the property `state`, read at a time
unfoldable pub observed : CircuitBreaker → ℕ → CircuitState
unfolding observe
observed b now = observe b.state b now

-- `max(remaining, 0.0)`
unfoldable pub remaining : CircuitBreaker → ℕ → ℕ
remaining b now = b.recovery_timeout - (now - b.last_failure_time)

-- How `call` goes on: `CircuitOpenError`, the guarded call, or the probe.
pub data Admission : Type 0 where
  rejected : ℕ → Admission
  guarded probe : Admission

admit : CircuitState → CircuitBreaker → ℕ → CircuitBreaker × Admission
unfolding remaining
admit open_state b now = (b, rejected (remaining b now))
admit half_open b now =
    if b.probing then (b, rejected (remaining b now)) else (record b { probing = true }, probe)
admit closed b now = (b, guarded)

unfoldable pub begin : CircuitBreaker → ℕ → CircuitBreaker × Admission
unfolding observed admit
begin b now = admit (observed b now) b now

-- What the protected function did. An exception that is no `Exception` is a cancellation.
pub data Ending : Type 0 where
  returned raised raised_circuit_open cancelled : Ending

unfoldable pub on_success : CircuitBreaker → CircuitBreaker
on_success b = if ltb 0 b.failure_count then record b { failure_count = 0 } else b

unfoldable pub trip : CircuitBreaker → ℕ → CircuitBreaker
trip b now = record b { state = open_state; last_failure_time = now }

unfoldable pub reset : CircuitBreaker → CircuitBreaker
reset b = record b { state = closed; failure_count = 0 }

unfoldable pub on_failure : CircuitBreaker → ℕ → CircuitBreaker
unfolding trip
on_failure b now =
    let c = record b { failure_count = b.failure_count + 1; last_failure_time = now } in
    if leb c.failure_threshold c.failure_count then trip c now else c

-- The end of `_guarded_call`.
unfoldable pub settle_guarded : Ending → CircuitBreaker → ℕ → CircuitBreaker
unfolding on_success on_failure
settle_guarded returned b now = on_success b
settle_guarded raised b now = on_failure b now
settle_guarded raised_circuit_open b now = b
settle_guarded cancelled b now = b

-- The end of `_probe`, without the lock.
unfoldable pub after_probe : Ending → CircuitBreaker → ℕ → CircuitBreaker
unfolding reset trip
after_probe returned b now = reset b
after_probe raised b now = trip b now
after_probe raised_circuit_open b now = b
after_probe cancelled b now = b

-- The end of `_probe`, and the release of the lock.
unfoldable pub settle_probe : Ending → CircuitBreaker → ℕ → CircuitBreaker
unfolding after_probe
settle_probe e b now = record (after_probe e b now) { probing = false }
