-- ===== src/Breaker/Upload.antt =====
-- `SyncCircuitBreaker` of backend/instagram_runtime/circuit_breaker.py, which the upload workers
-- share. Each method holds the lock for all that it does, so it is one step.
pub mod Laws
use insta.Prelude.{ℕ, ◌+◌, ◌-◌, leb, Bool, true, false, not, ◌&&◌, if◌then◌else◌}

pub data CircuitState : Type 0 where
  closed open_state half_open : CircuitState

abbrev pub is_open : CircuitState → Bool
is_open open_state = true
is_open _ = false

pub record SyncCircuitBreaker : Type 0 where
  pub failure_threshold : ℕ
  pub recovery_timeout : ℕ
  pub state : CircuitState
  pub failure_count : ℕ
  pub last_failure_time : ℕ

-- the property `state`
unfoldable pub observed : SyncCircuitBreaker → ℕ → CircuitState
observed b now =
    if is_open b.state && leb b.recovery_timeout (now - b.last_failure_time)
    then half_open
    else b.state

unfoldable pub allow_request : SyncCircuitBreaker → ℕ → Bool
unfolding observed
allow_request b now = not (is_open (observed b now))

unfoldable pub record_success : SyncCircuitBreaker → SyncCircuitBreaker
record_success b = record b { failure_count = 0; state = closed }

unfoldable pub record_failure : SyncCircuitBreaker → Bool → ℕ → SyncCircuitBreaker
record_failure b retryable now =
    let c = record b { failure_count = b.failure_count + 1; last_failure_time = now } in
    if not retryable
    then b
    else if leb c.failure_threshold c.failure_count && not (is_open c.state)
    then record c { state = open_state }
    else c

-- `_upload_circuit_breaker`, in ticks of a second
abbrev pub upload_circuit_breaker : SyncCircuitBreaker
upload_circuit_breaker = record {
  failure_threshold = 5;
  recovery_timeout = 120;
  state = closed;
  failure_count = 0;
  last_failure_time = 0;
}
