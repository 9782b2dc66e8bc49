-- ===== src/Breaker/Upload/Laws.antt =====
-- The upload breaker over any sequence of recorded results.
use insta.Prelude.{
  ℕ, ◌+◌, ◌≤◌, ◌<◌, leb, ltb, ◌≡◌, ◌≢◌, Bool, true, false, not, ◌&&◌, List, [], ◌∷◌, arith,
  if◌then◌else◌,
}
use insta.Breaker.Upload.{
  closed, open_state, half_open, SyncCircuitBreaker, observed, allow_request, record_success,
  record_failure, is_open,
}

-- A recorded result: a success, or a failure, retryable or not, at a time.
pub data Report : Type 0 where
  success : Report
  failure : Bool → ℕ → Report

unfoldable pub apply : Report → SyncCircuitBreaker → SyncCircuitBreaker
apply success b = record_success b
apply (failure retryable now) b = record_failure b retryable now

unfoldable pub apply_all : List Report → SyncCircuitBreaker → SyncCircuitBreaker
apply_all [] b = b
apply_all (r ∷ rest) b = apply_all rest (apply r b)

-- The retryable failures at the end of the reports, from a count so far: what the breaker is meant
-- to count.
unfoldable pub streak : ℕ → List Report → ℕ
streak n [] = n
streak n (success ∷ rest) = streak 0 rest
streak n (failure retryable now ∷ rest) = streak (if retryable then n + 1 else n) rest

-- The stored state as it should be: open exactly when the count has reached the threshold.
abbrev Agrees : ℕ → SyncCircuitBreaker → Type 0
Agrees n b =
    (b.failure_count ≡ n) × (b.state ≡ (if leb b.failure_threshold n then open_state else closed))

apply_all_lem :
    (n : ℕ) (rs : List Report) (b : SyncCircuitBreaker)
    → 0 < b.failure_threshold
    → Agrees n b
    → (apply_all rs b).state
      ≡ (if leb b.failure_threshold (streak n rs) then open_state else closed)
unfolding streak apply_all apply record_success record_failure
apply_all_lem n [] b h a = a.1
apply_all_lem n (success ∷ rest) b h a = apply_all_lem 0 rest (apply success b) h (ground arith)
apply_all_lem n (failure false now ∷ rest) b h a = apply_all_lem n rest b h a
apply_all_lem n (failure true now ∷ rest) b h a =
    ground (arith, apply_all_lem (n + 1) rest (apply (failure true now) b))

-- Starting closed with no failures and a positive threshold, after any reports the breaker is open
-- exactly when the retryable failures since the last success have reached the threshold; other failures never count.
pub opens_by_streak :
    (rs : List Report) (b : SyncCircuitBreaker)
    → 0 < b.failure_threshold
    → b.state ≡ closed
    → b.failure_count ≡ 0
    → (apply_all rs b).state
      ≡ (if leb b.failure_threshold (streak 0 rs) then open_state else closed)
opens_by_streak rs b h s c = apply_all_lem 0 rs b h (ground arith)

-- From the last retryable failure on, and unless half-open is stored: a request is refused exactly
-- while the breaker is open and the timeout since that failure has not passed.
pub refuses_iff :
    (b : SyncCircuitBreaker) (now : ℕ)
    → b.last_failure_time ≤ now
    → b.state ≢ half_open
    → allow_request b now
      ≡ not (is_open b.state && ltb now (b.last_failure_time + b.recovery_timeout))
unfolding allow_request observed
refuses_iff b now h s = ground arith

-- A retryable failure while the breaker reads, but is not stored, as half-open refuses requests again
-- for a whole timeout from then.
pub half_open_failure_refuses :
    (b : SyncCircuitBreaker) (now later : ℕ)
    → observed b now ≡ half_open
    → b.state ≢ half_open
    → now ≤ later
    → allow_request (record_failure b true now) later ≡ leb (now + b.recovery_timeout) later
unfolding allow_request observed record_failure
half_open_failure_refuses b now later o s h = ground arith
