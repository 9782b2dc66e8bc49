-- ===== src/Jobs/Executor/Worker.antt =====
-- `_upload_one` of backend/instagram_runtime/post_job_executor.py: where a worker stands between the
-- operations on shared state, and its next step. Stops, pauses and other workers may come between
-- any two steps.
use insta.Prelude.{ℕ, String, Bool, true, Option, none, some, if◌then◌else◌}
use insta.Prelude.Dict
use insta.Breaker.Upload.{SyncCircuitBreaker, allow_request, record_success, record_failure}
use insta.Jobs.Store.{Store, update_result, is_set, is_stop_requested}

-- `classify_exception`'s result
pub record Failure : Type 0 where
  pub user_message : String
  pub code : String
  pub retryable : Bool

-- What `_dispatch_upload` comes to within the deadline.
pub data Outcome : Type 0 where
  posted : Outcome
  timed_out : Outcome
  failed_with : Failure → Outcome

pub record Outside : Type 0 where
  pub logged_in : String → Bool
  pub upload : String → Outcome
  pub timeout_message : String

mutual
  pub data Phase : Type 0 where
    preflight pause_check after_pause breaker_check client_check uploading ended : Phase
    waiting : ℕ → Phase
    writing : Write → Phase
    recording : Outcome → Phase

  -- a row to write, and where the worker stands then
  pub data Write : Type 0 where
    write : String → Option String → Option String → Phase → Write

pub record World : Type 0 where
  pub store : Store
  pub breaker : SyncCircuitBreaker

abbrev pub fail_with : String → Option String → Phase → Phase
fail_with message code next = writing (write "failed" (some message) code next)

unfoldable pub after_upload : Outside → Outcome → Phase
after_upload o posted = writing (write "success" none none (recording posted))
after_upload o timed_out = fail_with o.timeout_message (some "upload_timeout") (recording timed_out)
after_upload o (failed_with f) = fail_with f.user_message (some f.code) (recording (failed_with f))

unfoldable pub report : Outcome → ℕ → SyncCircuitBreaker → SyncCircuitBreaker
report posted now b = record_success b
report timed_out now b = record_failure b true now
report (failed_with f) now b = record_failure b f.retryable now

abbrev pub pause_of : Option ℕ → Store → Phase
pause_of none store = after_pause
pause_of (some e) store = if is_set store.events e then after_pause else waiting e

abbrev pub stop_or : Bool → Phase → Phase
stop_or stop next = if stop then writing (write "skipped" none none ended) else next

-- A row that cannot be written raises in the worker, which ends.
abbrev pub written : Option Store → World → Phase → World × Phase
written none w next = (w, ended)
written (some store) w next = (record w { store = store }, next)

-- The next step of the worker of an account; `none` while it waits.
unfoldable pub worker_step : Outside → String → String → ℕ → World → Phase → Option (World × Phase)
unfolding after_upload report
worker_step o job_id account_id now w preflight =
    some (w, stop_or (is_stop_requested w.store job_id) pause_check)
worker_step o job_id account_id now w pause_check =
    some (w, pause_of (Dict.get w.store.pause_events job_id) w.store)
worker_step o job_id account_id now w (waiting e) =
    if is_set w.store.events e then some (w, after_pause) else none
worker_step o job_id account_id now w after_pause =
    some (w, stop_or (is_stop_requested w.store job_id) breaker_check)
worker_step o job_id account_id now w breaker_check = some (
  w,
  if allow_request w.breaker now
      then client_check
      else fail_with "Instagram API circuit open — too many recent failures, will retry later"
          (some "circuit_open") ended,
)
worker_step o job_id account_id now w client_check = some (
  w,
  if o.logged_in account_id
      then writing (write "uploading" none none uploading)
      else fail_with "Account not logged in" none ended,
)
worker_step o job_id account_id now w uploading = some (w, after_upload o (o.upload account_id))
worker_step o job_id account_id now w (writing (write status message code next)) =
    some (written (update_result w.store job_id account_id status message code) w next)
worker_step o job_id account_id now w (recording outcome) =
    some (record w { breaker = report outcome now w.breaker }, ended)
worker_step o job_id account_id now w ended = none
