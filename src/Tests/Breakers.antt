-- ===== src/Tests/Breakers.antt =====
-- The breakers at concrete calls.
use insta.Prelude.{
  ℕ, ◌+◌, leb, ltb, ◌≡◌, ◌≢◌, refl, true, false, not, ◌&&◌, List, [], ◌∷◌, arith, if◌then◌else◌,
}
use insta.Breaker.Calls.{
  CircuitBreaker, open_state, closed, new, begin, observed, remaining, rejected, probe, Ending,
  returned, raised, settle_guarded, settle_probe,
}
use insta.Breaker.Calls.Laws.{begins, guarded_ends, probe_ends, steps, fresh, IsValid, run-IsValid}
use insta.Breaker.Calls.Trips.{
  fail_all, opens_at_threshold, open_rejects, end_all, probe_decides, late_failure_then_probe,
}
use insta.Breaker.Upload
use insta.Breaker.Upload.{SyncCircuitBreaker, upload_circuit_breaker, allow_request}
use insta.Breaker.Upload.Laws.{
  Report, success, failure, apply_all, streak, opens_by_streak, refuses_iff,
  half_open_failure_refuses,
}

abbrev tripped : CircuitBreaker
tripped = record {
  failure_threshold = 3;
  recovery_timeout = 60;
  state = open_state;
  failure_count = 3;
  last_failure_time = 100;
  probing = false;
}

run-IsValid_example : IsValid (
    steps
      ((begins, 1) ∷ (guarded_ends raised, 2) ∷ (begins, 3) ∷ (probe_ends returned, 4) ∷ [])
      (fresh 3 60))
run-IsValid_example =
    run-IsValid 3 60
      ((begins, 1) ∷ (guarded_ends raised, 2) ∷ (begins, 3) ∷ (probe_ends returned, 4) ∷ [])
      (omega arith)

opens_at_threshold_example : (fail_all (1 ∷ 2 ∷ 3 ∷ []) (new 3 60)).state ≡ open_state
unfolding new
opens_at_threshold_example = opens_at_threshold (1 ∷ 2 ∷ 3 ∷ []) (new 3 60) refl refl (omega arith)

open_rejects_run : begin tripped 130 ≡ (tripped, rejected 30)
open_rejects_run = open_rejects tripped 130 refl (omega arith) (omega arith)

abbrev late_ends : List (Ending × ℕ)
late_ends = (raised, 171) ∷ (returned, 172) ∷ []

probe_decides_example :
    let during = end_all late_ends (begin tripped 170).0 in
    ((begin tripped 170).1 ≡ probe)
    × (begin during 900 ≡ (during, rejected (remaining during 900)))
    × (observed (settle_probe returned during 175) 175 ≡ closed)
    × ((settle_probe returned during 175).failure_count ≡ 0)
    × ((settle_probe raised during 175).last_failure_time ≡ 175)
    × (observed (settle_probe raised during 175) 200 ≡ open_state)
    × (begin (settle_probe raised during 175) 200 ≡ (settle_probe raised during 175, rejected 35))
probe_decides_example =
    probe_decides tripped late_ends 170 900 175 200 refl (omega arith) refl (omega arith)
      (omega arith)

late_failure_then_probe_example :
    let during = settle_guarded raised (begin tripped 170).0 172 in
    (observed during 175 ≡ open_state) × (observed (settle_probe returned during 175) 175 ≡ closed)
late_failure_then_probe_example =
    late_failure_then_probe tripped 170 172 175 refl (omega arith) refl (omega arith) (omega arith)

abbrev reports : List Report
reports = failure true 1 ∷ failure false 2 ∷ success ∷ failure true 3 ∷ []

opens_by_streak_example :
    (apply_all reports upload_circuit_breaker).state
    ≡ (if leb 5 (streak 0 reports) then Upload.open_state else Upload.closed)
opens_by_streak_example = opens_by_streak reports upload_circuit_breaker (omega arith) refl refl

abbrev open_upload : SyncCircuitBreaker
open_upload = record upload_circuit_breaker {
  state = Upload.open_state;
  failure_count = 5;
  last_failure_time = 10;
}

open_upload_not_half : open_upload.state ≢ Upload.half_open
open_upload_not_half e = cc e

refuses_iff_run :
    allow_request open_upload 50
    ≡ not (Upload.is_open open_upload.state && ltb 50 (open_upload.last_failure_time + 120))
refuses_iff_run = refuses_iff open_upload 50 (omega arith) open_upload_not_half

half_open_failure_refuses_run :
    allow_request (Upload.record_failure open_upload true 140) 200 ≡ false
unfolding Upload.observed
half_open_failure_refuses_run =
    half_open_failure_refuses open_upload 140 200 refl open_upload_not_half (omega arith)
