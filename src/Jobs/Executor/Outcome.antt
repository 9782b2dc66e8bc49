-- ===== src/Jobs/Executor/Outcome.antt =====
-- What a worker that nothing holds up leaves behind.
use insta.Prelude.{
  ℕ, zero, suc, String, eq_refl, Bool, true, false, Option, none, some, ◌≡◌, refl, sym, subst,
  arith, if◌then◌else◌,
}
use insta.Prelude.Dict
use insta.Prelude.Dict.{get-put}
use insta.Breaker.Upload.{SyncCircuitBreaker, allow_request}
use insta.Jobs.Record.{JobRecord}
use insta.Jobs.Store.{
  Store, update_rows, update_result, row_status, get_result_status, is_stop_requested,
}
use insta.Jobs.Store.Laws.{row_status-update_rows}
use insta.Jobs.Executor.Worker.{
  Outcome, posted, timed_out, failed_with, Outside, Phase, preflight, ended, writing, write, World,
  report, worker_step, written, after_upload, recording, uploading, client_check, fail_with,
  pause_check, breaker_check, stop_or, pause_of,
}

-- So many steps with no one else at work; a worker that waits or has ended stays.
unfoldable pub run_alone : ℕ → Outside → String → String → ℕ → World → Phase → World × Phase
unfolding worker_step
run_alone zero o job_id account_id now w phase = (w, phase)
run_alone (suc n) o job_id account_id now w phase =
    elim (worker_step o job_id account_id now w phase) [
      | none ↦ (w, phase)
      | some (w', phase') ↦ run_alone n o job_id account_id now w' phase'
    ]

abbrev pub upload_status : Outcome → String
upload_status posted = "success"
upload_status timed_out = "failed"
upload_status (failed_with f) = "failed"

-- The status that the account is to have, and whether the upload is tried.
abbrev pub expected_status : Bool → Bool → Bool → Outcome → String
expected_status stop allowed logged_in outcome =
    if stop
    then "skipped"
    else if allowed
    then (if logged_in then upload_status outcome else "failed")
    else "failed"

abbrev pub expected_breaker :
    Bool → Bool → Bool → Outcome → ℕ → SyncCircuitBreaker → SyncCircuitBreaker
expected_breaker stop allowed logged_in outcome now b =
    if stop then b else if allowed then (if logged_in then report outcome now b else b) else b

-- An update of a row that is there gives it its status, and leaves control and the job in place.
update_result_lem :
    (s : Store) (job_id account_id status : String) (message code : Option String) (job : JobRecord)
    (old : String)
    → Dict.get s.jobs job_id ≡ some job
    → row_status job.results account_id ≡ some old
    → (job' : JobRecord) × (update_result s job_id account_id status message code
        ≡ some (record s { jobs = Dict.put s.jobs job_id job' }))
      × (row_status job'.results account_id ≡ some status)
unfolding update_result
update_result_lem s job_id account_id status message code job old g r = (
  record job { results = update_rows job.results account_id status message code },
  ground arith,
  ground (
    arith,
    row_status-update_rows job.results account_id account_id status message code,
    eq_refl account_id,
  ),
)

module _ (o : Outside) (job_id account_id : String) (now : ℕ) where
  abbrev pub HasRow : World → Type 0
  HasRow w =
      (job : JobRecord) × (old : String) × (Dict.get w.store.jobs job_id ≡ some job)
      × (row_status job.results account_id ≡ some old)

  abbrev pub Leaves : World × Phase → String → SyncCircuitBreaker → Type 0
  Leaves (w, phase) status breaker =
      (phase ≡ ended)
      × (get_result_status w.store job_id account_id ≡ some (some status))
      × (w.breaker ≡ breaker)

  -- So many steps from a phase end, with the account's status and the breaker as given.
  abbrev pub Ends : ℕ → World → Phase → String → SyncCircuitBreaker → Type 0
  Ends n w phase status breaker =
      Leaves (run_alone n o job_id account_id now w phase) status breaker

  Ends-if :
      (b : Bool) (n : ℕ) (w : World) (p q : Phase) (s t : String) (x y : SyncCircuitBreaker)
      → Ends n w p s x
      → Ends n w q t y
      → Ends n w (if b then p else q) (if b then s else t) (if b then x else y)
  Ends-if true n w p q s t x y h k = h
  Ends-if false n w p q s t x y h k = k

  abbrev HasStatus : World → String → Type 0
  HasStatus w status =
      (job : JobRecord) × (Dict.get w.store.jobs job_id ≡ some job)
      × (row_status job.results account_id ≡ some status)

  -- A row is written, and the worker goes on from there.
  Ends-write :
      (n : ℕ) (w : World) (status : String) (message code : Option String) (next : Phase)
      (s : String) (x : SyncCircuitBreaker)
      → HasRow w
      → ((store : Store)
          → HasStatus (record w { store = store }) status
          → Ends n (record w { store = store }) next s x)
      → Ends (suc n) w (writing (write status message code next)) s x
  unfolding run_alone worker_step
  Ends-write n w status message code next s x (job, old, g, r) k =
      let (job', u, e) =
        update_result_lem w.store job_id account_id status message code job old g r in
      let store = record w.store { jobs = Dict.put w.store.jobs job_id job' } in
      subst
        (λ o'.
          Leaves (run_alone n o job_id account_id now (written o' w next).0 (written o' w next).1) s
            x)
        (sym u)
        (k store (job', ground (arith, get-put w.store.jobs job_id job_id job', eq_refl job_id), e))

  Ends-ended :
      (n : ℕ) (w : World) (status : String) → HasStatus w status → Ends n w ended status w.breaker
  unfolding run_alone worker_step get_result_status
  Ends-ended zero w status (job, g, r) = (refl, ground arith, refl)
  Ends-ended (suc n) w status (job, g, r) = (refl, ground arith, refl)

  Ends-fail :
      (n : ℕ) (w : World) (status : String) (message code : Option String)
      → HasRow w
      → Ends (suc n) w (writing (write status message code ended)) status w.breaker
  Ends-fail n w status message code h =
      Ends-write n w status message code ended status w.breaker h
        (λ store k. Ends-ended n (record w { store = store }) status k)

  Ends-uploading :
      (n : ℕ) (w : World)
      → HasRow w
      → Ends
          (suc (suc (suc n)))
          w
          uploading
          (upload_status (o.upload account_id))
          (report (o.upload account_id) now w.breaker)
  unfolding run_alone worker_step after_upload
  Ends-uploading n w h = go (o.upload account_id)
    where
      recorded :
          (out : Outcome) (s : String) (store : Store)
          → HasStatus (record w { store = store }) s
          → Ends (suc n) (record w { store = store }) (recording out) s (report out now w.breaker)
      recorded out s store k =
          Ends-ended n (record { store = store; breaker = report out now w.breaker }) s k

      go :
          (out : Outcome)
          → Ends (suc (suc n)) w (after_upload o out) (upload_status out) (report out now w.breaker)
      go posted =
          Ends-write (suc n) w "success" none none (recording posted) "success"
            (report posted now w.breaker) h (recorded posted "success")
      go timed_out =
          Ends-write (suc n) w "failed" (some o.timeout_message) (some "upload_timeout")
            (recording timed_out) "failed" (report timed_out now w.breaker) h
            (recorded timed_out "failed")
      go (failed_with f) =
          Ends-write (suc n) w "failed" (some f.user_message) (some f.code)
            (recording (failed_with f)) "failed" (report (failed_with f) now w.breaker) h
            (recorded (failed_with f) "failed")

  abbrev client_status : String
  client_status = if o.logged_in account_id then upload_status (o.upload account_id) else "failed"

  abbrev client_breaker : SyncCircuitBreaker → SyncCircuitBreaker
  client_breaker b = if o.logged_in account_id then report (o.upload account_id) now b else b

  Ends-client :
      (n : ℕ) (w : World)
      → HasRow w
      → Ends (suc (suc (suc (suc (suc n))))) w client_check client_status (client_breaker w.breaker)
  unfolding run_alone worker_step
  Ends-client n w h =
      Ends-if (o.logged_in account_id) (suc (suc (suc (suc n)))) w
        (writing (write "uploading" none none uploading))
        (fail_with "Account not logged in" none ended) (upload_status (o.upload account_id))
        "failed" (report (o.upload account_id) now w.breaker) w.breaker
        (Ends-write (suc (suc (suc n))) w "uploading" none none uploading
          (upload_status (o.upload account_id)) (report (o.upload account_id) now w.breaker) h
          (λ store k. Ends-uploading n (record w { store = store }) (k.0, "uploading", k.1, k.2)))
        (Ends-fail (suc (suc (suc n))) w "failed" (some "Account not logged in") none h)

  Ends-breaker :
      (n : ℕ) (w : World)
      → HasRow w
      → Ends
          (suc (suc (suc (suc (suc (suc n))))))
          w
          breaker_check
          (if allow_request w.breaker now then client_status else "failed")
          (if allow_request w.breaker now then client_breaker w.breaker else w.breaker)
  unfolding run_alone worker_step
  Ends-breaker n w h =
      Ends-if (allow_request w.breaker now) (suc (suc (suc (suc (suc n))))) w client_check
        (fail_with "Instagram API circuit open — too many recent failures, will retry later"
          (some "circuit_open") ended)
        client_status "failed" (client_breaker w.breaker) w.breaker (Ends-client n w h)
        (Ends-fail (suc (suc (suc (suc n)))) w "failed"
          (some "Instagram API circuit open — too many recent failures, will retry later")
          (some "circuit_open") h)

  -- A worker of an account that has a row, alone and with no pause event of the job, ends within nine
  -- steps. Its row is then `skipped` after a stop request, else `failed` when the breaker refuses or
  -- the account has no client, else as the upload came out; the breaker hears of the upload's outcome
  -- exactly when the upload was tried.
  pub upload_one_outcome :
      (w : World)
      → HasRow w
      → Dict.get w.store.pause_events job_id ≡ none
      → Ends 9 w preflight
          (expected_status
            (is_stop_requested w.store job_id)
            (allow_request w.breaker now)
            (o.logged_in account_id)
            (o.upload account_id))
          (expected_breaker
            (is_stop_requested w.store job_id)
            (allow_request w.breaker now)
            (o.logged_in account_id)
            (o.upload account_id)
            now
            w.breaker)
  unfolding run_alone worker_step
  upload_one_outcome w h p = go (is_stop_requested w.store job_id) refl
    where
      go :
          (b : Bool)
          → is_stop_requested w.store job_id ≡ b
          → Ends 8 w
              (stop_or b pause_check)
              (expected_status b
                (allow_request w.breaker now)
                (o.logged_in account_id)
                (o.upload account_id))
              (expected_breaker b
                (allow_request w.breaker now)
                (o.logged_in account_id)
                (o.upload account_id)
                now
                w.breaker)
      go true e = Ends-fail 7 w "skipped" none none h
      go false e =
          subst
            (λ e'.
              Ends 7 w (pause_of e' w.store)
                (expected_status false (allow_request w.breaker now) (o.logged_in account_id)
                  (o.upload account_id))
                (expected_breaker false (allow_request w.breaker now) (o.logged_in account_id)
                  (o.upload account_id) now w.breaker))
            (sym p)
            (subst
              (λ b.
                Ends 6 w (stop_or b breaker_check)
                  (expected_status false (allow_request w.breaker now) (o.logged_in account_id)
                    (o.upload account_id))
                  (expected_breaker false (allow_request w.breaker now) (o.logged_in account_id)
                    (o.upload account_id) now w.breaker))
              (sym e) (Ends-breaker 0 w h))
