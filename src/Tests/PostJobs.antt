-- ===== src/Tests/PostJobs.antt =====
-- The job theorems at a job of two accounts.
use insta.Prelude.{
  String, str_eq, eq_iff, true, false, none, some, List, [], ◌∷◌, All, keep, map, any, ◌≡◌, ◌≢◌,
  refl, Bool-cases, inl, inr, arith, if◌then◌else◌,
}
use insta.Prelude.Dict
use insta.Prelude.Text.{codes, same_text}
use insta.Breaker.Upload.{upload_circuit_breaker, allow_request, observed, record_failure}
use insta.Copilot.Values.{end}
use insta.Jobs.Record.{ResultRow, JobRecord}
use insta.Jobs.Store.{
  Store, row_status, update_result, is_set, has_status, clear_control, request_stop,
  is_stop_requested,
}
use insta.Jobs.Store.Laws.{Command, stop, pause, resume, set, obey, Control, operate_all}
use insta.Jobs.UseCases.{ok, retry_job, is_retryable, has_runnable_media_paths, reset_job, Jobs}
use insta.Jobs.UseCases.Laws.{RowsRetried, retry_job_exact}
use insta.Jobs.Executor.{Upload, start, submitted, finish, files_after_run}
use insta.Jobs.Executor.Laws.{finish-verdict, verdict}
use insta.Jobs.Executor.Retry.{retry_posts_again, retry_media_removed}
use insta.Jobs.Executor.Worker.{
  Outside, posted, timed_out, World, preflight, Phase, waiting, after_pause, writing, write, ended,
  worker_step, report,
}
use insta.Jobs.Executor.Together.{
  Workers, Tick, work, command, advance, advance_all, ended-is_terminal,
}
use insta.Jobs.Executor.Promise.{account_status, is_present, is_terminal_status}
use insta.Jobs.Executor.Outcome.{Ends, upload_one_outcome}
use insta.Jobs.Executor.Pauses.{cleared_wait_never_ends, stop_releases}

abbrev row : String → String → ResultRow
row account_id status = record {
  account_id = account_id;
  username = codes account_id;
  status = status;
  error = none;
  error_code = none;
}

abbrev partial : JobRecord
partial = record {
  id = "j";
  caption = codes "hello";
  status = "partial";
  targets = "a" ∷ "b" ∷ [];
  results = row "a" "success" ∷ row "b" "failed" ∷ [];
  created_at = "2024-01-01";
  media_urls = [];
  media_type = "reels";
  media_paths = codes "/tmp/m.mp4" ∷ [];
  scheduled_at = none;
  thumbnail_path = some (codes "/tmp/t.jpg");
  igtv_title = none;
  usertags = [];
  location = none;
  extra_data = end;
}

abbrev stored : JobRecord → Store
stored job = record {
  jobs = ("j", job) ∷ [];
  stop_flags = [];
  pause_events = ("j", 0) ∷ [];
  events = false ∷ [];
}

abbrev world : World
world = record {
  store = record (stored partial) { pause_events = [] };
  breaker = upload_circuit_breaker;
}

abbrev paused : World
paused = record world { store = stored partial }

abbrev outside : Outside
outside = record {
  logged_in = λ account_id. true;
  upload = λ account_id. if str_eq account_id "a" then posted else timed_out;
  timeout_message = "Upload timed out after 360s";
}

upload_one_outcome_example :
    Ends outside "j" "b" 7 9 world preflight "failed"
      (record upload_circuit_breaker { failure_count = 1; last_failure_time = 7 })
unfolding is_stop_requested Dict.get row_status allow_request report record_failure
upload_one_outcome_example =
    upload_one_outcome outside "j" "b" 7 world (partial, "failed", refl, refl) refl

finish-verdict_example :
    (s : Store) × (finish (stored partial) "j" ≡ some s)
    × ((k : String)
        → Dict.get s.jobs k ≡ (
            if str_eq "j" k
            then some (record partial { status = verdict partial.results })
            else Dict.get (stored partial).jobs k))
    × (is_stop_requested s "j" ≡ false)
    × (Dict.get s.pause_events "j" ≡ none)
unfolding Dict.get
finish-verdict_example = finish-verdict (stored partial) "j" partial refl refl

retry_job_exact_example :
    (after : Jobs) × (job' : JobRecord) × (retry_job (stored partial).jobs "j" ≡ ok (after, job'))
    × ((k : String)
        → Dict.get after k ≡ (if str_eq "j" k then some job' else Dict.get (stored partial).jobs k))
    × (job'.status ≡ "pending")
    × (job'.scheduled_at ≡ none)
    × (job'.media_paths ≡ partial.media_paths)
    × (record job' {
      status = partial.status;
      scheduled_at = partial.scheduled_at;
      results = partial.results;
    }
        ≡ partial)
    × RowsRetried partial.results job'.results
    × (keep (has_status "success") job'.results ≡ row "a" "success" ∷ [])
unfolding Dict.get is_retryable
retry_job_exact_example = retry_job_exact (stored partial).jobs "j" partial refl refl

some_rows : partial.results ≢ []
some_rows e = cc e

retry_posts_again_example :
    (s : Store) × (uploads : List Upload) × (start (λ t. true) (stored (reset_job partial)) "j"
      ≡ submitted s uploads)
    × (map (λ u. u.account_id) uploads ≡ "a" ∷ "b" ∷ [])
unfolding Dict.get has_runnable_media_paths
retry_posts_again_example =
    retry_posts_again (λ t. true) (stored (reset_job partial)) "j" partial refl refl some_rows

retry_media_removed_example :
    (after : Jobs) × (job' : JobRecord) × (retry_job (stored partial).jobs "j" ≡ ok (after, job'))
    × ((s : Store) × (uploads : List Upload) × (start
            (λ t. true)
            (record (stored partial) { jobs = after })
            "j"
          ≡ submitted s uploads))
    × (job'.media_paths ≡ partial.media_paths)
    × All
        (λ p.
          any (same_text p) (files_after_run partial (codes "/tmp/m.mp4" ∷ codes "/b" ∷ []))
          ≡ false)
        job'.media_paths
unfolding Dict.get is_retryable has_runnable_media_paths
retry_media_removed_example =
    retry_media_removed (λ t. true) (stored partial) "j" partial
      (codes "/tmp/m.mp4" ∷ codes "/b" ∷ []) refl refl refl some_rows

only_j : (k : String) → Dict.get paused.store.pause_events k ≡ some 0 → k ≡ "j"
unfolding Dict.get
only_j k h = ground (arith, eq_iff "j" k)

abbrev steps_after : List Command
steps_after = stop "j" ∷ pause "j" ∷ set 0 ∷ resume "j" ∷ set 1 ∷ []

cleared_wait_never_ends_example :
    let cleared : Control = record { store = clear_control paused.store "j"; reads = [] } in
    worker_step outside "j" "b" 7
      (record paused { store = (operate_all steps_after cleared).store })
      (waiting 0)
    ≡ none
unfolding is_set
cleared_wait_never_ends_example =
    cleared_wait_never_ends outside paused [] "j" "b" 7 0 steps_after (omega arith) refl only_j refl

stop_releases_example :
    let stopped = record paused { store = request_stop paused.store "j" } in
    (worker_step outside "j" "b" 7 stopped (waiting 0) ≡ some (stopped, after_pause))
    × (worker_step outside "j" "b" 7 stopped after_pause
        ≡ some (stopped, writing (write "skipped" none none ended)))
unfolding Dict.get
stop_releases_example = stop_releases outside paused "j" "b" 7 0 refl (omega arith)

abbrev workers : Workers
workers = ("b", preflight) ∷ []

abbrev ticks : List Tick
ticks = work "b" 1 ∷ work "b" 2 ∷ command (stop "j") ∷ work "b" 3 ∷ work "b" 4 ∷ work "b" 5 ∷ []

workers_start :
    (a : String) (phase : Phase)
    → Dict.get workers a ≡ some phase
    → (phase ≡ preflight) × (is_present (account_status world.store "j" a) ≡ true)
unfolding Dict.get row_status
workers_start a phase h = elim (Bool-cases (str_eq "b" a)) [
  | inl t ↦ (ground (arith, h, t), ground (arith, t))
  | inr f ↦ absurd (ground arith)
]

ended-is_terminal_example :
    is_terminal_status
      (account_status (advance_all outside "j" ticks world workers).0.store "j" "b")
    ≡ true
unfolding Dict.get advance_all advance worker_step is_stop_requested obey allow_request observed
    Dict.put update_result
ended-is_terminal_example = ended-is_terminal outside "j" ticks world workers workers_start "b" refl
