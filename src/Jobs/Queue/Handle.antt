-- ===== src/Jobs/Queue/Handle.antt =====
-- `_handle` of the queue's workers: which jobs they run, and how the check agrees with the executor's.
use insta.Prelude.{
  String, str_eq, eq_refl, Bool, true, false, not, ◌&&◌, ◌||◌, Option, none, some, ◌≡◌, refl, arith,
  if◌then◌else◌,
}
use insta.Prelude.Dict
use insta.Prelude.Dict.{get-put}
use insta.Copilot.Values.{Value, Fields}
use insta.Jobs.Record.{Text, JobRecord}
use insta.Jobs.Store.{Store, set_job_status, clear_control, change_job}
use insta.Jobs.Store.Runtime.{
  mark_started, mark_heartbeat, with_runtime, started_meta, heartbeat_meta,
}
use insta.Jobs.UseCases.{
  has_runnable_media_paths, media_required_error_code, media_required_error_message, or_else,
}
use insta.Jobs.Executor.{mark_rows, start}
use insta.Jobs.Executor.Starts.{
  is_taken, is_submitted, is_ready, start-taken, start-submitted, stopped_not_pending,
}

-- What a worker does with a job: leaves it, asks for media, or hands it to `run_fn`, and the store then.
pub data Handled : Type 0 where
  passed : Store → Handled
  needs_media : Store → Handled
  executed : Store → Handled

abbrev pub is_pending : JobRecord → Bool
is_pending job = str_eq job.status "pending" || str_eq job.status "scheduled"

-- `_is_scheduled_without_media`
unfoldable pub is_scheduled_without_media : JobRecord → Bool
is_scheduled_without_media job =
    str_eq job.status "scheduled" && not (has_runnable_media_paths job.media_paths)

-- `_set_job_status` and `_set_media_required_result_errors`
unfoldable pub require_media : Store → String → JobRecord → Store
require_media store job_id job =
    let marked = or_else (set_job_status store job_id "needs_media") store in
    or_else
      (mark_rows marked job_id job.results "pending" media_required_error_message
        media_required_error_code)
      marked

-- The runtime's notes before the run, each with its exception caught.
unfoldable pub note_start : (Value → String) → Store → String → String → String → Store
note_start show store job_id worker_id now =
    let begun = or_else (mark_started store job_id worker_id now) store in
    or_else (mark_heartbeat show begun job_id worker_id now) begun

unfoldable pub handle_job :
    (Value → String) → Store → String → String → String → JobRecord → Handled
unfolding is_scheduled_without_media require_media note_start
handle_job show store job_id worker_id now job =
    if str_eq job.status "stopped"
    then passed (clear_control store job_id)
    else if not (is_pending job)
    then passed store
    else if is_scheduled_without_media job
    then needs_media (require_media store job_id job)
    else executed (note_start show store job_id worker_id now)

abbrev handle_found :
    (Value → String) → Store → String → String → String → Option JobRecord → Handled
handle_found show store job_id worker_id now none = passed store
handle_found show store job_id worker_id now (some job) =
    handle_job show store job_id worker_id now job

-- Where the state cannot be read, the job runs; no note of the runtime is then made.
unfoldable pub handle : (Value → String) → Bool → Store → String → String → String → Handled
unfolding handle_job
handle show readable store job_id worker_id now =
    if readable
    then handle_found show store job_id worker_id now (Dict.get store.jobs job_id)
    else executed store

-- A note changes only the runtime's part of the job.
noted-get :
    (f : Fields → Fields) (store : Store) (job_id : String) (job : JobRecord)
    → Dict.get store.jobs job_id ≡ some job
    → Dict.get
        (or_else (change_job (with_runtime f) (Dict.get store.jobs job_id) store job_id) store).jobs
        job_id
      ≡ some (with_runtime f job)
noted-get f store job_id job g =
    rw g (ground (arith, get-put store.jobs job_id job_id (with_runtime f job), eq_refl job_id))

note_start-get :
    (show : Value → String) (store : Store) (job_id worker_id now : String) (job : JobRecord)
    → Dict.get store.jobs job_id ≡ some job
    → Dict.get (note_start show store job_id worker_id now).jobs job_id
      ≡ some (
          with_runtime
            (heartbeat_meta show worker_id now)
            (with_runtime (started_meta worker_id now) job))
unfolding note_start mark_started mark_heartbeat
note_start-get show store job_id worker_id now job g =
    noted-get (heartbeat_meta show worker_id now) _ job_id
      (with_runtime (started_meta worker_id now) job)
      (noted-get (started_meta worker_id now) store job_id job g)

-- The status and the media that make a job run.
abbrev pub is_runnable : Option JobRecord → Bool
is_runnable none = false
is_runnable (some job) =
    is_pending job
    && not (str_eq job.status "scheduled" && not (has_runnable_media_paths job.media_paths))

abbrev pub is_found_ready : (Text → Bool) → Option JobRecord → Bool
is_found_ready parses none = false
is_found_ready parses (some job) = is_ready parses job

-- The run, if the worker hands the job on, takes the job up, and submits its uploads if it is ready.
abbrev pub RunBegins : (Text → Bool) → String → Option JobRecord → Handled → Type 0
RunBegins parses job_id found (executed store) =
    (is_runnable found ≡ true)
    × (is_taken (start parses store job_id) ≡ true)
    × (is_submitted (start parses store job_id) ≡ is_found_ready parses found)
RunBegins parses job_id found (passed store) = is_runnable found ≡ false
RunBegins parses job_id found (needs_media store) = is_runnable found ≡ false

noted-begins :
    (parses : Text → Bool) (show : Value → String) (store : Store) (job_id worker_id now : String)
    (job : JobRecord)
    → Dict.get store.jobs job_id ≡ some job
    → is_pending job ≡ true
    → let noted = note_start show store job_id worker_id now in
      (is_taken (start parses noted job_id) ≡ true)
      × (is_submitted (start parses noted job_id) ≡ is_ready parses job)
noted-begins parses show store job_id worker_id now job g p =
    let noted = note_start show store job_id worker_id now in
    let job' =
      with_runtime (heartbeat_meta show worker_id now)
        (with_runtime (started_meta worker_id now) job) in
    let g' = note_start-get show store job_id worker_id now job g in
    (start-taken parses noted job_id job' g' p, start-submitted parses noted job_id job' g' p)

handle_job-begins :
    (parses : Text → Bool) (show : Value → String) (store : Store) (job_id worker_id now : String)
    (job : JobRecord)
    → Dict.get store.jobs job_id ≡ some job
    → RunBegins parses job_id (some job) (handle_job show store job_id worker_id now job)
unfolding handle_job is_scheduled_without_media
handle_job-begins parses show store job_id worker_id now job g =
    ground
      (arith, stopped_not_pending job, noted-begins parses show store job_id worker_id now job g)

-- Where the state can be read, a worker hands a job to the executor exactly if the job is there,
-- pending or scheduled, and not scheduled without media. If nothing comes between, the executor then
-- does not leave the job for its status: it submits the job's uploads exactly if the job has a media
-- path, a valid time if it is scheduled, and a row, and else puts the job to rest. Where the state
-- cannot be read, the worker hands on every job.
pub handle-RunBegins :
    (parses : Text → Bool) (show : Value → String) (store : Store) (job_id worker_id now : String)
    → RunBegins parses job_id
        (Dict.get store.jobs job_id)
        (handle show true store job_id worker_id now)
      × (handle show false store job_id worker_id now ≡ executed store)
unfolding handle
handle-RunBegins parses show store job_id worker_id now =
    (go (Dict.get store.jobs job_id) refl, refl)
  where
    go :
        (o : Option JobRecord)
        → Dict.get store.jobs job_id ≡ o
        → RunBegins parses job_id o (handle_found show store job_id worker_id now o)
    go none e = refl
    go (some job) e = handle_job-begins parses show store job_id worker_id now job e
