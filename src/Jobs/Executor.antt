-- ===== src/Jobs/Executor.antt =====
-- `PostJobExecutor` of backend/instagram_runtime/post_job_executor.py. `start` is `run` up to the
-- submission of the workers, `worker_step` one atomic step of `_upload_one`, and `expire` and `finish`
-- what `run` does after the wait. The upload, its failure's classification and the client registry
-- are an `Outside`; pushes to listeners, prints and the activity log are not modelled.
pub mod Laws
pub mod Worker
pub mod Retry
pub mod Together
pub mod Promise
pub mod Pauses
pub mod Outcome
pub mod Starts
use insta.Prelude.{
  ℕ, ltb, ◌==◌, String, str_eq, Bool, true, false, not, ◌&&◌, ◌||◌, Option, none, some, List, [],
  ◌∷◌, ◌++◌, map, if◌then◌else◌,
}
use insta.Prelude.Dict
use insta.Prelude.Text.{codes, lower, endswith, same_text}
use insta.Breaker.Upload.{SyncCircuitBreaker, allow_request, record_success, record_failure}
use insta.Jobs.Record.{Text, ResultRow, JobRecord}
use insta.Jobs.Store.{
  Store, Tally, set_job_status, update_result, row_status, get_result_status, tally_results, is_set,
  is_stop_requested, clear_control,
}
use insta.Jobs.UseCases.{
  has_runnable_media_paths, is_valid_scheduled_at, media_required_error_code,
  media_required_error_message, invalid_schedule_error_code, invalid_schedule_error_message,
  is_given,
}

-- `_set_job_non_runnable` over the rows: each but a success gets the error.
unfoldable pub mark_rows : Store → String → List ResultRow → String → String → String → Option Store
mark_rows store job_id [] result_status message code = some store
mark_rows store job_id (r ∷ rest) result_status message code =
    let updated =
      update_result store job_id r.account_id result_status (some message) (some code) in
    if str_eq r.account_id "" || str_eq r.status "success"
    then mark_rows store job_id rest result_status message code
    else elim updated [
      | none ↦ none
      | some store' ↦ mark_rows store' job_id rest result_status message code
    ]

unfoldable pub set_job_non_runnable :
    Store → String → JobRecord → String → String → String → String → Option Store
unfolding mark_rows set_job_status
set_job_non_runnable store job_id job job_status result_status message code =
    elim (set_job_status store job_id job_status) [
      | none ↦ none
      | some store' ↦ elim (mark_rows store' job_id job.results result_status message code) [
        | none ↦ none
        | some marked ↦ some (clear_control marked job_id)
      ]
    ]

pub record Upload : Type 0 where
  pub account_id : String
  pub username : Text

-- What `run` comes to before it waits: no change, a store at rest, or the workers submitted.
pub data Started : Type 0 where
  missing skipped : Started
  settled : Store → Started
  submitted : Store → List Upload → Started

abbrev pub settled_or_missing : Option Store → Started
settled_or_missing none = missing
settled_or_missing (some store) = settled store

-- One worker for each row of the results.
unfoldable pub uploads_of : List ResultRow → List Upload
uploads_of rows = map (λ r. record { account_id = r.account_id; username = r.username }) rows

abbrev pub submit : Store → String → List ResultRow → Started
submit store job_id [] = elim (set_job_status store job_id "completed") [
  | none ↦ missing
  | some store' ↦ settled (clear_control store' job_id)
]
submit store job_id (r ∷ rows) = submitted store (uploads_of (r ∷ rows))

abbrev pub launch : (Text → Bool) → Store → String → JobRecord → Started
launch parses store job_id job =
    if not (has_runnable_media_paths job.media_paths)
    then settled_or_missing (
        set_job_non_runnable store job_id job "needs_media" "pending" media_required_error_message
          media_required_error_code)
    else if str_eq job.status "scheduled" && not (is_valid_scheduled_at parses job.scheduled_at)
    then settled_or_missing (
        set_job_non_runnable store job_id job "failed" "failed" invalid_schedule_error_message
          invalid_schedule_error_code)
    else elim (set_job_status store job_id "running") [
      | none ↦ missing
      | some store' ↦ submit store' job_id job.results
    ]

unfoldable pub start : (Text → Bool) → Store → String → Started
start parses store job_id = elim (Dict.get store.jobs job_id) [
  | none ↦ missing
  | some job ↦
      if str_eq job.status "stopped"
      then settled (clear_control store job_id)
      else if not (str_eq job.status "pending" || str_eq job.status "scheduled")
      then skipped
      else launch parses store job_id job
]

-- The rows of the uploads that the outer deadline found unfinished, in the order of the set.
unfoldable pub expire : Store → String → List Upload → Option Store
expire store job_id [] = some store
expire store job_id (u ∷ rest) = elim (get_result_status store job_id u.account_id) [
  | none ↦ none
  | some none ↦ expire store job_id rest
  | some (some current) ↦
      if str_eq current "success" || str_eq current "failed" || str_eq current "skipped"
      then expire store job_id rest
      else elim (update_result store job_id u.account_id "failed"
          (some "Upload worker stalled — killed by outer deadline") (some "worker_stall")) [
            | none ↦ none
            | some store' ↦ expire store' job_id rest
          ]
]

unfoldable pub final_status : Tally → String
final_status tally =
    if ltb 0 tally.skipped && (tally.success == 0) && (tally.failed == 0)
    then "stopped"
    else if ltb 0 tally.skipped
    then "partial"
    else if tally.failed == 0
    then "completed"
    else if tally.success == 0
    then "failed"
    else "partial"

unfoldable pub finish : Store → String → Option Store
unfolding final_status
finish store job_id = elim (Dict.get store.jobs job_id) [
  | none ↦ none
  | some job ↦
      set_job_status (clear_control store job_id) job_id (final_status (tally_results job.results))
]

abbrev pub preview : Text → List Text
preview path =
    if endswith path (codes ".mp4") || endswith path (codes ".mov")
    then (path ++ codes ".jpg") ∷ []
    else []

-- The files that `_cleanup_temp_files` removes at the end of every run, whatever came of it.
unfoldable pub removed_files : List Text → List Text
unfolding endswith
removed_files [] = []
removed_files (p ∷ rest) = p ∷ (preview p ++ removed_files rest)

abbrev pub thumbnail : Option Text → List Text
thumbnail none = []
thumbnail (some t) = if is_given (some t) then t ∷ [] else []

unfoldable pub cleanup_temp_files : JobRecord → List Text
unfolding removed_files
cleanup_temp_files job = removed_files job.media_paths ++ thumbnail job.thumbnail_path

-- `Path.unlink` of a path
unfoldable pub unlink : Text → List Text → List Text
unfolding same_text
unlink path [] = []
unlink path (f ∷ rest) = let left = unlink path rest in if same_text path f then left else f ∷ left

unfoldable pub unlink_all : List Text → List Text → List Text
unfolding unlink
unlink_all [] files = files
unlink_all (path ∷ rest) files = unlink_all rest (unlink path files)

-- The files that are left at the end of a run.
unfoldable pub files_after_run : JobRecord → List Text → List Text
unfolding cleanup_temp_files unlink_all
files_after_run job files = unlink_all (cleanup_temp_files job) files
