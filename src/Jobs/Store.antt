-- ===== src/Jobs/Store.antt =====
-- `ThreadSafeJobStore` of backend/state.py. Each method holds the lock for all that it does with the
-- dictionaries, so that is one step; a stop and a resume set the event that they read there in a second
-- step, after the lock is released. An `Event` is a place in `events`, since the threads that wait
-- keep the object after its entry is removed. `none` is the `KeyError` of a job that is not there.
pub mod Laws
pub mod Runtime
use insta.Prelude.{
  ℕ, ◌+◌, suc, zero, String, str_eq, Bool, true, false, not, Option, none, some, List, [], ◌∷◌,
  length, count_if, ◌++◌, if◌then◌else◌,
}
use insta.Prelude.Dict
use insta.Prelude.Dict.{Dict}
use insta.Jobs.Record.{ResultRow, JobRecord}

pub record Store : Type 0 where
  pub jobs : Dict JobRecord
  pub stop_flags : Dict Bool
  pub pause_events : Dict ℕ
  pub events : List Bool

abbrev pub change_job : (JobRecord → JobRecord) → Option JobRecord → Store → String → Option Store
change_job f none store job_id = none
change_job f (some job) store job_id =
    some (record store { jobs = Dict.put store.jobs job_id (f job) })

unfoldable pub set_job_status : Store → String → String → Option Store
set_job_status store job_id status =
    change_job (λ job. record job { status = status }) (Dict.get store.jobs job_id) store job_id

abbrev pub or_keep : Option String → Option String → Option String
or_keep none old = old
or_keep (some new) old = some new

-- The first row of the account is changed.
unfoldable pub update_rows :
    List ResultRow → String → String → Option String → Option String → List ResultRow
update_rows [] account_id status error error_code = []
update_rows (r ∷ rest) account_id status error error_code =
    let changed = record r {
      status = status;
      error = or_keep error r.error;
      error_code = or_keep error_code r.error_code;
    } in
    if str_eq r.account_id account_id
    then changed ∷ rest
    else r ∷ update_rows rest account_id status error error_code

unfoldable pub update_result :
    Store → String → String → String → Option String → Option String → Option Store
unfolding update_rows
update_result store job_id account_id status error error_code =
    change_job
      (λ job. record job { results = update_rows job.results account_id status error error_code })
      (Dict.get store.jobs job_id) store job_id

unfoldable pub row_status : List ResultRow → String → Option String
row_status [] account_id = none
row_status (r ∷ rest) account_id =
    if str_eq r.account_id account_id then some r.status else row_status rest account_id

abbrev status_in : Option JobRecord → String → Option (Option String)
status_in none account_id = none
status_in (some job) account_id = some (row_status job.results account_id)

unfoldable pub get_result_status : Store → String → String → Option (Option String)
unfolding row_status
get_result_status store job_id account_id = status_in (Dict.get store.jobs job_id) account_id

pub record Tally : Type 0 where
  pub success : ℕ
  pub failed : ℕ
  pub skipped : ℕ

abbrev pub has_status : String → ResultRow → Bool
has_status status r = str_eq r.status status

unfoldable pub tally_results : List ResultRow → Tally
tally_results results = record {
  success = count_if (has_status "success") results;
  failed = count_if (has_status "failed") results;
  skipped = count_if (has_status "skipped") results;
}

-- `Event.set` and `Event.clear` of the event at a place
unfoldable pub assign : List Bool → ℕ → Bool → List Bool
assign [] n b = []
assign (e ∷ rest) zero b = b ∷ rest
assign (e ∷ rest) (suc n) b = e ∷ assign rest n b

-- `Event.is_set`
unfoldable pub is_set : List Bool → ℕ → Bool
is_set [] n = false
is_set (e ∷ rest) zero = e
is_set (e ∷ rest) (suc n) = is_set rest n

-- `if evt is not None: evt.set()`, outside the lock
abbrev pub release : Option ℕ → Store → Store
release none store = store
release (some e) store = record store { events = assign store.events e true }

-- What a stop and a resume do under the lock, with the event that they then set.
unfoldable pub flag_stop : Store → String → Store × Option ℕ
flag_stop store job_id = (
  record store { stop_flags = Dict.put store.stop_flags job_id true },
  Dict.get store.pause_events job_id,
)

unfoldable pub read_event : Store → String → Option ℕ
read_event store job_id = Dict.get store.pause_events job_id

-- Both steps of a stop, with no other thread between them.
unfoldable pub request_stop : Store → String → Store
unfolding flag_stop
request_stop store job_id = let (flagged, event) = flag_stop store job_id in release event flagged

abbrev or_false : Option Bool → Bool
or_false none = false
or_false (some b) = b

unfoldable pub is_stop_requested : Store → String → Bool
is_stop_requested store job_id = or_false (Dict.get store.stop_flags job_id)

abbrev pub hold : Option ℕ → Store → String → Store
hold none store job_id = record store {
  pause_events = Dict.put store.pause_events job_id (length store.events);
  events = store.events ++ (false ∷ []);
}
hold (some e) store job_id = record store { events = assign store.events e false }

unfoldable pub request_pause : Store → String → Store
request_pause store job_id = hold (Dict.get store.pause_events job_id) store job_id

-- Both steps of a resume, with no other thread between them.
unfoldable pub request_resume : Store → String → Store
unfolding read_event
request_resume store job_id = release (read_event store job_id) store

unfoldable pub clear_control : Store → String → Store
clear_control store job_id = record store {
  stop_flags = Dict.pop store.stop_flags job_id;
  pause_events = Dict.pop store.pause_events job_id;
}

unfoldable pub delete : Store → String → Store × Bool
delete store job_id =
    let cleared = record store {
      jobs = Dict.pop store.jobs job_id;
      stop_flags = Dict.pop store.stop_flags job_id;
      pause_events = Dict.pop store.pause_events job_id;
    } in
    (cleared, Dict.has_key store.jobs job_id)
