-- ===== src/Jobs/Store/Runtime.antt =====
-- The runtime metadata that `ThreadSafeJobStore` of backend/state.py keeps in a job's extra data:
-- which worker runs the job, since when, and its last heartbeat. `show` is Python's `str`.
pub mod Heartbeats
use insta.Prelude.{String, str_eq, Bool, true, false, not, ◌&&◌, Option, none, some, if◌then◌else◌}
use insta.Prelude.Dict
use insta.Copilot.Values.{Value, Fields, null, text, object, end, member}
use insta.Copilot.Guards.{get_field}
use insta.Copilot.Graph.{is_true}
use insta.Jobs.Record.{JobRecord}
use insta.Jobs.Store.{Store, change_job}

-- `fields[key] = value`
unfoldable pub put_field : Fields → String → Value → Fields
put_field end key v = member key v end
put_field (member k w fs) key v =
    if str_eq k key then member k v fs else member k w (put_field fs key v)

abbrev pub fields_of : Option Value → Fields
fields_of (some (object fs)) = fs
fields_of v = end

-- `_ensure_runtime_meta`
unfoldable pub runtime_meta : Fields → Fields
runtime_meta extra = fields_of (get_field extra "job_runtime")

abbrev pub with_runtime : (Fields → Fields) → JobRecord → JobRecord
with_runtime f job = record job {
  extra_data = put_field job.extra_data "job_runtime" (object (f (runtime_meta job.extra_data)));
}

unfoldable pub started_meta : String → String → Fields → Fields
unfolding put_field
started_meta worker_id started_at runtime =
    put_field
      (put_field (put_field runtime "worker_id" (text worker_id)) "started_at" (text started_at))
      "last_heartbeat_at" (text started_at)

unfoldable pub mark_started : Store → String → String → String → Option Store
unfolding started_meta runtime_meta
mark_started store job_id worker_id started_at =
    change_job (with_runtime (started_meta worker_id started_at)) (Dict.get store.jobs job_id) store
      job_id

-- `str(value or "")`
abbrev pub shown : (Value → String) → Option Value → String
shown show none = ""
shown show (some (text s)) = s
shown show (some v) = if is_true v then show v else ""

abbrev pub set_default : Option Value → Fields → String → Value → Fields
set_default none fs key v = put_field fs key v
set_default (some old) fs key v = fs

-- A heartbeat of another worker than the active one changes nothing.
unfoldable pub heartbeat_meta : (Value → String) → String → String → Fields → Fields
unfolding put_field
heartbeat_meta show worker_id heartbeat_at runtime =
    let active_worker = shown show (get_field runtime "worker_id") in
    let claimed = put_field runtime "worker_id" (text worker_id) in
    if not (str_eq active_worker "") && not (str_eq active_worker worker_id)
    then runtime
    else put_field
        (set_default (get_field claimed "started_at") claimed "started_at" (text heartbeat_at))
        "last_heartbeat_at" (text heartbeat_at)

unfoldable pub mark_heartbeat : (Value → String) → Store → String → String → String → Option Store
unfolding heartbeat_meta runtime_meta
mark_heartbeat show store job_id worker_id heartbeat_at =
    change_job (with_runtime (heartbeat_meta show worker_id heartbeat_at))
      (Dict.get store.jobs job_id) store job_id

pub record Metadata : Type 0 where
  pub worker_id : Option String
  pub started_at : Option String
  pub last_heartbeat_at : Option String

abbrev pub shown_if_set : (Value → String) → Option Value → Option String
shown_if_set show none = none
shown_if_set show (some (text s)) = some s
shown_if_set show (some null) = none
shown_if_set show (some v) = some (show v)

unfoldable pub metadata_of : (Value → String) → Fields → Metadata
unfolding runtime_meta
metadata_of show extra = record {
  worker_id = shown_if_set show (get_field (runtime_meta extra) "worker_id");
  started_at = shown_if_set show (get_field (runtime_meta extra) "started_at");
  last_heartbeat_at = shown_if_set show (get_field (runtime_meta extra) "last_heartbeat_at");
}

abbrev metadata_in : (Value → String) → Option JobRecord → Option Metadata
metadata_in show none = none
metadata_in show (some job) = some (metadata_of show job.extra_data)

unfoldable pub get_runtime_metadata : (Value → String) → Store → String → Option Metadata
unfolding metadata_of
get_runtime_metadata show store job_id = metadata_in show (Dict.get store.jobs job_id)
