-- ===== src/Jobs/UseCases.antt =====
-- `PostJobUseCases` of backend/app/application/use_cases/post_job.py over the job repository, a
-- dictionary from job ids. The account repository (`Accounts`), the new job id and the time are
-- arguments, and so is `parses`, `datetime.fromisoformat`. A `ValueError` is `raised`.
pub mod Laws
pub mod Listing
use insta.Prelude.{
  ℕ, ◌+◌, ◌-◌, ltb, ◌==◌, String, str_eq, Bool, true, false, not, ◌&&◌, ◌||◌, Option, none, some,
  List, [], ◌∷◌, ◌++◌, map, length, any, keep, if◌then◌else◌,
}
use insta.Prelude.Dict
use insta.Prelude.Dict.{Dict}
use insta.Prelude.Text.{codes, strip, is_empty, endswith}
use insta.Copilot.Values.{Value, Fields, end}
use insta.Jobs.Record.{Text, ResultRow, JobRecord}

pub data Error : Type 0 where
  thumbnail_not_allowed igtv_title_required job_not_found not_retryable still_active : Error

pub data Result {ℓ} (A : Type ℓ) : Type ℓ where
  ok : A → Result A
  raised : Error → Result A

-- `AccountRepository`: `get` gives the user name of an account
pub record Accounts : Type 0 where
  pub get : String → Option Text
  pub find_by_username : Text → Option String

pub record CreatePostJobRequest : Type 0 where
  pub caption : Text
  pub account_ids : List String
  pub media_paths : List Text
  pub scheduled_at : Option Text
  pub media_type : Option String
  pub thumbnail_path : Option Text
  pub igtv_title : Option Text
  pub usertags : Option (List Value)
  pub location : Option Value
  pub extra_data : Option Fields

abbrev pub media_required_error_code : String
media_required_error_code = "media_required"

abbrev pub media_required_error_message : String
media_required_error_message = "Attach at least one media file before this post can run."

abbrev pub invalid_schedule_error_code : String
invalid_schedule_error_code = "invalid_schedule"

abbrev pub invalid_schedule_error_message : String
invalid_schedule_error_message = "Scheduled time is invalid. Update it and retry."

-- Python's truth of an optional text
abbrev pub is_given : Option Text → Bool
is_given none = false
is_given (some t) = not (is_empty t)

abbrev pub or_else {ℓ} : {A : Type ℓ} → Option A → A → A
or_else none default = default
or_else (some a) default = a

unfoldable pub has_runnable_media_paths : List Text → Bool
unfolding strip is_empty
has_runnable_media_paths paths = any (λ p. not (is_empty (strip p))) paths

-- `s.replace("Z", "+00:00")`
unfoldable pub replace_z : Text → Text
replace_z [] = []
replace_z (c ∷ s) = if c == 90 then codes "+00:00" ++ replace_z s else c ∷ replace_z s

unfoldable pub is_valid_scheduled_at : (Text → Bool) → Option Text → Bool
unfolding replace_z strip is_empty
is_valid_scheduled_at parses none = false
is_valid_scheduled_at parses (some t) = not (is_empty (strip t)) && parses (replace_z t)

unfoldable pub inferred_media_type : List Text → String
unfolding endswith
inferred_media_type paths =
    if any (λ p. endswith p (codes ".mp4") || endswith p (codes ".mov")) paths
    then "reels"
    else if ltb 1 (length paths)
    then "album"
    else "photo"

-- `request.media_type or inferred`
unfoldable pub chosen_media_type : Option String → List Text → String
unfolding inferred_media_type
chosen_media_type none paths = inferred_media_type paths
chosen_media_type (some t) paths = if str_eq t "" then inferred_media_type paths else t

-- `self._account_record(self.account_repo.get(account_id)).username`
unfoldable pub account_username : Accounts → String → Text
account_username accounts account_id = or_else (accounts.get account_id) []

unfoldable pub pending_row : Accounts → Option String → Option String → String → ResultRow
unfolding account_username
pending_row accounts error error_code account_id =
    let username = account_username accounts account_id in
    record {
      account_id = account_id;
      username = if is_empty username then codes account_id else username;
      status = "pending";
      error = error;
      error_code = error_code;
    }

unfoldable pub new_job : Accounts → String → String → CreatePostJobRequest → JobRecord
unfolding chosen_media_type pending_row strip
new_job accounts job_id now request = record {
  id = job_id;
  caption = strip request.caption;
  status = if is_given request.scheduled_at then "scheduled" else "pending";
  targets = request.account_ids;
  results = map (pending_row accounts none none) request.account_ids;
  created_at = now;
  media_urls = [];
  media_type = chosen_media_type request.media_type request.media_paths;
  media_paths = request.media_paths;
  scheduled_at = request.scheduled_at;
  thumbnail_path = request.thumbnail_path;
  igtv_title = request.igtv_title;
  usertags = or_else request.usertags [];
  location = request.location;
  extra_data = or_else request.extra_data end;
}

abbrev pub Jobs : Type 0
Jobs = Dict JobRecord

unfoldable pub create_post_job :
    Accounts → Jobs → String → String → CreatePostJobRequest → Result (Jobs × JobRecord)
unfolding new_job chosen_media_type is_empty
create_post_job accounts jobs job_id now request =
    let job = new_job accounts job_id now request in
    let media_type = chosen_media_type request.media_type request.media_paths in
    if is_given request.thumbnail_path
      && not (str_eq media_type "reels" || str_eq media_type "video")
    then raised thumbnail_not_allowed
    else if str_eq media_type "igtv" && not (is_given request.igtv_title)
    then raised igtv_title_required
    else ok (Dict.put jobs job_id job, job)

-- `username.lstrip("@")`
unfoldable pub lstrip_at : Text → Text
lstrip_at [] = []
lstrip_at (c ∷ s) = let rest = lstrip_at s in if c == 64 then rest else c ∷ s

abbrev place : Option String → Text → List String × List Text → List String × List Text
place none username (found, not_found) = (found, username ∷ not_found)
place (some account_id) username (found, not_found) =
    if str_eq account_id "" then (found, username ∷ not_found) else (account_id ∷ found, not_found)

-- The accounts found, and the names that are not.
unfoldable pub resolve : Accounts → List Text → List String × List Text
resolve accounts [] = ([], [])
resolve accounts (username ∷ rest) =
    place (accounts.find_by_username username) username (resolve accounts rest)

unfoldable pub draft_job : Accounts → String → String → Text → Option Text → List String → JobRecord
unfolding pending_row
draft_job accounts job_id now caption scheduled_at account_ids = record {
  id = job_id;
  caption = caption;
  status = "needs_media";
  targets = account_ids;
  results =
      map
        (pending_row accounts (some media_required_error_message) (some media_required_error_code))
        account_ids;
  created_at = now;
  media_urls = [];
  media_type = "photo";
  media_paths = [];
  scheduled_at = scheduled_at;
  thumbnail_path = none;
  igtv_title = none;
  usertags = [];
  location = none;
  extra_data = end;
}

-- `PostJobResult`, without the message
pub record PostJobResult : Type 0 where
  pub job_id : String
  pub status : String
  pub targets : List Text
  pub not_found : List Text
  pub failure : Option String

abbrev drafted :
    Accounts
    → Jobs
    → String
    → String
    → Text
    → Option Text
    → List String
    → List Text
    → Jobs × PostJobResult
drafted accounts jobs job_id now caption scheduled_at [] not_found = (
  jobs,
  record {
    job_id = "";
    status = "error";
    targets = [];
    not_found = not_found;
    failure = some "no_accounts_found";
  },
)
drafted accounts jobs job_id now caption scheduled_at (a ∷ rest) not_found =
    let job = draft_job accounts job_id now caption scheduled_at (a ∷ rest) in
    (
      Dict.put jobs job_id job,
      record {
        job_id = job_id;
        status = job.status;
        targets = map (account_username accounts) (a ∷ rest);
        not_found = not_found;
        failure = none;
      },
    )

unfoldable pub create_scheduled_post_draft :
    Accounts → Jobs → String → String → List Text → Text → Option Text → Jobs × PostJobResult
unfolding lstrip_at resolve draft_job
create_scheduled_post_draft accounts jobs job_id now usernames caption scheduled_at =
    let sorted = resolve accounts (map lstrip_at usernames) in
    drafted accounts jobs job_id now caption scheduled_at sorted.0 sorted.1

unfoldable pub is_retryable : String → Bool
is_retryable status = str_eq status "failed" || str_eq status "stopped" || str_eq status "partial"

unfoldable pub is_reset : String → Bool
is_reset status = str_eq status "failed" || str_eq status "pending" || str_eq status "skipped"

abbrev pub reset_row : ResultRow → ResultRow
reset_row r = if is_reset r.status then record r { status = "pending"; error = none } else r

abbrev pub reset_job : JobRecord → JobRecord
reset_job job = record job {
  status = "pending";
  results = map reset_row job.results;
  scheduled_at = none;
}

abbrev retried : Option JobRecord → Jobs → String → Result (Jobs × JobRecord)
retried none jobs job_id = raised job_not_found
retried (some job) jobs job_id =
    if not (is_retryable job.status)
    then raised not_retryable
    else ok (Dict.put jobs job_id (reset_job job), reset_job job)

unfoldable pub retry_job : Jobs → String → Result (Jobs × JobRecord)
unfolding is_retryable is_reset
retry_job jobs job_id = retried (Dict.get jobs job_id) jobs job_id

unfoldable pub is_active : String → Bool
is_active status =
    str_eq status "pending"
    || str_eq status "scheduled"
    || str_eq status "running"
    || str_eq status "paused"

abbrev deleted : Option JobRecord → Jobs → String → Result Jobs
deleted none jobs job_id = raised job_not_found
deleted (some job) jobs job_id =
    if is_active job.status then raised still_active else ok (Dict.pop jobs job_id)

unfoldable pub delete_job : Jobs → String → Result Jobs
unfolding is_active
delete_job jobs job_id = deleted (Dict.get jobs job_id) jobs job_id
