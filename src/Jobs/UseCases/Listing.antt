-- ===== src/Jobs/UseCases/Listing.antt =====
-- `list_posts` and `list_recent_posts` of backend/app/application/use_cases/post_job.py, over the jobs
-- of the repository in its order. `list_posts` leaves fields of the record out, so a `PostJobDTO` is
-- what remains.
use insta.Prelude.{
  ℕ, zero, suc, ◌-◌, ltb, ◌==◌, String, str_eq, Option, none, some, List, [], ◌∷◌, ◌++◌, map,
  length, keep, if◌then◌else◌,
}
use insta.Jobs.Record.{Text, ResultRow, JobRecord}

pub record PostJobDto : Type 0 where
  pub id : String
  pub caption : Text
  pub status : String
  pub media_type : String
  pub targets : List String
  pub results : List ResultRow
  pub created_at : String
  pub media_urls : List String
  pub scheduled_at : Option Text

unfoldable pub post_job_dto : JobRecord → PostJobDto
post_job_dto job = record {
  id = job.id;
  caption = job.caption;
  status = job.status;
  media_type = job.media_type;
  targets = job.targets;
  results = job.results;
  created_at = job.created_at;
  media_urls = job.media_urls;
  scheduled_at = job.scheduled_at;
}

unfoldable pub list_posts : List JobRecord → List PostJobDto
unfolding post_job_dto
list_posts jobs = map post_job_dto jobs

pub record RecentJob : Type 0 where
  pub id : String
  pub status : String
  pub caption : Text
  pub targets : ℕ
  pub created_at : String
  pub results : List (Text × String)

unfoldable pub take {ℓ} : {A : Type ℓ} → ℕ → List A → List A
take n [] = []
take zero (x ∷ xs) = []
take (suc n) (x ∷ xs) = x ∷ take n xs

unfoldable pub drop {ℓ} : {A : Type ℓ} → ℕ → List A → List A
drop n [] = []
drop zero (x ∷ xs) = x ∷ xs
drop (suc n) (x ∷ xs) = drop n xs

-- The first 80 characters with an ellipsis, or the whole.
unfoldable pub shown_caption : Text → Text
unfolding take
shown_caption caption = if ltb 80 (length caption) then take 80 caption ++ (8230 ∷ []) else caption

unfoldable pub recent_job : JobRecord → RecentJob
unfolding shown_caption
recent_job job = record {
  id = job.id;
  status = job.status;
  caption = shown_caption job.caption;
  targets = length job.targets;
  created_at = job.created_at;
  results = map (λ r. (r.username, r.status)) job.results;
}

-- `jobs[-limit:]`, which is the whole list for a limit of 0
unfoldable pub last_jobs : ℕ → List JobRecord → List JobRecord
unfolding drop
last_jobs limit jobs = if limit == 0 then jobs else drop (length jobs - limit) jobs

abbrev pub with_status : Option String → List JobRecord → List JobRecord
with_status none jobs = jobs
with_status (some status) jobs =
    if str_eq status "" then jobs else keep (λ job. str_eq job.status status) jobs

unfoldable pub list_recent_posts : List JobRecord → ℕ → Option String → List RecentJob × ℕ
unfolding last_jobs recent_job
list_recent_posts jobs limit status_filter =
    let chosen = last_jobs limit (with_status status_filter jobs) in
    (map recent_job chosen, length chosen)
