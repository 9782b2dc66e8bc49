-- ===== src/Jobs/UseCases/Laws.antt =====
-- What creating, retrying and deleting a job do.
use insta.Prelude.{
  String, str_eq, eq_iff, Bool, true, false, ◌||◌, none, some, List, [], ◌∷◌, map, keep, ap, ◌≡◌,
  refl, sym, ◌∙◌, Option, Bool-cases, inl, inr, arith, if◌then◌else◌,
}
use insta.Prelude.Dict
use insta.Prelude.Dict.{get-put, get-pop}
use insta.Jobs.Record.{ResultRow, JobRecord}
use insta.Jobs.Store.{has_status}
use insta.Jobs.UseCases.{ok, Jobs, is_retryable, is_reset, reset_row, reset_job, retry_job}

str_eq→path : (s t : String) → str_eq s t ≡ true → s ≡ t
str_eq→path s t h = ground (arith, eq_iff s t)

success_not_reset : (s : String) → str_eq s "success" ≡ true → is_reset s ≡ false
unfolding is_reset
success_not_reset s h = ap is_reset (str_eq→path s "success" h)

reset_row-other :
    (r : ResultRow) → has_status "success" r ≡ false → has_status "success" (reset_row r) ≡ false
reset_row-other r h = go (is_reset r.status)
  where
    go :
        (b : Bool)
        → has_status "success" (if b then record r { status = "pending"; error = none } else r)
          ≡ false
    go true = refl
    go false = h

-- After a retry, the rows that posted are as they were, in their order.
keep-reset_rows :
    (rows : List ResultRow)
    → keep (has_status "success") (map reset_row rows) ≡ keep (has_status "success") rows
keep-reset_rows [] = refl
keep-reset_rows (r ∷ rest) = elim (Bool-cases (has_status "success" r)) [
  | inl e ↦ ground (arith, keep-reset_rows rest, success_not_reset r.status)
  | inr e ↦ ground (arith, keep-reset_rows rest, reset_row-other r)
]

-- A row before and after a retry: a failed or skipped one is pending, others keep their status; what is
-- then pending has no error; the account, the name and the error code stay.
abbrev pub RowRetried : ResultRow → ResultRow → Type 0
RowRetried r r' =
    (r'.account_id ≡ r.account_id)
    × (r'.username ≡ r.username)
    × (r'.error_code ≡ r.error_code)
    × (r'.status
        ≡ (if str_eq r.status "failed" || str_eq r.status "skipped" then "pending" else r.status))
    × (r'.error ≡ (if str_eq r'.status "pending" then none else r.error))

-- The rows before and after, one by one and in the same order.
abbrev pub RowsRetried : List ResultRow → List ResultRow → Type 0
RowsRetried [] [] = Unit
RowsRetried [] (r' ∷ after) = ⊥
RowsRetried (r ∷ before) [] = ⊥
RowsRetried (r ∷ before) (r' ∷ after) = RowRetried r r' × RowsRetried before after

if_reset :
    (b : Bool) (r : ResultRow)
    → let r' = if b then record r { status = "pending"; error = none } else r in
      (r'.account_id ≡ r.account_id)
      × (r'.username ≡ r.username)
      × (r'.error_code ≡ r.error_code)
      × (r'.status ≡ (if b then "pending" else r.status))
      × (r'.error ≡ (if b then none else r.error))
if_reset true r = (refl, refl, refl, refl, refl)
if_reset false r = (refl, refl, refl, refl, refl)

status_after :
    (s : String)
    → (if is_reset s then "pending" else s)
      ≡ (if str_eq s "failed" || str_eq s "skipped" then "pending" else s)
unfolding is_reset
status_after s = ground (arith, eq_iff s "pending")

not_reset_pending : (s : String) → is_reset s ≡ false → str_eq s "pending" ≡ false
unfolding is_reset
not_reset_pending s h = ground arith

error_after :
    (s : String) (o : Option String)
    → (if is_reset s then none else o)
      ≡ (if str_eq (if is_reset s then "pending" else s) "pending" then none else o)
error_after s o = go (is_reset s) (not_reset_pending s)
  where
    go :
        (b : Bool)
        → (b ≡ false → str_eq s "pending" ≡ false)
        → (if b then none else o)
          ≡ (if str_eq (if b then "pending" else s) "pending" then none else o)
    go true h = refl
    go false h = ground (arith, h refl)

reset_row-RowRetried : (r : ResultRow) → RowRetried r (reset_row r)
reset_row-RowRetried r =
    let (account, name, code, status, error) = if_reset (is_reset r.status) r in
    (
      account,
      name,
      code,
      status ∙ status_after r.status,
      error
          ∙ error_after r.status r.error
          ∙ ap (λ s. if str_eq s "pending" then none else r.error) (sym status),
    )

reset_rows-RowsRetried : (rows : List ResultRow) → RowsRetried rows (map reset_row rows)
reset_rows-RowsRetried [] = tt
reset_rows-RowsRetried (r ∷ rest) = (reset_row-RowRetried r, reset_rows-RowsRetried rest)

-- A retry of a job that failed, was stopped or is partial succeeds. The job is then pending and not
-- scheduled, with the same media paths and all else but the rows as it was. Each row stays in its place
-- with its account; a failed or skipped one is pending, and what is pending has no error; rows that
-- posted are as they were. No other job changes.
pub retry_job_exact :
    (jobs : Jobs) (job_id : String) (job : JobRecord)
    → Dict.get jobs job_id ≡ some job
    → is_retryable job.status ≡ true
    → (after : Jobs) × (job' : JobRecord) × (retry_job jobs job_id ≡ ok (after, job'))
      × ((k : String) → Dict.get after k ≡ (if str_eq job_id k then some job' else Dict.get jobs k))
      × (job'.status ≡ "pending")
      × (job'.scheduled_at ≡ none)
      × (job'.media_paths ≡ job.media_paths)
      × (record job' { status = job.status; scheduled_at = job.scheduled_at; results = job.results }
          ≡ job)
      × RowsRetried job.results job'.results
      × (keep (has_status "success") job'.results ≡ keep (has_status "success") job.results)
unfolding retry_job
retry_job_exact jobs job_id job g h = (
  Dict.put jobs job_id (reset_job job),
  reset_job job,
  ground arith,
  λ k. get-put jobs job_id k (reset_job job),
  refl,
  refl,
  refl,
  refl,
  reset_rows-RowsRetried job.results,
  keep-reset_rows job.results,
)
