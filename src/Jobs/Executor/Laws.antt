-- ===== src/Jobs/Executor/Laws.antt =====
-- The final status of a job, and what a retry leads to.
use insta.Prelude.{
  ltb, ◌==◌, String, str_eq, eq_iff, eq_refl, Bool, true, false, not, ◌&&◌, ◌||◌, none, some, List,
  [], ◌∷◌, any, all, count_if, ◌≡◌, refl, arith, if◌then◌else◌,
}
use insta.Jobs.Record.{ResultRow, JobRecord}
use insta.Prelude.Dict
use insta.Prelude.Dict.{get-put, get-pop}
use insta.Jobs.Store.{
  Store, tally_results, has_status, set_job_status, clear_control, is_stop_requested,
}
use insta.Jobs.Executor.{final_status, finish}

abbrev pub is_terminal : ResultRow → Bool
is_terminal r = has_status "success" r || has_status "failed" r || has_status "skipped" r

-- The final status as the rows' statuses say it, without counting.
unfoldable pub verdict : List ResultRow → String
verdict rows =
    if any (has_status "skipped") rows
    then (if all (has_status "skipped") rows then "stopped" else "partial")
    else if all (has_status "success") rows
    then "completed"
    else if all (has_status "failed") rows
    then "failed"
    else "partial"

module _ {ℓ} {A : Type ℓ} (p : A → Bool) where
  any-count_if : (xs : List A) → any p xs ≡ ltb 0 (count_if p xs)
  any-count_if [] = refl
  any-count_if (x ∷ xs) = ground (arith, any-count_if xs)

  count_if-zero : (xs : List A) → (count_if p xs == 0) ≡ all (λ x. not (p x)) xs
  count_if-zero [] = refl
  count_if-zero (x ∷ xs) = ground (arith, count_if-zero xs)

  any-none : (xs : List A) → any p xs ≡ not (all (λ x. not (p x)) xs)
  any-none [] = refl
  any-none (x ∷ xs) = ground (arith, any-none xs)

has_status-excludes :
    (s t : String) (r : ResultRow)
    → str_eq s t ≡ false
    → has_status s r ≡ true
    → has_status t r ≡ false
has_status-excludes s t r n h = ground (arith, eq_iff r.status s, eq_iff r.status t, eq_iff s t)

-- A terminal row has each status exactly when it has neither of the others.
terminal_statuses :
    (r : ResultRow)
    → is_terminal r ≡ true
    → (has_status "skipped" r ≡ (not (has_status "success" r) && not (has_status "failed" r)))
      × (has_status "success" r ≡ (not (has_status "failed" r) && not (has_status "skipped" r)))
      × (has_status "failed" r ≡ (not (has_status "success" r) && not (has_status "skipped" r)))
terminal_statuses r t = ground (
  arith,
  has_status-excludes "success" "failed" r refl,
  has_status-excludes "success" "skipped" r refl,
  has_status-excludes "failed" "skipped" r refl,
)

abbrev none_have : String → List ResultRow → Bool
none_have s rows = all (λ r. not (has_status s r)) rows

-- The same of a list of terminal rows.
all_terminal_statuses :
    (rows : List ResultRow)
    → all is_terminal rows ≡ true
    → (all (has_status "skipped") rows ≡ (none_have "success" rows && none_have "failed" rows))
      × (all (has_status "success") rows ≡ (none_have "failed" rows && none_have "skipped" rows))
      × (all (has_status "failed") rows ≡ (none_have "success" rows && none_have "skipped" rows))
all_terminal_statuses [] t = (refl, refl, refl)
all_terminal_statuses (r ∷ rest) t = ground (arith, terminal_statuses r, all_terminal_statuses rest)

final_status_lem :
    (rows : List ResultRow)
    → all is_terminal rows ≡ true
    → final_status (tally_results rows) ≡ verdict rows
unfolding final_status tally_results verdict
final_status_lem rows t = ground (
  arith,
  all_terminal_statuses rows,
  any-count_if (has_status "skipped") rows,
  any-none (has_status "skipped") rows,
  count_if-zero (has_status "success") rows,
  count_if-zero (has_status "failed") rows,
)

-- When every row of a job has ended, `finish` gives the job the status that its rows call for, whatever
-- their number: `stopped` when all were skipped, `completed` when all posted, `failed` when all
-- failed, else `partial`; of no rows it makes `completed`. It leaves no stop flag and no pause event
-- of the job, and no other job changes.
pub finish-verdict :
    (store : Store) (job_id : String) (job : JobRecord)
    → Dict.get store.jobs job_id ≡ some job
    → all is_terminal job.results ≡ true
    → (s : Store) × (finish store job_id ≡ some s)
      × ((k : String)
          → Dict.get s.jobs k ≡ (
              if str_eq job_id k
              then some (record job { status = verdict job.results })
              else Dict.get store.jobs k))
      × (is_stop_requested s job_id ≡ false)
      × (Dict.get s.pause_events job_id ≡ none)
unfolding finish set_job_status clear_control is_stop_requested
finish-verdict store job_id job g t =
    let concluded = record job { status = verdict job.results } in
    (
      record store {
        jobs = Dict.put store.jobs job_id concluded;
        stop_flags = Dict.pop store.stop_flags job_id;
        pause_events = Dict.pop store.pause_events job_id;
      },
      ground (arith, final_status_lem job.results),
      λ k. get-put store.jobs job_id k concluded,
      ground (arith, get-pop store.stop_flags job_id job_id, eq_refl job_id),
      ground (arith, get-pop store.pause_events job_id job_id, eq_refl job_id),
    )
