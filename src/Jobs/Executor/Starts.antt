-- ===== src/Jobs/Executor/Starts.antt =====
-- What `run` comes to before it waits: whether it takes a job up, and whether it submits the uploads.
use insta.Prelude.{
  String, str_eq, eq_iff, eq_refl, Bool, true, false, not, ◌&&◌, ◌||◌, Option, none, some, List, [],
  ◌∷◌, ◌≡◌, ◌≢◌, refl, sym, ap, subst, Bool-cases, Option-cases, inl, inr, arith,
}
use insta.Prelude.Dict
use insta.Prelude.Dict.{get-put}
use insta.Jobs.Record.{Text, ResultRow, JobRecord}
use insta.Jobs.Store.{Store, set_job_status, clear_control, change_job, update_result, update_rows}
use insta.Jobs.UseCases.{
  has_runnable_media_paths, is_valid_scheduled_at, media_required_error_code,
  media_required_error_message, invalid_schedule_error_code, invalid_schedule_error_message,
}
use insta.Jobs.Executor.{
  mark_rows, Started, missing, skipped, settled, submitted, start, launch, submit,
  settled_or_missing, set_job_non_runnable,
}

-- A job is there.
abbrev IsThere : Store → String → Type 0
IsThere store job_id = Dict.get store.jobs job_id ≢ none

change_job-IsThere :
    (f : JobRecord → JobRecord) (store : Store) (job_id : String)
    → IsThere store job_id
    → (s : Store) × (change_job f (Dict.get store.jobs job_id) store job_id ≡ some s)
      × IsThere s job_id
change_job-IsThere f store job_id h = elim (Option-cases (Dict.get store.jobs job_id)) [
  | inl e ↦ absurd (h e)
  | inr (job, e) ↦
      let s = record store { jobs = Dict.put store.jobs job_id (f job) } in
      (
        s,
        ap (λ o. change_job f o store job_id) e,
        ground (arith, get-put store.jobs job_id job_id (f job), eq_refl job_id),
      )
]

mark_rows-IsThere :
    (store : Store) (job_id : String) (rows : List ResultRow) (status message code : String)
    → IsThere store job_id
    → (s : Store) × (mark_rows store job_id rows status message code ≡ some s)
unfolding mark_rows update_result
mark_rows-IsThere store job_id [] status message code h = (store, refl)
mark_rows-IsThere store job_id (r ∷ rest) status message code h =
    let (s, e, there) =
      change_job-IsThere
        (λ job. record job {
          results = update_rows job.results r.account_id status (some message) (some code);
        })
        store job_id h in
    elim (Bool-cases (str_eq r.account_id "" || str_eq r.status "success")) [
      | inl b ↦
          let (s', e') = mark_rows-IsThere store job_id rest status message code h in
          (s', ground (arith, b, e'))
      | inr b ↦
          let (s', e') = mark_rows-IsThere s job_id rest status message code there in
          (s', ground (arith, b, e, e'))
    ]

-- Whether the executor took the job up, to run it or to put it to rest: it did not leave it because it
-- is missing or has another status.
abbrev pub is_taken : Started → Bool
is_taken missing = false
is_taken skipped = false
is_taken (settled s) = true
is_taken (submitted s uploads) = true

non_runnable-taken :
    (store : Store) (job_id : String) (job : JobRecord) (job_status status message code : String)
    → IsThere store job_id
    → is_taken
        (settled_or_missing (set_job_non_runnable store job_id job job_status status message code))
      ≡ true
unfolding set_job_non_runnable set_job_status
non_runnable-taken store job_id job job_status status message code h =
    let (s, e, there) = change_job-IsThere (λ j. record j { status = job_status }) store job_id h in
    let (s', e') = mark_rows-IsThere s job_id job.results status message code there in
    ground (arith, e, e')

submit-taken :
    (store : Store) (job_id : String) (rows : List ResultRow)
    → IsThere store job_id
    → is_taken (submit store job_id rows) ≡ true
unfolding set_job_status
submit-taken store job_id (r ∷ rows) h = refl
submit-taken store job_id [] h =
    let (s, e, there) =
      change_job-IsThere (λ j. record j { status = "completed" }) store job_id h in
    ground (arith, e)

run-taken :
    (store : Store) (job_id : String) (rows : List ResultRow)
    → IsThere store job_id
    → is_taken (elim (set_job_status store job_id "running") [
      | none ↦ missing
      | some s ↦ submit s job_id rows
    ])
      ≡ true
unfolding set_job_status
run-taken store job_id rows h =
    let (s, e, there) = change_job-IsThere (λ j. record j { status = "running" }) store job_id h in
    ground (arith, e, submit-taken s job_id rows there)

launch-taken :
    (parses : Text → Bool) (store : Store) (job_id : String) (job : JobRecord)
    → IsThere store job_id
    → is_taken (launch parses store job_id job) ≡ true
launch-taken parses store job_id job h = ground (
  arith,
  non_runnable-taken store job_id job "needs_media" "pending" media_required_error_message
      media_required_error_code h,
  non_runnable-taken store job_id job "failed" "failed" invalid_schedule_error_message
      invalid_schedule_error_code h,
  run-taken store job_id job.results h,
)

pub start-taken :
    (parses : Text → Bool) (store : Store) (job_id : String) (job : JobRecord)
    → Dict.get store.jobs job_id ≡ some job
    → (str_eq job.status "pending" || str_eq job.status "scheduled") ≡ true
    → is_taken (start parses store job_id) ≡ true
unfolding start
start-taken parses store job_id job g p =
    ground (arith, g, p, launch-taken parses store job_id job (λ e. ground (arith, e, g)))

-- Whether the executor submits the uploads of the job.
abbrev pub is_submitted : Started → Bool
is_submitted (submitted s uploads) = true
is_submitted other = false

abbrev pub has_rows : List ResultRow → Bool
has_rows [] = false
has_rows (r ∷ rows) = true

-- The executor's own conditions: a media path, a valid time if the job is scheduled, and a row.
abbrev pub is_ready : (Text → Bool) → JobRecord → Bool
is_ready parses job =
    has_runnable_media_paths job.media_paths
    && (not (str_eq job.status "scheduled") || is_valid_scheduled_at parses job.scheduled_at)
    && has_rows job.results

settled-submitted : (o : Option Store) → is_submitted (settled_or_missing o) ≡ false
settled-submitted none = refl
settled-submitted (some s) = refl

submit-submitted :
    (store : Store) (job_id : String) (rows : List ResultRow)
    → is_submitted (submit store job_id rows) ≡ has_rows rows
submit-submitted store job_id (r ∷ rows) = refl
submit-submitted store job_id [] = go (set_job_status store job_id "completed")
  where
    go :
        (o : Option Store)
        → is_submitted (elim o [ none ↦ missing | some s ↦ settled (clear_control s job_id) ])
          ≡ false
    go none = refl
    go (some s) = refl

run-submitted :
    (store : Store) (job_id : String) (rows : List ResultRow)
    → IsThere store job_id
    → is_submitted (elim (set_job_status store job_id "running") [
      | none ↦ missing
      | some s ↦ submit s job_id rows
    ])
      ≡ has_rows rows
unfolding set_job_status
run-submitted store job_id rows h =
    let (s, e, there) = change_job-IsThere (λ j. record j { status = "running" }) store job_id h in
    ground (arith, e, submit-submitted s job_id rows)

launch-submitted :
    (parses : Text → Bool) (store : Store) (job_id : String) (job : JobRecord)
    → IsThere store job_id
    → is_submitted (launch parses store job_id job) ≡ is_ready parses job
launch-submitted parses store job_id job h = ground (
  arith,
  settled-submitted (
      set_job_non_runnable store job_id job "needs_media" "pending" media_required_error_message
        media_required_error_code),
  settled-submitted (
      set_job_non_runnable store job_id job "failed" "failed" invalid_schedule_error_message
        invalid_schedule_error_code),
  run-submitted store job_id job.results h,
)

pub stopped_not_pending :
    (job : JobRecord)
    → str_eq job.status "stopped" ≡ true
    → (str_eq job.status "pending" || str_eq job.status "scheduled") ≡ false
stopped_not_pending job h =
    subst (λ s. (str_eq s "pending" || str_eq s "scheduled") ≡ false)
      (sym ((eq_iff job.status "stopped").0 h)) refl

pub start-submitted :
    (parses : Text → Bool) (store : Store) (job_id : String) (job : JobRecord)
    → Dict.get store.jobs job_id ≡ some job
    → (str_eq job.status "pending" || str_eq job.status "scheduled") ≡ true
    → is_submitted (start parses store job_id) ≡ is_ready parses job
unfolding start
start-submitted parses store job_id job g p = ground (
  arith,
  g,
  p,
  stopped_not_pending job,
  launch-submitted parses store job_id job (λ e. ground (arith, e, g)),
)
