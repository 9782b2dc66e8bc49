-- ===== src/Jobs/Executor/Retry.antt =====
-- What a retry of a job leads to when its run starts again.
use insta.Prelude.{
  String, eq_refl, Bool, true, false, none, some, List, [], ◌∷◌, ◌++◌, map, any, All, ◌≡◌, ◌≢◌,
  refl, sym, ap, subst, ◌∙◌, arith, if◌then◌else◌,
}
use insta.Prelude.Dict
use insta.Prelude.Dict.{get-put}
use insta.Jobs.Record.{Text, ResultRow, JobRecord}
use insta.Jobs.Store.{Store, set_job_status}
use insta.Prelude.Text.{same_text}
use insta.Jobs.UseCases.{
  ok, Jobs, is_reset, reset_row, reset_job, is_retryable, retry_job, has_runnable_media_paths,
}
use insta.Jobs.Executor.{
  Upload, submitted, uploads_of, start, submit, removed_files, cleanup_temp_files, unlink,
  unlink_all, files_after_run, preview, thumbnail,
}

reset_row-account : (r : ResultRow) → (reset_row r).account_id ≡ r.account_id
reset_row-account r = go (is_reset r.status)
  where
    go :
        (b : Bool)
        → (if b then record r { status = "pending"; error = none } else r).account_id ≡ r.account_id
    go true = refl
    go false = refl

reset_row-username : (r : ResultRow) → (reset_row r).username ≡ r.username
reset_row-username r = go (is_reset r.status)
  where
    go :
        (b : Bool)
        → (if b then record r { status = "pending"; error = none } else r).username ≡ r.username
    go true = refl
    go false = refl

uploads_of-reset : (rows : List ResultRow) → uploads_of (map reset_row rows) ≡ uploads_of rows
unfolding uploads_of
uploads_of-reset [] = refl
uploads_of-reset (r ∷ rest) = cc (reset_row-account r, reset_row-username r, uploads_of-reset rest)

submit-reset :
    (s : Store) (job_id : String) (rows : List ResultRow)
    → rows ≢ []
    → submit s job_id (map reset_row rows) ≡ submitted s (uploads_of rows)
submit-reset s job_id [] h = absurd (h refl)
submit-reset s job_id (r ∷ rest) h = ap (submitted s) (uploads_of-reset (r ∷ rest))

uploads_of-accounts :
    (rows : List ResultRow)
    → map (λ u. u.account_id) (uploads_of rows) ≡ map (λ r. r.account_id) rows
unfolding uploads_of
uploads_of-accounts [] = refl
uploads_of-accounts (r ∷ rest) = ap (λ l. r.account_id ∷ l) (uploads_of-accounts rest)

-- After a retry the run submits uploads for the accounts of all of the job's rows, in their order,
-- those that already posted included, provided that the job has a media path and a row.
pub retry_posts_again :
    (parses : Text → Bool) (store : Store) (job_id : String) (job : JobRecord)
    → Dict.get store.jobs job_id ≡ some (reset_job job)
    → has_runnable_media_paths job.media_paths ≡ true
    → job.results ≢ []
    → (s : Store) × (uploads : List Upload) × (start parses store job_id ≡ submitted s uploads)
      × (map (λ u. u.account_id) uploads ≡ map (λ r. r.account_id) job.results)
unfolding start set_job_status
retry_posts_again parses store job_id job g m r =
    let running = record (reset_job job) { status = "running" } in
    let s = record store { jobs = Dict.put store.jobs job_id running } in
    (
      s,
      uploads_of job.results,
      ground (arith, submit-reset s job_id job.results),
      uploads_of-accounts job.results,
    )

abbrev pub Occurs : Text → List Text → Type 0
Occurs p xs = (before : List Text) × (after : List Text) × (xs ≡ before ++ (p ∷ after))

Occurs-behind : (p : Text) (ys xs : List Text) → Occurs p xs → Occurs p (ys ++ xs)
Occurs-behind p [] xs h = h
Occurs-behind p (y ∷ ys) xs h =
    let (before, after, e) = Occurs-behind p ys xs h in (y ∷ before, after, ap (λ l. y ∷ l) e)

append_assoc : (xs ys zs : List Text) → (xs ++ ys) ++ zs ≡ xs ++ (ys ++ zs)
append_assoc [] ys zs = refl
append_assoc (x ∷ xs) ys zs = ap (λ l. x ∷ l) (append_assoc xs ys zs)

Occurs-before : (p : Text) (xs ys : List Text) → Occurs p xs → Occurs p (xs ++ ys)
Occurs-before p xs ys (before, after, e) =
    (before, after ++ ys, ap (λ l. l ++ ys) e ∙ append_assoc before (p ∷ after) ys)

All-map :
    (f : List Text → List Text) (xs rest : List Text)
    → ((p : Text) → Occurs p rest → Occurs p (f rest))
    → All (λ p. Occurs p rest) xs
    → All (λ p. Occurs p (f rest)) xs
All-map f [] rest g h = tt
All-map f (x ∷ xs) rest g h = (g x h.0, All-map f xs rest g h.1)

paths_removed : (paths : List Text) → All (λ p. Occurs p (removed_files paths)) paths
unfolding removed_files
paths_removed [] = tt
paths_removed (p ∷ rest) = (
  ([], preview p ++ removed_files rest, refl),
  All-map (λ l. p ∷ (preview p ++ l)) rest (removed_files rest)
      (λ q. Occurs-behind q (p ∷ preview p) (removed_files rest)) (paths_removed rest),
)

media_removed : (job : JobRecord) → All (λ p. Occurs p (cleanup_temp_files job)) job.media_paths
unfolding cleanup_temp_files
media_removed job =
    All-map (λ l. l ++ thumbnail job.thumbnail_path) job.media_paths (removed_files job.media_paths)
      (λ q. Occurs-before q (removed_files job.media_paths) (thumbnail job.thumbnail_path))
      (paths_removed job.media_paths)

unlink-gone : (p : Text) (files : List Text) → any (same_text p) (unlink p files) ≡ false
unfolding unlink
unlink-gone p [] = refl
unlink-gone p (f ∷ rest) = go (unlink-gone p rest) (same_text p f) refl
  where
    go :
        any (same_text p) (unlink p rest) ≡ false
        → (b : Bool) → same_text p f ≡ b
        → any (same_text p) (if b then unlink p rest else f ∷ unlink p rest) ≡ false
    go ih true e = ih
    go ih false e = ground (arith, e, ih)

unlink-kept_gone :
    (p q : Text) (files : List Text)
    → any (same_text p) files ≡ false
    → any (same_text p) (unlink q files) ≡ false
unfolding unlink
unlink-kept_gone p q [] h = refl
unlink-kept_gone p q (f ∷ rest) h =
    go (unlink-kept_gone p q rest (ground (arith, h))) (same_text q f)
  where
    go :
        any (same_text p) (unlink q rest) ≡ false
        → (b : Bool) → any (same_text p) (if b then unlink q rest else f ∷ unlink q rest) ≡ false
    go ih true = ih
    go ih false = ground (arith, h, ih)

unlink_all-kept_gone :
    (p : Text) (paths files : List Text)
    → any (same_text p) files ≡ false
    → any (same_text p) (unlink_all paths files) ≡ false
unfolding unlink_all
unlink_all-kept_gone p [] files h = h
unlink_all-kept_gone p (q ∷ rest) files h =
    unlink_all-kept_gone p rest (unlink q files) (unlink-kept_gone p q files h)

unlink_all-gone :
    (p : Text) (before after files : List Text)
    → any (same_text p) (unlink_all (before ++ (p ∷ after)) files) ≡ false
unfolding unlink_all
unlink_all-gone p [] after files =
    unlink_all-kept_gone p after (unlink p files) (unlink-gone p files)
unlink_all-gone p (q ∷ before) after files = unlink_all-gone p before after (unlink q files)

Occurs-gone :
    (p : Text) (paths files : List Text)
    → Occurs p paths
    → any (same_text p) (unlink_all paths files) ≡ false
Occurs-gone p paths files (before, after, e) =
    subst (λ l. any (same_text p) (unlink_all l files) ≡ false) (sym e)
      (unlink_all-gone p before after files)

All-gone :
    (paths removed files : List Text)
    → All (λ p. Occurs p removed) paths
    → All (λ p. any (same_text p) (unlink_all removed files) ≡ false) paths
All-gone [] removed files h = tt
All-gone (p ∷ rest) removed files h =
    (Occurs-gone p removed files h.0, All-gone rest removed files h.1)

-- A job that failed, was stopped or is partial, with a media path and a row, is retried: it keeps its
-- media paths and its run submits its uploads again, but none of these paths is among the files that
-- the end of the run before, which removes the job's files, has left.
pub retry_media_removed :
    (parses : Text → Bool) (store : Store) (job_id : String) (job : JobRecord) (files : List Text)
    → Dict.get store.jobs job_id ≡ some job
    → is_retryable job.status ≡ true
    → has_runnable_media_paths job.media_paths ≡ true
    → job.results ≢ []
    → (after : Jobs) × (job' : JobRecord) × (retry_job store.jobs job_id ≡ ok (after, job'))
      × ((s : Store) × (uploads : List Upload) × (start parses
              (record store { jobs = after })
              job_id
            ≡ submitted s uploads))
      × (job'.media_paths ≡ job.media_paths)
      × All (λ p. any (same_text p) (files_after_run job files) ≡ false) job'.media_paths
unfolding retry_job files_after_run
retry_media_removed parses store job_id job files g h m r =
    let after = Dict.put store.jobs job_id (reset_job job) in
    let (s, uploads, begun, accounts) =
      retry_posts_again parses (record store { jobs = after }) job_id job
        (ground (arith, get-put store.jobs job_id job_id (reset_job job), eq_refl job_id)) m r in
    (
      after,
      reset_job job,
      ground arith,
      (s, uploads, begun),
      refl,
      All-gone job.media_paths (cleanup_temp_files job) files (media_removed job),
    )
