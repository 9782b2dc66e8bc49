-- ===== src/Jobs/Executor/Together.antt =====
-- All workers of a job, in any order of their steps, with stops, pauses and resumes in between. A
-- worker is known by its account: the accounts of a job are distinct.
use insta.Prelude.{
  ℕ, String, str_eq, eq_iff, true, Option, none, some, List, [], ◌∷◌, ◌≡◌, refl, sym, subst,
  Bool-cases, inl, inr, arith,
}
use insta.Prelude.Dict
use insta.Prelude.Dict.{Dict, get-put}
use insta.Jobs.Store.{Store, flag_stop, request_pause, clear_control, release, hold}
use insta.Jobs.Store.Laws.{Command, stop, pause, resume, clear, set, obey}
use insta.Jobs.Executor.Worker.{Outside, Phase, preflight, ended, World, worker_step}
use insta.Jobs.Executor.Promise.{
  status_of, account_status, is_terminal_status, is_present, good, Kept, step-good,
}

pub data Tick : Type 0 where
  work : String → ℕ → Tick
  command : Command → Tick

abbrev pub Workers : Type 0
Workers = Dict Phase

abbrev moved : Option (World × Phase) → String → World → Workers → World × Workers
moved none account_id w workers = (w, workers)
moved (some (w', phase)) account_id w workers = (w', Dict.put workers account_id phase)

abbrev worked : Option Phase → Outside → String → String → ℕ → World → Workers → World × Workers
worked none o job_id account_id now w workers = (w, workers)
worked (some phase) o job_id account_id now w workers =
    moved (worker_step o job_id account_id now w phase) account_id w workers

unfoldable pub advance : Outside → String → Tick → World → Workers → World × Workers
advance o job_id (work account_id now) w workers =
    worked (Dict.get workers account_id) o job_id account_id now w workers
advance o job_id (command c) w workers = (record w { store = obey c w.store }, workers)

unfoldable pub advance_all : Outside → String → List Tick → World → Workers → World × Workers
unfolding advance
advance_all o job_id [] w workers = (w, workers)
advance_all o job_id (t ∷ rest) w workers =
    let (w', workers') = advance o job_id t w workers in advance_all o job_id rest w' workers'

release-jobs : (o : Option ℕ) (s : Store) → (release o s).jobs ≡ s.jobs
release-jobs none s = refl
release-jobs (some e) s = refl

hold-jobs : (o : Option ℕ) (s : Store) (job_id : String) → (hold o s job_id).jobs ≡ s.jobs
hold-jobs none s job_id = refl
hold-jobs (some e) s job_id = refl

-- The operators' commands leave the jobs.
obey-jobs : (c : Command) (s : Store) → (obey c s).jobs ≡ s.jobs
unfolding obey flag_stop request_pause clear_control
obey-jobs (stop job_id) s = refl
obey-jobs (pause job_id) s = hold-jobs (Dict.get s.pause_events job_id) s job_id
obey-jobs (resume job_id) s = refl
obey-jobs (clear job_id) s = refl
obey-jobs (set e) s = release-jobs (some e) s

module _ (o : Outside) (job_id : String) where
  -- Every worker keeps its promise.
  abbrev AllGood : World → Workers → Type 0
  AllGood w workers =
      (a : String) (phase : Phase)
      → Dict.get workers a ≡ some phase
      → good (account_status w.store job_id a) phase ≡ true

  put-AllGood :
      (w w' : World) (workers : Workers) (a : String) (p : Phase)
      → AllGood w workers
      → Kept job_id a w w' p
      → AllGood w' (Dict.put workers a p)
  put-AllGood w w' workers a p h k b q g = elim (Bool-cases (str_eq a b)) [
    | inl t ↦
        let same : a ≡ b = ground (arith, t, eq_iff a b) in
        let now_at : p ≡ q = ground (arith, t, g, get-put workers a b p) in
        subst (λ c. good (account_status w'.store job_id c) q ≡ true) same
          (subst (λ r. good (account_status w'.store job_id a) r ≡ true) now_at k.0)
    | inr f ↦
        subst (λ st. good st q ≡ true) (sym (k.1 b f))
          (h b q (ground (arith, f, g, get-put workers a b p)))
  ]

  worked-AllGood :
      (w : World) (workers : Workers) (a : String) (now : ℕ)
      → AllGood w workers
      → let (w', workers') = worked (Dict.get workers a) o job_id a now w workers in
        AllGood w' workers'
  worked-AllGood w workers a now h = go (Dict.get workers a) refl
    where
      go :
          (ph : Option Phase)
          → Dict.get workers a ≡ ph
          → AllGood (worked ph o job_id a now w workers).0 (worked ph o job_id a now w workers).1
      go none g = h
      go (some phase) g = step (worker_step o job_id a now w phase) refl
        where
          step :
              (r : Option (World × Phase))
              → worker_step o job_id a now w phase ≡ r
              → AllGood (moved r a w workers).0 (moved r a w workers).1
          step none e = h
          step (some (w', p)) e =
              put-AllGood w w' workers a p h (step-good o job_id a now w w' phase p (h a phase g) e)

  command-AllGood :
      (c : Command) (w : World) (workers : Workers)
      → AllGood w workers
      → AllGood (record w { store = obey c w.store }) workers
  command-AllGood c w workers h a p g =
      subst (λ jobs. good (status_of (Dict.get jobs job_id) a) p ≡ true) (sym (obey-jobs c w.store))
        (h a p g)

  advance_all-AllGood :
      (ts : List Tick) (w : World) (workers : Workers)
      → AllGood w workers
      → AllGood (advance_all o job_id ts w workers).0 (advance_all o job_id ts w workers).1
  unfolding advance_all advance
  advance_all-AllGood [] w workers h = h
  advance_all-AllGood (work a now ∷ rest) w workers h =
      let r = worked (Dict.get workers a) o job_id a now w workers in
      advance_all-AllGood rest r.0 r.1 (worked-AllGood w workers a now h)
  advance_all-AllGood (command c ∷ rest) w workers h =
      advance_all-AllGood rest (record w { store = obey c w.store }) workers
        (command-AllGood c w workers h)

  -- From workers that stand at their start and whose accounts have rows, after any steps of the
  -- workers in any order, with any stops, pauses, resumes and clears between them: the row of every
  -- worker that has ended is `success`, `failed` or `skipped`.
  pub ended-is_terminal :
      (ts : List Tick) (w : World) (workers : Workers)
      → ((a : String) (phase : Phase)
          → Dict.get workers a ≡ some phase
          → (phase ≡ preflight) × (is_present (account_status w.store job_id a) ≡ true))
      → (a : String) → Dict.get (advance_all o job_id ts w workers).1 a ≡ some ended
      → is_terminal_status (account_status (advance_all o job_id ts w workers).0.store job_id a)
        ≡ true
  ended-is_terminal ts w workers h a e =
      advance_all-AllGood ts w workers
        (λ b p g.
          subst (λ q. good (account_status w.store job_id b) q ≡ true) (sym (h b p g).0)
            (h b p g).1)
        a ended e
