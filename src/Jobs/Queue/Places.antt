-- ===== src/Jobs/Queue/Places.antt =====
-- Where the jobs of the queue are: every job that was enqueued waits on a timer or in the queue, was
-- taken by a worker, or was dropped by a shutdown.
use insta.Prelude.{
  ℕ, zero, suc, ◌+◌, ltb, ◌==◌, String, str_eq, Bool, true, false, Option, none, some, List, [],
  ◌∷◌, ◌++◌, count_if, all, not, ◌≡◌, refl, ◌∙◌, Bool-cases, Option-cases, inl, inr, arith,
  if◌then◌else◌,
}
use insta.Jobs.Store.{Store}
use insta.Jobs.Queue.{
  Item, job, pill, Timer, Queue, pills, start_workers, shutdown, enqueue_at,
  schedule_delayed_enqueue, find_timer, discard, enqueue_due_job, take_item,
}

-- What happens to the queue. A job that is enqueued comes with the instant it waits for.
pub data Event : Type 0 where
  enqueued : String → ℕ → Option ℕ → Event
  fired : ℕ → ℕ → Event
  taken : Event
  started : ℕ → Event
  shut_down : Event

-- The queue, the jobs that workers took, and the jobs that shutdowns dropped.
pub record World : Type 0 where
  pub queue : Queue
  pub store : Store
  pub handled : List String
  pub dropped : List String

abbrev pub timer_jobs : List Timer → List String
timer_jobs [] = []
timer_jobs (t ∷ rest) = t.job_id ∷ timer_jobs rest

abbrev handed : Option Item → List String → List String
handed (some (job job_id)) jobs = job_id ∷ jobs
handed item jobs = jobs

-- A timer that is over while the queue stops drops its job.
abbrev over : Queue → ℕ → Option Timer → List String
over q now none = []
over q now (some t) = if ltb now t.due then [] else if q.stopping then t.job_id ∷ [] else []

unfoldable pub step : World → Event → World
step w (enqueued job_id now due) =
    let (q, s) = enqueue_at job_id now due w.queue w.store in record w { queue = q; store = s }
step w (fired now id) = record w {
  queue = enqueue_due_job now id w.queue;
  dropped = over w.queue now (find_timer w.queue.timers id) ++ w.dropped;
}
step w taken =
    let (item, q) = take_item w.queue in record w { queue = q; handled = handed item w.handled }
step w (started n_workers) = record w { queue = start_workers n_workers w.queue }
step w shut_down = record w {
  queue = shutdown w.queue;
  dropped = timer_jobs w.queue.timers ++ w.dropped;
}

unfoldable pub steps : World → List Event → World
unfolding step
steps w [] = w
steps w (e ∷ rest) = steps (step w e) rest

abbrev is_job : String → Item → Bool
is_job job_id (job j) = str_eq j job_id
is_job job_id pill = false

abbrev pub same : String → String → Bool
same job_id j = str_eq j job_id

-- How often a job stands in the four places.
abbrev pub places : String → World → ℕ
places job_id w =
    count_if (is_job job_id) w.queue.queue
    + count_if (same job_id) (timer_jobs w.queue.timers)
    + count_if (same job_id) w.handled
    + count_if (same job_id) w.dropped

-- How often an event, or events, enqueue a job.
abbrev pub enqueues : String → Event → ℕ
enqueues job_id (enqueued j now due) = if str_eq j job_id then 1 else 0
enqueues job_id e = 0

abbrev pub all_enqueues : String → List Event → ℕ
all_enqueues job_id [] = 0
all_enqueues job_id (e ∷ rest) = enqueues job_id e + all_enqueues job_id rest

count_if-append {ℓ} :
    {A : Type ℓ} (p : A → Bool) (xs ys : List A)
    → count_if p (xs ++ ys) ≡ count_if p xs + count_if p ys
count_if-append p [] ys = omega arith
count_if-append p (x ∷ xs) ys = ground (arith, count_if-append p xs ys)

count_if-pills : (job_id : String) (n : ℕ) → count_if (is_job job_id) (pills n) ≡ 0
unfolding pills
count_if-pills job_id zero = refl
count_if-pills job_id (suc n) = ground (arith, count_if-pills job_id n)

count_if-timers :
    (job_id : String) (ts : List Timer) (t : Timer)
    → count_if (same job_id) (timer_jobs (ts ++ (t ∷ [])))
      ≡ count_if (same job_id) (timer_jobs ts) + (if str_eq t.job_id job_id then 1 else 0)
count_if-timers job_id [] t = ground arith
count_if-timers job_id (x ∷ ts) t = ground (arith, count_if-timers job_id ts t)

-- A timer that is found is one of the others no more once it is discarded.
count_if-discard :
    (job_id : String) (ts : List Timer) (id : ℕ) (t : Timer)
    → find_timer ts id ≡ some t
    → count_if (same job_id) (timer_jobs ts)
      ≡ count_if (same job_id) (timer_jobs (discard ts id))
        + (if str_eq t.job_id job_id then 1 else 0)
unfolding find_timer discard
count_if-discard job_id [] id t h = absurd (cc h)
count_if-discard job_id (x ∷ ts) id t h = elim (Bool-cases (x.id == id)) [
  | inl e ↦ ground (arith, e)
  | inr e ↦ ground (arith, e, count_if-discard job_id ts id t)
]

-- Every step puts each job that it enqueues in one place, and leaves every other where it is or moves
-- it from one place to another.
step-places :
    (job_id : String) (w : World) (e : Event)
    → places job_id (step w e) ≡ enqueues job_id e + places job_id w
unfolding step
step-places job_id w (enqueued j now none) =
    unfold enqueue_at in ground (arith, count_if-append (is_job job_id) w.queue.queue (job j ∷ []))
step-places job_id w (enqueued j now (some due)) =
    unfold enqueue_at in
    unfold schedule_delayed_enqueue in
    ground (
      arith,
      count_if-append (is_job job_id) w.queue.queue (job j ∷ []),
      count_if-timers job_id w.queue.timers
          (record { id = w.queue.next_timer; job_id = j; due = due }),
    )
step-places job_id w (started n) = unfold start_workers in ground arith
step-places job_id w shut_down =
    unfold shutdown in
    ground (
      arith,
      count_if-append (is_job job_id) w.queue.queue (pills w.queue.workers),
      count_if-pills job_id w.queue.workers,
      count_if-append (same job_id) (timer_jobs w.queue.timers) w.dropped,
    )
step-places job_id w taken = unfold take_item in ground arith
step-places job_id w (fired now id) =
    unfold enqueue_due_job in
    elim (Option-cases (find_timer w.queue.timers id)) [
      | inl e ↦ ground (arith, e)
      | inr (t, e) ↦ ground (
        arith,
        e,
        count_if-append (is_job job_id) w.queue.queue (job t.job_id ∷ []),
        count_if-discard job_id w.queue.timers id t,
      )
    ]

-- Whatever happens, in whatever order: every enqueueing of a job is found again exactly once, on a
-- timer, in the queue, with a worker, or dropped.
pub steps-places :
    (job_id : String) (w : World) (events : List Event)
    → places job_id (steps w events) ≡ all_enqueues job_id events + places job_id w
unfolding steps
steps-places job_id w [] = omega arith
steps-places job_id w (e ∷ rest) =
    omega (arith, steps-places job_id (step w e) rest, step-places job_id w e)

abbrev pub is_shut_down : Event → Bool
is_shut_down shut_down = true
is_shut_down e = false

step-dropped :
    (w : World) (e : Event)
    → w.queue.stopping ≡ false
    → is_shut_down e ≡ false
    → ((step w e).dropped ≡ w.dropped) × ((step w e).queue.stopping ≡ false)
unfolding step
step-dropped w (enqueued j now none) s h = unfold enqueue_at in ground arith
step-dropped w (enqueued j now (some due)) s h =
    unfold enqueue_at in unfold schedule_delayed_enqueue in ground arith
step-dropped w (started n) s h = unfold start_workers in ground arith
step-dropped w shut_down s h = absurd (cc h)
step-dropped w taken s h = unfold take_item in ground arith
step-dropped w (fired now id) s h =
    unfold enqueue_due_job in
    elim (Option-cases (find_timer w.queue.timers id)) [
      | inl e ↦ ground (arith, e)
      | inr (t, e) ↦ ground (arith, e)
    ]

-- Without a shutdown nothing is dropped.
pub running-dropped :
    (w : World) (events : List Event)
    → w.queue.stopping ≡ false
    → all (λ e. not (is_shut_down e)) events ≡ true
    → (steps w events).dropped ≡ w.dropped
unfolding steps
running-dropped w [] s h = refl
running-dropped w (e ∷ rest) s h =
    let (same_dropped, runs) = step-dropped w e s (ground arith) in
    running-dropped (step w e) rest runs (ground arith) ∙ same_dropped
