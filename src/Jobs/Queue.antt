-- ===== src/Jobs/Queue.antt =====
-- `PostJobQueue` of backend/app/adapters/scheduler/job_queue.py: the queue, its timers and its workers.
-- Each use of the queue, and each section under the timers' lock, is one step; a timer fires in one
-- step with its lock. `parse` is `datetime.fromisoformat` followed by the step to UTC: the instant of a
-- text in ticks of the clock. Logging is not modelled.
pub mod Handle
pub mod Places
use insta.Prelude.{
  ℕ, zero, suc, ◌+◌, ◌-◌, ltb, leb, ◌==◌, String, str_eq, Bool, true, false, not, ◌&&◌, ◌||◌,
  Option, none, some, List, [], ◌∷◌, ◌++◌, length, if◌then◌else◌,
}
use insta.Prelude.Dict
use insta.Jobs.Record.{Text}
use insta.Jobs.Store.{Store, set_job_status}
use insta.Jobs.UseCases.{is_given, or_else, replace_z}

-- A work item, or the poison pill.
pub data Item : Type 0 where
  job : String → Item
  pill : Item

pub record Timer : Type 0 where
  pub id : ℕ
  pub job_id : String
  pub due : ℕ

pub record Queue : Type 0 where
  pub queue : List Item
  pub timers : List Timer
  pub next_timer : ℕ
  pub workers : ℕ
  pub started : Bool
  pub stopping : Bool

abbrev pub put : Item → Queue → Queue
put item q = record q { queue = q.queue ++ (item ∷ []) }

unfoldable pub start_workers : ℕ → Queue → Queue
start_workers n_workers q =
    if q.started
    then q
    else record q { stopping = false; workers = q.workers + n_workers; started = true }

unfoldable pub pills : ℕ → List Item
pills zero = []
pills (suc n) = pill ∷ pills n

unfoldable pub shutdown : Queue → Queue
unfolding pills
shutdown q = record q {
  stopping = true;
  timers = [];
  queue = q.queue ++ pills q.workers;
  workers = 0;
  started = false;
}

-- The instant that a job waits for, if there is one to wait for.
unfoldable pub parse_due : (Text → Option ℕ) → Option Text → Option ℕ
unfolding replace_z
parse_due parse none = none
parse_due parse (some t) = if is_given (some t) then parse (replace_z t) else none

unfoldable pub schedule_delayed_enqueue : String → ℕ → Queue → Queue
schedule_delayed_enqueue job_id due q = if q.stopping then put (job job_id) q else record q {
  timers = q.timers ++ (record { id = q.next_timer; job_id = job_id; due = due } ∷ []);
  next_timer = q.next_timer + 1;
}

-- `_mark_scheduled`, with its exception caught
abbrev mark_scheduled : Store → String → Store
mark_scheduled store job_id = or_else (set_job_status store job_id "scheduled") store

unfoldable pub enqueue_at : String → ℕ → Option ℕ → Queue → Store → Queue × Store
unfolding schedule_delayed_enqueue
enqueue_at job_id now none q store = (put (job job_id) q, store)
enqueue_at job_id now (some due) q store =
    if ltb now due
    then (schedule_delayed_enqueue job_id due q, mark_scheduled store job_id)
    else (put (job job_id) q, store)

unfoldable pub enqueue :
    (Text → Option ℕ) → ℕ → String → Option Text → Queue → Store → Queue × Store
unfolding parse_due enqueue_at
enqueue parse now job_id scheduled_at q store =
    enqueue_at job_id now (parse_due parse scheduled_at) q store

-- The first timer with this id, and the others.
unfoldable pub find_timer : List Timer → ℕ → Option Timer
find_timer [] id = none
find_timer (t ∷ rest) id = if t.id == id then some t else find_timer rest id

unfoldable pub discard : List Timer → ℕ → List Timer
discard [] id = []
discard (t ∷ rest) id = let others = discard rest id in if t.id == id then rest else t ∷ others

abbrev fire_timer : Option Timer → ℕ → ℕ → Queue → Queue
fire_timer none now id q = q
fire_timer (some t) now id q =
    let without = record q { timers = discard q.timers id } in
    if ltb now t.due then q else if q.stopping then without else put (job t.job_id) without

-- A timer whose delay is over runs `_enqueue_due_job`; a cancelled one is not there.
unfoldable pub enqueue_due_job : ℕ → ℕ → Queue → Queue
unfolding find_timer discard
enqueue_due_job now id q = fire_timer (find_timer q.timers id) now id q

-- A worker gets the first item.
unfoldable pub take_item : Queue → Option Item × Queue
take_item q = elim q.queue [ [] ↦ (none, q) | item ∷ rest ↦ (some item, record q { queue = rest }) ]

unfoldable pub pending_count : Queue → ℕ
pending_count q = length q.queue + length q.timers
