-- ===== src/Tests/JobQueues.antt =====
-- Runs of the job queue and of the runtime metadata.
use insta.Prelude.{◌+◌, String, ◌≡◌, refl, true, false, some, none, List, [], ◌∷◌}
use insta.Prelude.Dict
use insta.Prelude.Text.{codes}
use insta.Copilot.Values.{Value, end}
use insta.Jobs.Record.{JobRecord}
use insta.Jobs.Store.{Store}
use insta.Jobs.Store.Runtime.{mark_started, get_runtime_metadata}
use insta.Jobs.Store.Runtime.Heartbeats.{mark_heartbeats, heartbeats_roundtrip}
use insta.Jobs.UseCases.{or_else}
use insta.Jobs.Queue.{Queue, Item, enqueue_at, enqueue_due_job, take_item}
use insta.Jobs.Queue.Handle.{RunBegins, handle, executed, handle-RunBegins}
use insta.Jobs.Queue.Places.{
  World, Event, enqueued, fired, taken, steps, places, steps-places, running-dropped,
}

abbrev post : JobRecord
post = record {
  id = "j1";
  caption = codes "hi";
  status = "scheduled";
  targets = "a1" ∷ [];
  results = [];
  created_at = "t0";
  media_urls = [];
  media_type = "photo";
  media_paths = codes "a.jpg" ∷ [];
  scheduled_at = some (codes "2026-01-01");
  thumbnail_path = none;
  igtv_title = none;
  usertags = [];
  location = none;
  extra_data = end;
}

abbrev store : Store
store = record { jobs = ("j1", post) ∷ []; stop_flags = []; pause_events = []; events = [] }

abbrev show : Value → String
show v = "?"

abbrev idle : Queue
idle = record {
  queue = [];
  timers = [];
  next_timer = 0;
  workers = 1;
  started = true;
  stopping = false;
}

abbrev world : World
world = record { queue = idle; store = store; handled = []; dropped = [] }

abbrev day : List Event
day = enqueued "j1" 5 (some 90) ∷ enqueued "j2" 6 none ∷ taken ∷ fired 95 0 ∷ taken ∷ []

handle-RunBegins_example :
    RunBegins (λ t. true) "j1" (Dict.get store.jobs "j1") (handle show true store "j1" "w1" "t1")
    × (handle show false store "j1" "w1" "t1" ≡ executed store)
handle-RunBegins_example = handle-RunBegins (λ t. true) show store "j1" "w1" "t1"

steps-places_example : places "j1" (steps world day) ≡ 1 + 0
steps-places_example = steps-places "j1" world day

running-dropped_run : (steps world day).dropped ≡ []
running-dropped_run = running-dropped world day refl refl

day_handled : (steps world day).handled ≡ "j1" ∷ "j2" ∷ []
unfolding steps take_item enqueue_due_job enqueue_at
day_handled = refl

heartbeats_roundtrip_example :
    get_runtime_metadata show
      (mark_heartbeats show "j1"
        (("w1", "t2") ∷ ("w2", "t3") ∷ [])
        (or_else (mark_started store "j1" "w1" "t1") store))
      "j1"
    ≡ some (record { worker_id = some "w1"; started_at = some "t1"; last_heartbeat_at = some "t2" })
unfolding Dict.get
heartbeats_roundtrip_example =
    heartbeats_roundtrip show store "j1" "w1" "t1" (("w1", "t2") ∷ ("w2", "t3") ∷ []) post refl refl

-- While the queue stops, a job for a later time is put in the queue, and the next worker gets it.
stopping_ignores_schedule :
    (take_item (enqueue_at "j1" 5 (some 90) (record idle { stopping = true }) store).0).0
    ≡ some (Item.job "j1")
unfolding take_item enqueue_at
stopping_ignores_schedule = refl
