-- ===== src/Jobs/Store/Runtime/Heartbeats.antt =====
-- A job's runtime metadata is read back as it was noted.
use insta.Prelude.{
  String, str_eq, eq_iff, eq_refl, false, some, List, [], ◌∷◌, ◌≡◌, sym, ap, subst, ◌∙◌, Bool-cases,
  inl, inr, arith, if◌then◌else◌,
}
use insta.Prelude.Dict
use insta.Prelude.Dict.{get-put}
use insta.Copilot.Values.{Value, Fields, text, object, end, member}
use insta.Copilot.Guards.{get_field}
use insta.Jobs.Record.{JobRecord}
use insta.Jobs.Store.{Store, change_job}
use insta.Jobs.UseCases.{or_else}
use insta.Jobs.Store.Runtime.{
  put_field, fields_of, runtime_meta, with_runtime, started_meta, mark_started, heartbeat_meta,
  mark_heartbeat, metadata_of, get_runtime_metadata,
}

get_field-put_field :
    (fs : Fields) (k j : String) (v : Value)
    → get_field (put_field fs k v) j ≡ (if str_eq k j then some v else get_field fs j)
unfolding get_field put_field
get_field-put_field end k j v = ground arith
get_field-put_field (member i w fs) k j v =
    ground (arith, eq_iff k j, eq_iff i k, eq_iff i j, get_field-put_field fs k j v)

-- The metadata that a worker's run keeps: the worker, when it started, its last heartbeat.
abbrev Notes : String → String → String → Fields → Type 0
Notes worker_id started_at last fs =
    (get_field fs "worker_id" ≡ some (text worker_id))
    × (get_field fs "started_at" ≡ some (text started_at))
    × (get_field fs "last_heartbeat_at" ≡ some (text last))

started_meta-Notes : (w t : String) (fs : Fields) → Notes w t t (started_meta w t fs)
unfolding started_meta
started_meta-Notes w t fs =
    let a = put_field fs "worker_id" (text w) in
    let b = put_field a "started_at" (text t) in
    (
      get_field-put_field b "last_heartbeat_at" "worker_id" (text t)
          ∙ get_field-put_field a "started_at" "worker_id" (text t)
          ∙ get_field-put_field fs "worker_id" "worker_id" (text w),
      get_field-put_field b "last_heartbeat_at" "started_at" (text t)
          ∙ get_field-put_field a "started_at" "started_at" (text t),
      get_field-put_field b "last_heartbeat_at" "last_heartbeat_at" (text t),
    )

-- A heartbeat, or those in a list: the worker and the time.
abbrev pub last_of : String → String → String × String → String
last_of worker_id last (by, time) = if str_eq by worker_id then time else last

abbrev pub last_of_all : String → String → List (String × String) → String
last_of_all worker_id last [] = last
last_of_all worker_id last (beat ∷ rest) = last_of_all worker_id (last_of worker_id last beat) rest

heartbeat_meta-other :
    (show : Value → String) (w by time : String) (fs : Fields)
    → get_field fs "worker_id" ≡ some (text w)
    → str_eq w "" ≡ false
    → str_eq w by ≡ false
    → heartbeat_meta show by time fs ≡ fs
unfolding heartbeat_meta
heartbeat_meta-other show w by time fs g n d = ground (arith, g)

heartbeat_meta-own :
    (show : Value → String) (w started time : String) (fs : Fields)
    → get_field fs "worker_id" ≡ some (text w)
    → get_field fs "started_at" ≡ some (text started)
    → heartbeat_meta show w time fs
      ≡ put_field (put_field fs "worker_id" (text w)) "last_heartbeat_at" (text time)
unfolding heartbeat_meta
heartbeat_meta-own show w started time fs g s =
    ground (arith, g, s, eq_refl w, get_field-put_field fs "worker_id" "started_at" (text w))

module _ (show : Value → String) (w t : String) (named : str_eq w "" ≡ false) where
  beat-Notes :
      (by time last : String) (fs : Fields)
      → Notes w t last fs
      → Notes w t (last_of w last (by, time)) (heartbeat_meta show by time fs)
  beat-Notes by time last fs (a, b, c) = elim (Bool-cases (str_eq by w)) [
    | inl e ↦
        let claimed = put_field fs "worker_id" (text w) in
        let same : by ≡ w = (eq_iff by w).0 e in
        subst (λ x. Notes w t (last_of w last (x, time)) (heartbeat_meta show x time fs)) (sym same)
          (subst (λ x. Notes w t (last_of w last (w, time)) x)
            (sym (heartbeat_meta-own show w t time fs a b))
            (
              get_field-put_field claimed "last_heartbeat_at" "worker_id" (text time)
                  ∙ get_field-put_field fs "worker_id" "worker_id" (text w),
              get_field-put_field claimed "last_heartbeat_at" "started_at" (text time)
                  ∙ get_field-put_field fs "worker_id" "started_at" (text w)
                  ∙ b,
              get_field-put_field claimed "last_heartbeat_at" "last_heartbeat_at" (text time)
                  ∙ ap (λ x. some (text x)) (ground (arith, eq_refl w)),
            ))
    | inr e ↦
        let other : str_eq w by ≡ false = ground (arith, e, eq_iff by w, eq_iff w by) in
        subst (Notes w t (last_of w last (by, time)))
          (sym (heartbeat_meta-other show w by time fs a named other))
          (a, b, c ∙ ap (λ x. some (text x)) (ground (arith, e)))
  ]

runtime_meta-with_runtime :
    (f : Fields → Fields) (job : JobRecord)
    → runtime_meta (with_runtime f job).extra_data ≡ f (runtime_meta job.extra_data)
unfolding runtime_meta
runtime_meta-with_runtime f job = ap fields_of (
    get_field-put_field job.extra_data "job_runtime" "job_runtime"
      (object (f (runtime_meta job.extra_data))))

-- The job is there, with these notes.
abbrev HasNotes : Store → String → String → String → String → Type 0
HasNotes store job_id w t last =
    (job : JobRecord) × (Dict.get store.jobs job_id ≡ some job)
    × Notes w t last (runtime_meta job.extra_data)

-- The store after a note, unchanged where the note raises.
abbrev noted : (Fields → Fields) → Store → String → Store
noted f store job_id =
    or_else (change_job (with_runtime f) (Dict.get store.jobs job_id) store job_id) store

noted-HasNotes :
    (f : Fields → Fields) (store : Store) (job_id w t last : String) (job : JobRecord)
    → Dict.get store.jobs job_id ≡ some job
    → Notes w t last (f (runtime_meta job.extra_data))
    → HasNotes (noted f store job_id) job_id w t last
noted-HasNotes f store job_id w t last job g h = rw g (
  with_runtime f job,
  ground (arith, get-put store.jobs job_id job_id (with_runtime f job), eq_refl job_id),
  subst (Notes w t last) (sym (runtime_meta-with_runtime f job)) h,
)

-- Heartbeats of workers, in their order.
unfoldable pub mark_heartbeats : (Value → String) → String → List (String × String) → Store → Store
mark_heartbeats show job_id [] store = store
mark_heartbeats show job_id ((by, time) ∷ rest) store =
    mark_heartbeats show job_id rest (or_else (mark_heartbeat show store job_id by time) store)

mark_heartbeats-HasNotes :
    (show : Value → String) (store : Store) (job_id w t last : String)
    (beats : List (String × String))
    → str_eq w "" ≡ false
    → HasNotes store job_id w t last
    → HasNotes (mark_heartbeats show job_id beats store) job_id w t (last_of_all w last beats)
unfolding mark_heartbeats mark_heartbeat
mark_heartbeats-HasNotes show store job_id w t last [] n h = h
mark_heartbeats-HasNotes show store job_id w t last ((by, time) ∷ rest) n (job, g, h) =
    mark_heartbeats-HasNotes show (noted (heartbeat_meta show by time) store job_id) job_id w t
      (last_of w last (by, time)) rest n
      (noted-HasNotes (heartbeat_meta show by time) store job_id w t (last_of w last (by, time)) job
        g (beat-Notes show w t n by time last (runtime_meta job.extra_data) h))

-- After a worker with a name has started a job that is there, and any heartbeats of any workers, the
-- metadata reads back that worker, its start, and its own last heartbeat, or the start if it had none:
-- the heartbeats of other workers leave no trace.
pub heartbeats_roundtrip :
    (show : Value → String) (store : Store) (job_id w t : String) (beats : List (String × String))
    (job : JobRecord)
    → Dict.get store.jobs job_id ≡ some job
    → str_eq w "" ≡ false
    → get_runtime_metadata show
        (mark_heartbeats show job_id beats (or_else (mark_started store job_id w t) store))
        job_id
      ≡ some (record {
        worker_id = some w;
        started_at = some t;
        last_heartbeat_at = some (last_of_all w t beats);
      })
unfolding mark_started get_runtime_metadata metadata_of
heartbeats_roundtrip show store job_id w t beats job g n =
    let (after, g', (a, b, c)) =
      mark_heartbeats-HasNotes show (noted (started_meta w t) store job_id) job_id w t t beats n (
        noted-HasNotes (started_meta w t) store job_id w t t job g
          (started_meta-Notes w t (runtime_meta job.extra_data))) in
    ground (arith, g', a, b, c)
