-- ===== src/Jobs/Store/Laws.antt =====
-- The rows of a job under updates, and events that no job names.
use insta.Prelude.{
  ℕ, zero, suc, ◌<◌, String, str_eq, eq_iff, Bool, true, false, Option, none, some, List, [], ◌∷◌,
  ◌++◌, length, any, ◌==◌, ◌≡◌, ◌≢◌, refl, arith, if◌then◌else◌,
}
use insta.Prelude.Dict
use insta.Prelude.Dict.{Dict, get-put, get-pop}
use insta.Jobs.Record.{ResultRow}
use insta.Jobs.Store.{
  Store, update_rows, row_status, assign, is_set, flag_stop, read_event, request_pause, release,
  clear_control,
}

-- A status put in place of one that is there.
abbrev pub replaced : String → Option String → Option String
replaced status none = none
replaced status (some old) = some status

pub row_status-update_rows :
    (rows : List ResultRow) (a b status : String) (message code : Option String)
    → row_status (update_rows rows a status message code) b
      ≡ (if str_eq a b then replaced status (row_status rows b) else row_status rows b)
unfolding row_status update_rows
row_status-update_rows [] a b status message code = ground arith
row_status-update_rows (r ∷ rest) a b status message code = ground (
  arith,
  eq_iff a b,
  eq_iff r.account_id a,
  eq_iff r.account_id b,
  row_status-update_rows rest a b status message code,
)

pub is_set-assign :
    (events : List Bool) (n e : ℕ) (b : Bool)
    → n ≢ e
    → is_set (assign events n b) e ≡ is_set events e
unfolding is_set assign
is_set-assign [] n e b h = refl
is_set-assign (x ∷ rest) zero zero b h = ground arith
is_set-assign (x ∷ rest) zero (suc e) b h = refl
is_set-assign (x ∷ rest) (suc n) zero b h = refl
is_set-assign (x ∷ rest) (suc n) (suc e) b h = is_set-assign rest n e b (ground arith)

pub is_set-assigned :
    (events : List Bool) (n : ℕ) → n < length events → is_set (assign events n true) n ≡ true
unfolding is_set assign
is_set-assigned [] n h = ground arith
is_set-assigned (x ∷ rest) zero h = refl
is_set-assigned (x ∷ rest) (suc n) h = is_set-assigned rest n (omega arith)

pub length-assign :
    (events : List Bool) (n : ℕ) (b : Bool) → length (assign events n b) ≡ length events
unfolding assign
length-assign [] n b = refl
length-assign (x ∷ rest) zero b = refl
length-assign (x ∷ rest) (suc n) b = omega (arith, length-assign rest n b)

pub is_set-append :
    (events : List Bool) (e : ℕ) (b : Bool)
    → e < length events
    → is_set (events ++ (b ∷ [])) e ≡ is_set events e
unfolding is_set
is_set-append [] e b h = ground arith
is_set-append (x ∷ rest) zero b h = refl
is_set-append (x ∷ rest) (suc e) b h = is_set-append rest e b (omega arith)

-- The steps of the operators of jobs on the control state: `stop` and `resume` are what a stop and a
-- resume do under the lock, and `set` is what either does after it with the event that it read.
pub data Command : Type 0 where
  stop pause resume clear : String → Command
  set : ℕ → Command

unfoldable pub obey : Command → Store → Store
unfolding flag_stop
obey (stop job_id) s = (flag_stop s job_id).0
obey (pause job_id) s = request_pause s job_id
obey (resume job_id) s = s
obey (clear job_id) s = clear_control s job_id
obey (set e) s = release (some e) s

-- The store, and the events that stops and resumes have read under the lock, which they may still set.
pub record Control : Type 0 where
  pub store : Store
  pub reads : List ℕ

abbrev pub is_read : List ℕ → ℕ → Bool
is_read reads e = any (λ n. n == e) reads

abbrev pub also_read : Option ℕ → List ℕ → List ℕ
also_read none reads = reads
also_read (some e) reads = e ∷ reads

-- An event is set only if a stop or a resume has read it.
unfoldable pub operate : Command → Control → Control
unfolding flag_stop read_event
operate (stop job_id) c = record {
  store = obey (stop job_id) c.store;
  reads = also_read (flag_stop c.store job_id).1 c.reads;
}
operate (resume job_id) c = record c { reads = also_read (read_event c.store job_id) c.reads }
operate (set e) c = if is_read c.reads e then record c { store = obey (set e) c.store } else c
operate command c = record c { store = obey command c.store }

unfoldable pub operate_all : List Command → Control → Control
operate_all [] c = c
operate_all (command ∷ rest) c = operate_all rest (operate command c)

-- A place of an event that is not set, that no job names, and that no stop or resume has read.
abbrev pub IsOrphan : ℕ → Control → Type 0
IsOrphan e c =
    (e < length c.store.events)
    × (is_set c.store.events e ≡ false)
    × ((k : String) → Dict.get c.store.pause_events k ≢ some e)
    × (is_read c.reads e ≡ false)
