-- ===== src/Jobs/Executor/Pauses.antt =====
-- Workers that wait at a pause: what lets them go on, and what no longer can.
use insta.Prelude.{
  ℕ, ◌<◌, String, str_eq, eq_refl, Bool, true, false, Option, none, some, List, [], ◌∷◌, length,
  length-append, ◌≡◌, ◌≢◌, refl, ◌∙◌, ap, sym, subst, Bool-cases, inl, inr, arith, if◌then◌else◌,
}
use insta.Prelude.Dict
use insta.Prelude.Dict.{Dict, get-put, get-pop}
use insta.Jobs.Store.{
  Store, assign, is_set, flag_stop, read_event, request_stop, request_pause, clear_control, release,
  hold, is_stop_requested,
}
use insta.Jobs.Store.Laws.{
  is_set-assign, is_set-assigned, length-assign, is_set-append, Command, stop, pause, resume, clear,
  set, obey, Control, is_read, also_read, operate, operate_all, IsOrphan,
}
use insta.Jobs.Executor.Worker.{
  Outside, waiting, after_pause, writing, write, ended, World, worker_step,
}

some-inj : (a b : ℕ) → some a ≡ some b → a ≡ b
some-inj a b e = cc e

other_event :
    (e : ℕ) (c : Control) (job_id : String) (n : ℕ)
    → IsOrphan e c
    → Dict.get c.store.pause_events job_id ≡ some n
    → n ≢ e
other_event e c job_id n h g i = h.2 job_id (g ∙ ap some i)

assign-IsOrphan :
    (e : ℕ) (c : Control) (n : ℕ) (b : Bool)
    → n ≢ e
    → IsOrphan e c
    → IsOrphan e (record c { store = record c.store { events = assign c.store.events n b } })
assign-IsOrphan e c n b d (inside, unset, unnamed, unread) = (
  omega (arith, inside, length-assign c.store.events n b),
  is_set-assign c.store.events n e b d ∙ unset,
  unnamed,
  unread,
)

also_read-unread :
    (e : ℕ) (c : Control) (job_id : String)
    → IsOrphan e c
    → is_read (also_read (Dict.get c.store.pause_events job_id) c.reads) e ≡ false
also_read-unread e c job_id h = go (Dict.get c.store.pause_events job_id) refl
  where
    go :
        (o : Option ℕ)
        → Dict.get c.store.pause_events job_id ≡ o
        → is_read (also_read o c.reads) e ≡ false
    go none g = h.3
    go (some n) g = ground (arith, h.3, other_event e c job_id n h g)

set-IsOrphan : (e n : ℕ) (c : Control) → IsOrphan e c → IsOrphan e (operate (set n) c)
unfolding operate obey
set-IsOrphan e n c h = go (is_read c.reads n) refl
  where
    go :
        (b : Bool)
        → is_read c.reads n ≡ b
        → IsOrphan e (if b then record c { store = release (some n) c.store } else c)
    go true r =
        assign-IsOrphan e c n true (λ i. cc (sym h.3 ∙ subst (λ x. is_read c.reads x ≡ true) i r)) h
    go false r = h

hold-IsOrphan :
    (e : ℕ) (c : Control) (job_id : String)
    → IsOrphan e c
    → IsOrphan e (record c { store = hold (Dict.get c.store.pause_events job_id) c.store job_id })
hold-IsOrphan e c job_id h = go (Dict.get c.store.pause_events job_id) refl
  where
    go :
        (o : Option ℕ)
        → Dict.get c.store.pause_events job_id ≡ o
        → IsOrphan e (record c { store = hold o c.store job_id })
    go none g =
        let s = c.store in
        (
          omega (arith, h.0, length-append s.events (false ∷ [])),
          is_set-append s.events e false h.0 ∙ h.1,
          λ k i. elim (Bool-cases (str_eq job_id k)) [
            | inl t ↦ ground (arith, h.0, i, t, get-put s.pause_events job_id k (length s.events))
            | inr f ↦
                h.2 k (ground (arith, i, f, get-put s.pause_events job_id k (length s.events)))
          ],
          h.3,
        )
    go (some n) g = assign-IsOrphan e c n false (other_event e c job_id n h g) h

operate-IsOrphan : (e : ℕ) (k : Command) (c : Control) → IsOrphan e c → IsOrphan e (operate k c)
unfolding operate obey flag_stop read_event request_pause clear_control
operate-IsOrphan e (stop job_id) c h = (h.0, h.1, h.2, also_read-unread e c job_id h)
operate-IsOrphan e (pause job_id) c h = hold-IsOrphan e c job_id h
operate-IsOrphan e (resume job_id) c h = (h.0, h.1, h.2, also_read-unread e c job_id h)
operate-IsOrphan e (clear job_id) c h = (
  h.0,
  h.1,
  λ k i. elim (Bool-cases (str_eq job_id k)) [
    | inl t ↦ ground (arith, i, t, get-pop c.store.pause_events job_id k)
    | inr f ↦ h.2 k (ground (arith, i, f, get-pop c.store.pause_events job_id k))
  ],
  h.3,
)
operate-IsOrphan e (set n) c h = set-IsOrphan e n c h

operate_all-IsOrphan :
    (e : ℕ) (cs : List Command) (c : Control) → IsOrphan e c → IsOrphan e (operate_all cs c)
unfolding operate_all
operate_all-IsOrphan e [] c h = h
operate_all-IsOrphan e (k ∷ rest) c h =
    operate_all-IsOrphan e rest (operate k c) (operate-IsOrphan e k c h)

cleared-IsOrphan :
    (s : Store) (reads : List ℕ) (job_id : String) (e : ℕ)
    → e < length s.events
    → is_set s.events e ≡ false
    → ((k : String) → Dict.get s.pause_events k ≡ some e → k ≡ job_id)
    → is_read reads e ≡ false
    → IsOrphan e (record { store = clear_control s job_id; reads = reads })
unfolding clear_control
cleared-IsOrphan s reads job_id e l u only unread = (
  l,
  u,
  λ k i. elim (Bool-cases (str_eq job_id k)) [
    | inl t ↦ ground (arith, i, t, get-pop s.pause_events job_id k)
    | inr f ↦
        let same = only k (ground (arith, i, f, get-pop s.pause_events job_id k)) in
        ground (arith, f, same, eq_refl k)
  ],
  unread,
)

-- A worker that waits when the control state of its job is cleared waits for ever: after any steps of
-- stops, pauses, resumes and clears of any jobs it has no step. Its event is one that is not set, that
-- only this job named, and that at the clear no stop or resume had read without having set it yet.
pub cleared_wait_never_ends :
    (o : Outside) (w : World) (reads : List ℕ) (job_id account_id : String) (now e : ℕ)
    (cs : List Command)
    → e < length w.store.events
    → is_set w.store.events e ≡ false
    → ((k : String) → Dict.get w.store.pause_events k ≡ some e → k ≡ job_id)
    → is_read reads e ≡ false
    → let cleared : Control = record { store = clear_control w.store job_id; reads = reads } in
      worker_step o job_id account_id now
        (record w { store = (operate_all cs cleared).store })
        (waiting e)
      ≡ none
unfolding worker_step
cleared_wait_never_ends o w reads job_id account_id now e cs l u only unread =
    let h =
      operate_all-IsOrphan e cs (record { store = clear_control w.store job_id; reads = reads })
        (cleared-IsOrphan w.store reads job_id e l u only unread) in
    ground (arith, h.1)

stop-sets :
    (s : Store) (job_id : String) (e : ℕ)
    → Dict.get s.pause_events job_id ≡ some e
    → e < length s.events
    → is_set (request_stop s job_id).events e ≡ true
unfolding request_stop flag_stop
stop-sets s job_id e g l = ground (arith, is_set-assigned s.events e)

stop-flags :
    (s : Store) (job_id : String) (e : ℕ)
    → Dict.get s.pause_events job_id ≡ some e
    → is_stop_requested (request_stop s job_id) job_id ≡ true
unfolding request_stop flag_stop is_stop_requested
stop-flags s job_id e g = ground (arith, get-put s.stop_flags job_id job_id true, eq_refl job_id)

-- A stop request, once it has set the event, lets a worker that waits at the job's pause go on, and its next step turns to
-- skipping the account.
pub stop_releases :
    (o : Outside) (w : World) (job_id account_id : String) (now e : ℕ)
    → Dict.get w.store.pause_events job_id ≡ some e
    → e < length w.store.events
    → let stopped = record w { store = request_stop w.store job_id } in
      (worker_step o job_id account_id now stopped (waiting e) ≡ some (stopped, after_pause))
      × (worker_step o job_id account_id now stopped after_pause
          ≡ some (stopped, writing (write "skipped" none none ended)))
unfolding worker_step
stop_releases o w job_id account_id now e g l =
    (ground (arith, stop-sets w.store job_id e), ground (arith, stop-flags w.store job_id e))
