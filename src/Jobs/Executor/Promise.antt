-- ===== src/Jobs/Executor/Promise.antt =====
-- What a worker's phase promises of its account's row, and that every step keeps the promise.
use insta.Prelude.{
  ℕ, String, str_eq, eq_refl, Bool, true, false, ◌&&◌, ◌||◌, Option, none, some, ◌≡◌, refl, sym,
  subst, ap, ◌∙◌, Bool-cases, Option-cases, inl, inr, arith, if◌then◌else◌,
}
use insta.Prelude.Dict
use insta.Prelude.Dict.{Dict, get-put}
use insta.Breaker.Upload.{allow_request}
use insta.Jobs.Record.{JobRecord}
use insta.Jobs.Store.{Store, update_rows, update_result, row_status, is_stop_requested, is_set}
use insta.Jobs.Store.Laws.{row_status-update_rows, replaced}
use insta.Jobs.Executor.Worker.{
  Outcome, posted, timed_out, failed_with, Outside, Phase, preflight, pause_check, waiting,
  after_pause, breaker_check, client_check, uploading, ended, writing, write, recording, World,
  worker_step, after_upload, written, pause_of,
}

abbrev pub status_of : Option JobRecord → String → Option String
status_of none account_id = none
status_of (some job) account_id = row_status job.results account_id

-- The status of an account's row, if there is one.
abbrev pub account_status : Store → String → String → Option String
account_status store job_id account_id = status_of (Dict.get store.jobs job_id) account_id

unfoldable pub is_terminal_status : Option String → Bool
is_terminal_status none = false
is_terminal_status (some s) = str_eq s "success" || str_eq s "failed" || str_eq s "skipped"

abbrev pub is_present : Option String → Bool
is_present none = false
is_present (some s) = true

-- What a row that is being written promises about what comes next.
abbrev leads : String → Phase → Bool
leads s ended = is_terminal_status (some s)
leads s (recording o) = is_terminal_status (some s)
leads s (writing x) = false
leads s _ = true

-- What a worker's phase says of its row.
abbrev pub good : Option String → Phase → Bool
good st ended = is_terminal_status st
good st (recording o) = is_terminal_status st
good st (writing (write s message code next)) = is_present st && leads s next
good st _ = is_present st

account_status-update_result :
    (s s' : Store) (job_id a b status : String) (message code : Option String)
    → update_result s job_id a status message code ≡ some s'
    → account_status s' job_id b ≡ (
        if str_eq a b
        then replaced status (account_status s job_id b)
        else account_status s job_id b)
unfolding update_result
account_status-update_result s s' job_id a b status message code e =
    elim (Option-cases (Dict.get s.jobs job_id)) [
      | inl g ↦ ground arith
      | inr (job, g) ↦
          let rows = update_rows job.results a status message code in
          ground (
            arith,
            get-put s.jobs job_id job_id (record job { results = rows }),
            eq_refl job_id,
            row_status-update_rows job.results a b status message code,
          )
    ]

-- A row that is present stays present under writes, and its status is the one written.
good-leads :
    (st : Option String) (s : String) (next : Phase)
    → leads s next ≡ true
    → is_present st ≡ true
    → good (replaced s st) next ≡ true
good-leads none s next l p = ground arith
good-leads (some old) s next l p = ground arith

good-if :
    (st : Option String) (b : Bool) (p q : Phase)
    → good st p ≡ true
    → good st q ≡ true
    → good st (if b then p else q) ≡ true
good-if st true p q hp hq = hp
good-if st false p q hp hq = hq

good-write :
    (st : Option String) (s : String) (message code : Option String) (next : Phase)
    → is_present st ≡ true
    → leads s next ≡ true
    → good st (writing (write s message code next)) ≡ true
good-write st s message code next p l = ground arith

present_of_terminal : (st : Option String) → is_terminal_status st ≡ true → is_present st ≡ true
unfolding is_terminal_status
present_of_terminal none h = h
present_of_terminal (some s) h = refl

good-after_upload :
    (o : Outside) (out : Outcome) (st : Option String)
    → is_present st ≡ true
    → good st (after_upload o out) ≡ true
unfolding after_upload is_terminal_status
good-after_upload o posted st p = ground arith
good-after_upload o timed_out st p = ground arith
good-after_upload o (failed_with f) st p = ground arith

good-pause_of :
    (s : Store) (e : Option ℕ) (st : Option String)
    → is_present st ≡ true
    → good st (pause_of e s) ≡ true
good-pause_of s none st p = p
good-pause_of s (some e) st p = good-if st (is_set s.events e) after_pause (waiting e) p p

module _ (job_id a : String) where
  abbrev pub Kept : World → World → Phase → Type 0
  Kept w w' phase =
      (good (account_status w'.store job_id a) phase ≡ true)
      × ((b : String)
          → str_eq a b ≡ false
          → account_status w'.store job_id b ≡ account_status w.store job_id b)

  -- A step that writes no row.
  Kept-quiet :
      (w v w' : World) (p p' : Phase)
      → ◌≡◌ {A = Option (World × Phase)} (some (v, p)) (some (w', p'))
      → v.store ≡ w.store
      → good (account_status w.store job_id a) p ≡ true
      → Kept w w' p'
  Kept-quiet w v w' p p' e same g =
      let same' : w'.store ≡ w.store = cc (e, same) in
      let moved' : p ≡ p' = cc e in
      (
        subst (λ s. good (account_status s job_id a) p' ≡ true) (sym same')
            (subst (λ q. good (account_status w.store job_id a) q ≡ true) moved' g),
        λ b n. ap (λ s. account_status s job_id b) same',
      )

absent_of_update_none :
    (s : Store) (job_id a status : String) (message code : Option String)
    → update_result s job_id a status message code ≡ none
    → account_status s job_id a ≡ none
unfolding update_result
absent_of_update_none s job_id a status message code e =
    elim (Option-cases (Dict.get s.jobs job_id)) [
      | inl g ↦ ground arith
      | inr (job, g) ↦ absurd (ground arith)
    ]

Kept-write :
    (job_id a : String) (w w' : World) (store : Store) (s : String) (message code : Option String)
    (next p' : Phase)
    → update_result w.store job_id a s message code ≡ some store
    → ◌≡◌ {A = Option (World × Phase)} (some (record w { store = store }, next)) (some (w', p'))
    → is_present (account_status w.store job_id a) ≡ true
    → leads s next ≡ true
    → Kept job_id a w w' p'
Kept-write job_id a w w' store s message code next p' u e present l =
    let same : w'.store ≡ store = cc e in
    let moved' : next ≡ p' = cc e in
    let status = account_status-update_result w.store store job_id a in
    (
      subst (λ x. good (account_status x job_id a) p' ≡ true) (sym same)
          (subst (λ q. good (account_status store job_id a) q ≡ true) moved'
            (subst (λ st. good st next ≡ true)
              (sym (ground (arith, status a s message code u, eq_refl a)))
              (good-leads (account_status w.store job_id a) s next l present))),
      λ b n.
          ap (λ x. account_status x job_id b) same ∙ ground (arith, status b s message code u, n),
    )

-- A step of a worker keeps its promise, and leaves the rows of all other accounts.
pub step-good :
    (o : Outside) (job_id a : String) (now : ℕ) (w w' : World) (phase phase' : Phase)
    → good (account_status w.store job_id a) phase ≡ true
    → worker_step o job_id a now w phase ≡ some (w', phase')
    → (good (account_status w'.store job_id a) phase' ≡ true)
      × ((b : String)
          → str_eq a b ≡ false
          → account_status w'.store job_id b ≡ account_status w.store job_id b)
unfolding worker_step is_terminal_status
step-good o job_id a now w w' preflight phase' g e = Kept-quiet job_id a w w w' _ phase' e refl (
    good-if (account_status w.store job_id a) (is_stop_requested w.store job_id) _ _
      (good-write (account_status w.store job_id a) "skipped" none none ended g refl) g)
step-good o job_id a now w w' pause_check phase' g e = Kept-quiet job_id a w w w' _ phase' e refl (
    good-pause_of w.store (Dict.get w.store.pause_events job_id) (account_status w.store job_id a)
      g)
step-good o job_id a now w w' after_pause phase' g e = Kept-quiet job_id a w w w' _ phase' e refl (
    good-if (account_status w.store job_id a) (is_stop_requested w.store job_id) _ _
      (good-write (account_status w.store job_id a) "skipped" none none ended g refl) g)
step-good o job_id a now w w' breaker_check phase' g e =
    Kept-quiet job_id a w w w' _ phase' e refl (
      good-if (account_status w.store job_id a) (allow_request w.breaker now) client_check _ g
        (good-write (account_status w.store job_id a) "failed" none none ended g refl))
step-good o job_id a now w w' client_check phase' g e = Kept-quiet job_id a w w w' _ phase' e refl (
    good-if (account_status w.store job_id a) (o.logged_in a) _ _
      (good-write (account_status w.store job_id a) "uploading" none none uploading g refl)
      (good-write (account_status w.store job_id a) "failed" none none ended g refl))
step-good o job_id a now w w' uploading phase' g e =
    Kept-quiet job_id a w w w' _ phase' e refl
      (good-after_upload o (o.upload a) (account_status w.store job_id a) g)
step-good o job_id a now w w' ended phase' g e = absurd (cc e)
step-good o job_id a now w w' (waiting n) phase' g e = elim (Bool-cases (is_set w.store.events n)) [
  | inl t ↦ Kept-quiet job_id a w w w' after_pause phase' (ground arith) refl g
  | inr f ↦ absurd (ground arith)
]
step-good o job_id a now w w' (recording out) phase' g e =
    Kept-quiet job_id a w _ w' ended phase' e refl g
step-good o job_id a now w w' (writing (write s message code next)) phase' g e =
    elim (Option-cases (update_result w.store job_id a s message code)) [
      | inl u ↦ absurd (ground (arith, absent_of_update_none w.store job_id a s message code u, g))
      | inr (store, u) ↦
          Kept-write job_id a w w' store s message code next phase' u
            (ap (λ o'. some (written o' w next)) (sym u) ∙ e) (ground (arith, g))
            (ground (arith, g))
    ]
