-- ===== src/Engagement/Adapters/Laws.antt =====
-- What the adapters guarantee to the workflow.
use insta.Prelude.{
  ℕ, ltb, String, str_eq, eq_refl, Bool, true, false, not, ◌&&◌, ◌||◌, none, some, List, ◌≡◌, ◌≢◌,
  refl, ap, ◌∙◌, subst, Option-cases, inl, inr, arith, if◌then◌else◌,
}
use insta.Prelude.Dict
use insta.Prelude.Dict.{Dict, get-put}
use insta.Engagement.State.{ProposedAction, Target, AccountHealth}
use insta.Engagement.Nodes.Context.{is_none, is_healthy}
use insta.Engagement.Adapters.Risk.{is_write, raise_level, assess_risk}
use insta.Engagement.Adapters.Context.{
  Summary, is_ready, health_of, find_summary, get_account_context, validate_account_ready,
}
use insta.Engagement.Adapters.Approvals.{
  Approvals, ApprovalRecord, submit_for_approval, get_approval_status, decided_as,
  record_approval_decision,
}

-- The level after the four rules, by what triggered.
abbrev level_of : Bool → Bool → Bool → Bool → String
level_of cools logged_out busy writes =
    let first = if cools then raise_level "low" "high" else "low" in
    let second = if logged_out then raise_level first "high" else first in
    let third = if busy then raise_level second "high" else second in
    if writes then raise_level third "medium" else third

level_of_lem :
    (a b c w : Bool)
    → (level_of a b c w ≡ (if a || b || c then "high" else if w then "medium" else "low"))
      × ((str_eq (level_of a b c w) "high" || w) ≡ not (str_eq (level_of a b c w) "low"))
unfolding raise_level
level_of_lem true true true true = (refl, refl)
level_of_lem true true true false = (refl, refl)
level_of_lem true true false true = (refl, refl)
level_of_lem true true false false = (refl, refl)
level_of_lem true false true true = (refl, refl)
level_of_lem true false true false = (refl, refl)
level_of_lem true false false true = (refl, refl)
level_of_lem true false false false = (refl, refl)
level_of_lem false true true true = (refl, refl)
level_of_lem false true true false = (refl, refl)
level_of_lem false true false true = (refl, refl)
level_of_lem false true false false = (refl, refl)
level_of_lem false false true true = (refl, refl)
level_of_lem false false true false = (refl, refl)
level_of_lem false false false true = (refl, refl)
level_of_lem false false false false = (refl, refl)

ready_status : (b : Bool) → str_eq (if b then "active" else "needs_relogin") "active" ≡ b
ready_status true = refl
ready_status false = refl

and_true : (b : Bool) → (b && true) ≡ b
and_true true = refl
and_true false = refl

-- The level, without the order of the rules: high for an account that cools down, is not logged in or
-- has acted more than ten times, else medium for a write action, else low. An approval is required
-- exactly above low.
pub assess_risk_exact :
    (action : ProposedAction) (target : Target) (health : AccountHealth)
    → ((assess_risk action target health).risk_level ≡ (
        if not (is_none health.cooldown_until)
          || not (str_eq health.login_state "logged_in")
          || ltb 10 health.recent_actions
        then "high"
        else if is_write action.action_type
        then "medium"
        else "low"))
      × ((assess_risk action target health).requires_approval
          ≡ not (str_eq (assess_risk action target health).risk_level "low"))
unfolding assess_risk
assess_risk_exact action target health =
    level_of_lem (not (is_none health.cooldown_until)) (not (str_eq health.login_state "logged_in"))
      (ltb 10 health.recent_actions) (is_write action.action_type)

not_high : (w : Bool) → ◌≢◌ {A = String} (if w then "medium" else "low") "high"
not_high true e = cc (subst (λ s. str_eq s "high" ≡ false) e refl)
not_high false e = cc (subst (λ s. str_eq s "high" ≡ false) e refl)

-- The context adapter reports no actions and no cooldown.
idle :
    (accounts : List Summary) (account_id : String) (health : AccountHealth)
    → get_account_context accounts account_id ≡ some health
    → health.recent_actions ≡ 0
unfolding get_account_context health_of
idle accounts account_id health g = elim (Option-cases (find_summary accounts account_id)) [
  | inl e ↦ absurd (ground arith)
  | inr (a, e) ↦ ground arith
]

healthy_parts :
    (health : AccountHealth)
    → is_healthy health ≡ true
    → (str_eq health.login_state "logged_in" ≡ true) × (is_none health.cooldown_until ≡ true)
unfolding is_healthy
healthy_parts health h = ground arith

-- As the adapters are wired, the threshold that stops a run for its risk is never met: an account that
-- the context adapter reports as healthy is assessed as medium or low.
pub adapters_never_high :
    (accounts : List Summary) (account_id : String) (health : AccountHealth)
    (action : ProposedAction) (target : Target)
    → get_account_context accounts account_id ≡ some health
    → is_healthy health ≡ true
    → (assess_risk action target health).risk_level ≢ "high"
adapters_never_high accounts account_id health action target g h e =
    not_high (is_write action.action_type) (
      ground (
        arith,
        idle accounts account_id health g,
        (assess_risk_exact action target health).0,
        healthy_parts health h,
      ))

-- An account is ready exactly if it is listed, its status is active and its client, where that is
-- known, is there.
pub ready_iff :
    (accounts : List Summary) (account_id : String) (a : Summary)
    → find_summary accounts account_id ≡ some a
    → validate_account_ready accounts account_id ≡ is_ready a
unfolding validate_account_ready get_account_context health_of
ready_iff accounts account_id a g =
    rw (g, validate_account_ready) (and_true _ ∙ ready_status (is_ready a))

-- The request as it stands before and after a decision.
abbrev pub waiting_request : String → ℕ → ProposedAction → ApprovalRecord
waiting_request id now action = record {
  approval_id = id;
  status = "pending";
  requested_at = now;
  approved_at = none;
  approver_notes = "";
  action = (action.action_type, action.target_id);
}

abbrev pub verdict_of : Bool → String
verdict_of true = "approved"
verdict_of false = "rejected"

abbrev pub decided_request : String → ℕ → ProposedAction → Bool → String → ℕ → ApprovalRecord
decided_request id now action approved notes later = record {
  approval_id = id;
  status = verdict_of approved;
  requested_at = now;
  approved_at = some later;
  approver_notes = notes;
  action = (action.action_type, action.target_id);
}

verdict_of_lem : (b : Bool) → (if b then "approved" else "rejected") ≡ verdict_of b
verdict_of_lem true = refl
verdict_of_lem false = refl

-- A submitted request is read back as pending, with its time and action; a decision is then accepted,
-- and the request is read back as approved or rejected, whichever was decided, with the decision's time
-- and notes and otherwise as it was; every other request is read back as it was before both.
pub decision_roundtrip :
    (approvals : Approvals) (id : String) (now later : ℕ) (action : ProposedAction)
    (approved : Bool) (notes : String)
    → let submitted = submit_for_approval approvals id now action in
      let decided = decided_request id now action approved notes later in
      (get_approval_status submitted id ≡ some (waiting_request id now action))
      × ((after : Approvals) × (record_approval_decision submitted id approved notes later
            ≡ some (after, decided))
          × ((k : String)
              → get_approval_status after k
                ≡ (if str_eq id k then some decided else get_approval_status approvals k)))
unfolding get_approval_status submit_for_approval record_approval_decision
decision_roundtrip approvals id now later action approved notes =
    let r = waiting_request id now action in
    let r' = decided_as approved notes later r in
    let first = get-put approvals id id r in
    let same : r' ≡ decided_request id now action approved notes later =
      ap (λ v. record r { status = v; approved_at = some later; approver_notes = notes })
        (verdict_of_lem approved) in
    (
      ground (arith, first, eq_refl id),
      (
        Dict.put (Dict.put approvals id r) id r',
        ground (arith, first, eq_refl id, same),
        λ k.
            ground
              (arith, same, get-put (Dict.put approvals id r) id k r', get-put approvals id k r),
      ),
    )
