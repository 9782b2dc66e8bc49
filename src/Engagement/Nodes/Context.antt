-- ===== src/Engagement/Nodes/Context.antt =====
-- backend/ai_copilot/application/smart_engagement/nodes/context.py.
use insta.Prelude.{
  ◌+◌, str_eq, Bool, true, false, not, ◌&&◌, Option, none, some, List, [], ◌∷◌, ◌++◌, if◌then◌else◌,
}
use insta.Engagement.Goal.{parse_goal}
use insta.Engagement.State.{
  AccountHealth, Reason, not_logged_in, cooldown, inactive, not_ready, context_error, AuditEvent,
  State, World, Ports,
}
use insta.Engagement.Nodes.{event, emit, append_audit_events, note}

unfoldable pub ingest_goal_node : State → World → State × World
ingest_goal_node s w =
    note "goal_ingested" "ingest_goal"
      (record s { structured_goal = some (parse_goal s.goal); step_count = s.step_count + 1 }) w

abbrev pub is_none {ℓ} : {A : Type ℓ} → Option A → Bool
is_none none = true
is_none (some a) = false

unfoldable pub is_healthy : AccountHealth → Bool
is_healthy h =
    str_eq h.status "active" && str_eq h.login_state "logged_in" && is_none h.cooldown_until

-- `_account_not_healthy_reason`
unfoldable pub account_not_healthy_reason : AccountHealth → Reason
account_not_healthy_reason h =
    if not (str_eq h.login_state "logged_in")
    then not_logged_in
    else if not (is_none h.cooldown_until)
    then cooldown
    else if not (str_eq h.status "active")
    then inactive
    else not_ready

-- The end of the node, where the events of a refresh have been emitted before.
unfoldable pub settle_context : AccountHealth → List AuditEvent → State → World → State × World
unfolding is_healthy
settle_context h before s w =
    let skipped = event "action_skipped" "load_account_context" in
    let loaded = event "account_loaded" "load_account_context" in
    if not (is_healthy h)
    then (
      append_audit_events (before ++ (skipped ∷ [])) (record s {
        account_health = some h;
        outcome_reason = some (account_not_healthy_reason h);
        stop_reason = some "account_not_ready";
      }),
      emit skipped w,
    )
    else (
      append_audit_events (before ++ (loaded ∷ [])) (record s { account_health = some h }),
      emit loaded w,
    )

unfoldable pub context_failed : State → World → State × World
context_failed s w =
    note "node_error" "load_account_context"
      (record s {
        account_health = none;
        outcome_reason = some context_error;
        stop_reason = some "error";
      })
      w

abbrev pub attempted : AuditEvent
attempted = event "session_refresh_attempted" "load_account_context"

abbrev pub refreshed : AuditEvent
refreshed = event "session_refresh_result" "load_account_context"

unfoldable pub after_refresh : Option AccountHealth → State → World → State × World
unfolding context_failed settle_context
after_refresh none s w = context_failed s w
after_refresh (some h) s w = settle_context h (attempted ∷ refreshed ∷ []) s (emit refreshed w)

-- One relogin is tried; where it fails, the health read before stands.
unfoldable pub refresh : Ports → AccountHealth → Option Bool → State → World → State × World
unfolding context_failed after_refresh
refresh p h none s w = context_failed s w
refresh p h (some true) s w = after_refresh (p.get_account_context true s.account_id) s w
refresh p h (some false) s w = after_refresh (some h) s w

unfoldable pub load_with : Ports → Option AccountHealth → State → World → State × World
unfolding context_failed settle_context refresh
load_with p none s w = context_failed s w
load_with p (some h) s w =
    if not (is_healthy h) && not (str_eq h.login_state "logged_in")
    then refresh p h (p.try_refresh_session s.account_id) s (emit attempted w)
    else settle_context h [] s w

unfoldable pub load_account_context_node : Ports → State → World → State × World
unfolding load_with
load_account_context_node p s w = load_with p (p.get_account_context false s.account_id) s w
