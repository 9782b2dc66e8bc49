-- ===== src/Tests/EngagementRuns.antt =====
-- Runs of the smart engagement workflow with sample ports.
use insta.Prelude.{
  ℕ, String, ◌≡◌, ◌≢◌, refl, true, false, none, some, [], ◌∷◌, ◌++◌, All, if◌then◌else◌, str_eq,
}
use insta.Prelude.Text.{codes, lower, contains}
use insta.Engagement.Adapters.Approvals.{
  Approvals, get_approval_status, record_approval_decision, submit_for_approval,
}
use insta.Copilot.Values.{Value, text, object, end, member}
use insta.Copilot.Guards.{get_field}
use insta.Engagement.State.{
  Ports, Target, AccountHealth, ProposedAction, RiskAssessment, State, World, build_initial_state,
  fresh_world,
}
use insta.Engagement.Goal.{parse_goal, goal_action, goal_constraint, mentions, expected_outcome}
use insta.Engagement.Nodes.Context.{
  ingest_goal_node, load_account_context_node, load_with, settle_context, refresh, after_refresh,
  context_failed, is_healthy, account_not_healthy_reason,
}
use insta.Engagement.Nodes.Discovery.{
  discover_candidates_node, discover_with, discovered, not_excluded, excluded_ids, recalled,
  rank_candidates_node, ranked, best,
}
use insta.Engagement.Nodes.DraftRisk.{
  draft_action_node, drafted, proposal, draft_content, score_risk_node, score_with, scored,
}
use insta.Engagement.Nodes.Approval.{
  gate_by_mode_node, request_approval_node, request_with, submit_request, approval_result_of,
  returned, interrupted,
}
use insta.Prelude.Text.{strip, same_text}
use insta.Engagement.Nodes.Decisions.{approval_result_of-decision}
use insta.Engagement.Nodes.Choice.{IsFresh, IsBest, discover_candidates-IsFresh, best-IsBest}
use insta.Engagement.Graph.{
  Result, suspended, finished, failed, out_of_fuel, start, resume, run, run_node, next_node,
  route_after_account_context, route_after_discovery, route_after_risk, route_by_mode,
}
use insta.Engagement.Graph.Safety.{EndsSafely, new_run-EndsSafely, resumed_run-EndsSafely}
use insta.Engagement.Graph.Approved.{submits_twice}
use insta.Engagement.Adapters.Risk.{is_write, assess_risk}
use insta.Engagement.Adapters.Context.{
  Summary, find_summary, get_account_context, health_of, is_ready, validate_account_ready,
}
use insta.Engagement.Adapters.Laws.{
  waiting_request, decided_request, decision_roundtrip, assess_risk_exact, adapters_never_high,
  ready_iff,
}

abbrev listed : Summary
listed = record { id = "a1"; status = some "Active"; client_exists = none; proxy = none }

abbrev healthy : AccountHealth
healthy = record {
  status = "active";
  cooldown_until = none;
  proxy = none;
  login_state = "logged_in";
  recent_actions = 0;
}

abbrev target : String → Target
target id = record { target_id = id; target_type = "account"; metadata = text "" }

abbrev by_id : Target → ℕ
by_id t = if str_eq t.target_id "u2" then 5 else 1

abbrev low_risk : RiskAssessment
low_risk = record { risk_level = "low"; rule_hits = []; requires_approval = false }

abbrev sample : Ports
sample = record {
  get_account_context = λ refreshed id. some healthy;
  try_refresh_session = λ id. some true;
  discover_candidates = λ id goal n. some (target "u1" ∷ target "u2" ∷ target "u3" ∷ []);
  has_memory = true;
  recall_recent_engagements = λ id. some ("u3" ∷ []);
  recall_rejected_targets = λ id. some ("u9" ∷ []);
  store_engagement_outcome = λ m. true;
  score_candidate = λ t g. by_id t;
  assess_risk = λ a t h. some low_risk;
  submit_for_approval = λ a. true;
  execute = λ c. some none;
}

abbrev first_state : State
unfolding build_initial_state
first_state = build_initial_state "t1" "execute" (codes "dm") "a1" 5

abbrev message : ProposedAction
message = record { action_type = "dm"; target_id = "u2"; content = none; expected_outcome = "" }

abbrev drafted_state : State
drafted_state = record first_state {
  proposed_action = some message;
  risk_assessment = some low_risk;
}

new_run-EndsSafely_example : EndsSafely none (start sample "t1" "execute" (codes "dm") "a1" 5)
new_run-EndsSafely_example = new_run-EndsSafely sample "t1" "execute" (codes "dm") "a1" 5

abbrev state_of : Result → State
state_of (finished s w) = s
state_of (suspended s w) = s
state_of (failed s w) = s
state_of out_of_fuel = first_state

abbrev world_of : Result → World
world_of (finished s w) = w
world_of (suspended s w) = w
world_of (failed s w) = w
world_of out_of_fuel = fresh_world

abbrev waiting : Result
unfolding start
waiting = start sample "t1" "execute" (codes "dm") "a1" 5

resumed_run-EndsSafely_example :
    EndsSafely
      (some (text " Approve "))
      (resume sample (text " Approve ") (suspended (state_of waiting) (world_of waiting)))
unfolding waiting start run run_node next_node route_after_account_context load_account_context_node
    load_with refresh after_refresh context_failed settle_context account_not_healthy_reason
    is_healthy ingest_goal_node parse_goal goal_action goal_constraint mentions contains lower
    route_after_discovery discover_candidates_node discover_with discovered excluded_ids
    not_excluded recalled rank_candidates_node ranked best draft_action_node drafted proposal
    draft_content expected_outcome route_after_risk score_risk_node score_with scored
    gate_by_mode_node route_by_mode request_approval_node request_with submit_request
    build_initial_state
resumed_run-EndsSafely_example =
    resumed_run-EndsSafely sample "t1" "execute" (codes "dm") "a1" 5 (text " Approve ")
      (state_of waiting) (world_of waiting) refl

submits_twice_example :
    (w1 : World) × (s2 : State) × (w2 : World) × (request_approval_node sample none drafted_state
        fresh_world
      ≡ interrupted w1)
    × (request_approval_node sample (some (text "approve")) drafted_state w1 ≡ returned s2 w2)
    × (w2.submitted ≡ (fresh_world.submitted ++ (message ∷ [])) ++ (message ∷ []))
unfolding first_state
submits_twice_example =
    submits_twice sample (text "approve") drafted_state fresh_world message low_risk refl refl refl
      refl

abbrev edit : Value
edit = object (member "decision" (text "edit") (member "content" (text "hello") end))

discover_candidates-IsFresh_example :
    All
      (IsFresh ("u3" ∷ []) ("u9" ∷ []))
      (discover_candidates_node sample first_state fresh_world).0.candidate_targets
unfolding first_state
discover_candidates-IsFresh_example =
    discover_candidates-IsFresh sample first_state fresh_world ("u3" ∷ []) ("u9" ∷ []) refl refl
      refl refl

best-IsBest_run :
    IsBest by_id (target "u1" ∷ target "u2" ∷ []) (best by_id (target "u1") (target "u2" ∷ []))
best-IsBest_run = best-IsBest by_id (target "u1") (target "u2" ∷ [])

best_run : best by_id (target "u1") (target "u2" ∷ []) ≡ target "u2"
unfolding best
best_run = refl

assess_risk_exact_example :
    ((assess_risk message (target "u2") healthy).risk_level ≡ "medium")
    × ((assess_risk message (target "u2") healthy).requires_approval ≡ true)
unfolding assess_risk is_write
assess_risk_exact_example = assess_risk_exact message (target "u2") healthy

adapters_never_high_example :
    (assess_risk message (target "u2") (health_of listed)).risk_level ≢ "high"
unfolding is_healthy health_of get_account_context
adapters_never_high_example =
    adapters_never_high (listed ∷ []) "a1" (health_of listed) message (target "u2") refl refl

ready_iff_example : validate_account_ready (listed ∷ []) "a1" ≡ is_ready listed
unfolding find_summary
ready_iff_example = ready_iff (listed ∷ []) "a1" listed refl

admin_goal_run : (parse_goal (codes "Follow the admin")).action_type ≡ "dm"
unfolding parse_goal
admin_goal_run = refl

decision_roundtrip_example :
    let submitted = submit_for_approval [] "p1" 3 message in
    let decided = decided_request "p1" 3 message true "fine" 9 in
    (get_approval_status submitted "p1" ≡ some (waiting_request "p1" 3 message))
    × ((after : Approvals) × (record_approval_decision submitted "p1" true "fine" 9
          ≡ some (after, decided))
        × ((k : String)
            → get_approval_status after k
              ≡ (if str_eq "p1" k then some decided else get_approval_status [] k)))
decision_roundtrip_example = decision_roundtrip [] "p1" 3 9 message true "fine"

approval_result_of-decision_example : (approval_result_of edit).decision ≡ "approved"
unfolding get_field strip lower same_text
approval_result_of-decision_example = approval_result_of-decision edit
