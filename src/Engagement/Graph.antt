-- ===== src/Engagement/Graph.antt =====
-- The graph of backend/ai_copilot/application/graphs/smart_engagement.py with the routing functions of
-- the nodes, and a run over it: `start` is `SmartEngagementUseCase.run`, which may be suspended at
-- the approval, and `resume` is its `resume` with the operator's decision.
pub mod Keeps
pub mod Invariant
pub mod Safety
pub mod Approved
use insta.Prelude.{
  ℕ, zero, suc, String, str_eq, Bool, true, false, not, ◌&&◌, ◌||◌, Option, none, some, List, [],
  ◌∷◌, if◌then◌else◌,
}
use insta.Copilot.Values.{Value}
use insta.Jobs.Record.{Text}
use insta.Engagement.State.{
  AccountHealth, RiskAssessment, Target, ProposedAction, State, World, Ports, build_initial_state,
  fresh_world,
}
use insta.Engagement.Nodes.Context.{is_none, ingest_goal_node, load_account_context_node}
use insta.Engagement.Nodes.Discovery.{has_any, discover_candidates_node, rank_candidates_node}
use insta.Engagement.Nodes.DraftRisk.{high_risk_threshold, draft_action_node, score_risk_node}
use insta.Engagement.Nodes.Approval.{
  Pass, returned, interrupted, raised, gate_by_mode_node, request_approval_node,
}
use insta.Engagement.Nodes.Outcome.{is_approved, execute_action_node, log_outcome_node, finish_node}

pub data Node : Type 0 where
  ingest_goal load_account_context discover_candidates rank_candidates draft_action score_risk :
      Node
  gate_by_mode request_approval execute_action log_outcome finish done : Node

-- Python's truth of `stop_reason`
abbrev pub is_stopped : Option String → Bool
is_stopped none = false
is_stopped (some r) = not (str_eq r "")

abbrev pub is_active : Option AccountHealth → Bool
is_active none = false
is_active (some h) = str_eq h.status "active"

unfoldable pub route_after_account_context : State → Node
route_after_account_context s =
    if is_stopped s.stop_reason || not (is_active s.account_health)
    then log_outcome
    else discover_candidates

unfoldable pub route_after_discovery : State → Node
route_after_discovery s =
    if is_stopped s.stop_reason || not (has_any s.candidate_targets)
    then log_outcome
    else rank_candidates

abbrev pub is_acceptable : Option RiskAssessment → Bool
is_acceptable none = false
is_acceptable (some risk) = not (str_eq risk.risk_level high_risk_threshold)

unfoldable pub route_after_risk : State → Node
route_after_risk s =
    if is_stopped s.stop_reason || not (is_acceptable s.risk_assessment)
    then log_outcome
    else gate_by_mode

unfoldable pub route_by_mode : State → Node
route_by_mode s = if str_eq s.mode "recommendation" then log_outcome else request_approval

unfoldable pub route_after_approval : State → Node
route_after_approval s =
    if is_stopped s.stop_reason
    then log_outcome
    else if is_approved s.approval_result
    then execute_action
    else log_outcome

-- The edges, conditional or not.
unfoldable pub next_node : Node → State → Node
next_node ingest_goal s = load_account_context
next_node load_account_context s = route_after_account_context s
next_node discover_candidates s = route_after_discovery s
next_node rank_candidates s = draft_action
next_node draft_action s = score_risk
next_node score_risk s = route_after_risk s
next_node gate_by_mode s = route_by_mode s
next_node request_approval s = route_after_approval s
next_node execute_action s = log_outcome
next_node log_outcome s = finish
next_node finish s = done
next_node done s = done

abbrev pub return : State × World → Pass
return (s, w) = returned s w

-- A node's pass; only the approval looks at the decision.
unfoldable pub run_node : Ports → Option Value → Node → State → World → Pass
run_node p d ingest_goal s w = return (ingest_goal_node s w)
run_node p d load_account_context s w = return (load_account_context_node p s w)
run_node p d discover_candidates s w = return (discover_candidates_node p s w)
run_node p d rank_candidates s w = return (rank_candidates_node p s w)
run_node p d draft_action s w = return (draft_action_node s w)
run_node p d score_risk s w = return (score_risk_node p s w)
run_node p d gate_by_mode s w = return (gate_by_mode_node s w)
run_node p d request_approval s w = request_approval_node p d s w
run_node p d execute_action s w = return (execute_action_node p s w)
run_node p d log_outcome s w = return (log_outcome_node p s w)
run_node p d finish s w = return (finish_node s w)
run_node p d done s w = returned s w

-- A suspended run keeps the state from before the node that was interrupted.
pub data Result : Type 0 where
  finished suspended failed : State → World → Result
  out_of_fuel : Result

abbrev pub is_done : Node → Bool
is_done done = true
is_done _ = false

unfoldable pub run : Ports → Option Value → ℕ → Node → State → World → Result
run p d zero n s w = if is_done n then finished s w else out_of_fuel
run p d (suc fuel) n s w = elim (is_done n) [
  | true ↦ finished s w
  | false ↦ elim (run_node p d n s w) [
    | raised ↦ failed s w
    | interrupted w' ↦ suspended s w'
    | returned s' w' ↦ run p d fuel (next_node n s') s' w'
  ]
]

unfoldable pub start : Ports → String → String → Text → String → ℕ → Result
unfolding build_initial_state
start p thread_id mode goal account_id max_targets =
    run p none 11 ingest_goal (build_initial_state thread_id mode goal account_id max_targets)
      fresh_world

-- A suspended run, and one whose approval node raised, go on with that node from its start; no other
-- node raises. A finished run has nothing to resume.
unfoldable pub resume : Ports → Value → Result → Result
resume p decision (suspended s w) = run p (some decision) 4 request_approval s w
resume p decision (failed s w) = run p (some decision) 4 request_approval s w
resume p decision r = r
