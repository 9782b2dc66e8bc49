-- ===== src/RiskControl/Graph.antt =====
-- The graph of backend/ai_copilot/application/graphs/risk_control.py with the routing functions of nodes.py.
-- `start` and `resume` are the use case's `run` and `resume`.
pub mod Leads
pub mod Acts
use insta.Prelude.{
  ℕ, zero, suc, String, str_eq, Bool, true, false, Option, none, some, List, [], if◌then◌else◌,
}
use insta.RiskControl.State.{Override, State, Call, Ports, make_initial_state}
use insta.RiskControl.Nodes.{
  is_text, given, load_account_signal_node, evaluate_risk_node, choose_policy_node,
  cooldown_action_node, rotate_proxy_action_node, escalate_to_operator_node,
  apply_operator_override_node, recheck_signal_node, finish_node,
}

pub data Node : Type 0 where
  load_account_signal evaluate_risk choose_policy cooldown_action rotate_proxy_action : Node
  escalate_to_operator apply_operator_override recheck_signal finish done : Node

unfoldable pub route_after_load : State → Node
route_after_load s = if given s.stop_reason then finish else evaluate_risk

unfoldable pub route_after_risk : State → Node
route_after_risk s = if is_text "low" s.risk_level then recheck_signal else choose_policy

unfoldable pub route_after_policy : State → Node
route_after_policy s =
    if is_text "cooldown" s.policy_decision
    then cooldown_action
    else if is_text "rotate_proxy" s.policy_decision
    then rotate_proxy_action
    else if is_text "continue" s.policy_decision
    then recheck_signal
    else escalate_to_operator

unfoldable pub route_after_escalation : State → Node
route_after_escalation s =
    if is_text "aborted" s.stop_reason then finish else apply_operator_override

unfoldable pub next_node : Node → State → Node
next_node load_account_signal s = route_after_load s
next_node evaluate_risk s = route_after_risk s
next_node choose_policy s = route_after_policy s
next_node cooldown_action s = recheck_signal
next_node rotate_proxy_action s = recheck_signal
next_node escalate_to_operator s = route_after_escalation s
next_node apply_operator_override s = recheck_signal
next_node recheck_signal s = finish
next_node finish s = done
next_node done s = done

-- A pass of a node; `none` where the escalation is interrupted.
abbrev pub escalated : Option Override → State → List Call → Option (State × List Call)
escalated none s calls = none
escalated (some response) s calls = some (escalate_to_operator_node response s, calls)

unfoldable pub run_node :
    Ports → Option Override → Node → State → List Call → Option (State × List Call)
run_node p d load_account_signal s calls = some (load_account_signal_node p s calls, calls)
run_node p d evaluate_risk s calls = some (evaluate_risk_node p s, calls)
run_node p d choose_policy s calls = some (choose_policy_node p s, calls)
run_node p d cooldown_action s calls = some (cooldown_action_node p s calls)
run_node p d rotate_proxy_action s calls = some (rotate_proxy_action_node p s calls)
run_node p d escalate_to_operator s calls = escalated d s calls
run_node p d apply_operator_override s calls = some (apply_operator_override_node s calls)
run_node p d recheck_signal s calls = some (recheck_signal_node p s calls, calls)
run_node p d finish s calls = some (finish_node s, calls)
run_node p d done s calls = some (s, calls)

pub data Result : Type 0 where
  finished suspended : State → List Call → Result
  out_of_fuel : Result

abbrev pub is_done : Node → Bool
is_done done = true
is_done _ = false

unfoldable pub run : Ports → Option Override → ℕ → Node → State → List Call → Result
run p d zero n s calls = if is_done n then finished s calls else out_of_fuel
run p d (suc fuel) n s calls = elim (is_done n) [
  | true ↦ finished s calls
  | false ↦ elim (run_node p d n s calls) [
    | none ↦ suspended s calls
    | some (s', calls') ↦ run p d fuel (next_node n s') s' calls'
  ]
]

unfoldable pub start : Ports → String → Result
unfolding make_initial_state
start p account_id = run p none 8 load_account_signal (make_initial_state account_id) []

unfoldable pub resume : Ports → Override → Result → Result
resume p response (suspended s calls) = run p (some response) 8 escalate_to_operator s calls
resume p response r = r
