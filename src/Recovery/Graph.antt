-- ===== src/Recovery/Graph.antt =====
-- The graph of backend/ai_copilot/application/graphs/account_recovery.py with the routing functions of
-- nodes.py. `start` and `resume` are the use case's `run` and `resume`; `session` is a run with all
-- the operator's answers.
pub mod Bounded
pub mod Safety
use insta.Prelude.{
  ℕ, zero, suc, ◌+◌, ◌*◌, ltb, String, str_eq, Bool, true, false, not, ◌||◌, Option, none, some,
  List, [], ◌∷◌, if◌then◌else◌,
}
use insta.Recovery.State.{Payload, State, Call, Ports, make_initial_state}
use insta.Recovery.Nodes.{
  Pass, returned, interrupted, raised, is_text, given, detect_issue_node, classify_issue_node,
  choose_recovery_path_node, attempt_recovery_node, verify_account_health_node,
  finish_unrecoverable_node, finish_node,
}

pub data Node : Type 0 where
  detect_issue classify_issue choose_recovery_path attempt_recovery verify_account_health : Node
  finish_unrecoverable finish done : Node

unfoldable pub route_after_detect : State → Node
route_after_detect s =
    if is_text "error" s.stop_reason
    then finish
    else if is_text "no_issue" s.stop_reason
    then verify_account_health
    else classify_issue

unfoldable pub route_after_classify : State → Node
route_after_classify s =
    if is_text "no_issue" s.stop_reason
    then verify_account_health
    else if is_text "blocked" s.error_type
    then finish_unrecoverable
    else choose_recovery_path

unfoldable pub route_after_choose : State → Node
route_after_choose s = if given s.stop_reason then finish else attempt_recovery

unfoldable pub route_after_attempt : State → Node
route_after_attempt s =
    if given s.stop_reason
    then finish
    else if is_text "provide_2fa" s.operator_decision
        || is_text "approve_proxy_swap" s.operator_decision
    then attempt_recovery
    else verify_account_health

unfoldable pub route_after_health : State → Node
route_after_health s =
    if is_text "recovered" s.stop_reason || is_text "max_attempts_reached" s.stop_reason
    then finish
    else if s.recovery_successful
    then finish
    else if ltb s.recovery_attempts s.max_recovery_attempts
    then choose_recovery_path
    else finish

unfoldable pub next_node : Node → State → Node
next_node detect_issue s = route_after_detect s
next_node classify_issue s = route_after_classify s
next_node choose_recovery_path s = route_after_choose s
next_node attempt_recovery s = route_after_attempt s
next_node verify_account_health s = route_after_health s
next_node finish_unrecoverable s = finish
next_node finish s = done
next_node done s = done

unfoldable pub run_node : Ports → Option Payload → Node → State → List Call → Pass
run_node p d detect_issue s calls = detect_issue_node p s calls
run_node p d classify_issue s calls = classify_issue_node p s calls
run_node p d choose_recovery_path s calls = choose_recovery_path_node s calls
run_node p d attempt_recovery s calls = attempt_recovery_node p d s calls
run_node p d verify_account_health s calls = verify_account_health_node p s calls
run_node p d finish_unrecoverable s calls = finish_unrecoverable_node s calls
run_node p d finish s calls = finish_node s calls
run_node p d done s calls = returned s calls

-- A suspended run, and one whose attempt raised, keep the state from before the attempt.
pub data Result : Type 0 where
  finished suspended failed : State → List Call → Result
  out_of_fuel : Result

abbrev pub is_done : Node → Bool
is_done done = true
is_done _ = false

-- The operator's payload is for the first node only.
unfoldable pub run : Ports → Option Payload → ℕ → Node → State → List Call → Result
run p d zero n s calls = if is_done n then finished s calls else out_of_fuel
run p d (suc fuel) n s calls = elim (is_done n) [
  | true ↦ finished s calls
  | false ↦ elim (run_node p d n s calls) [
    | raised calls' ↦ failed s calls'
    | interrupted calls' ↦ suspended s calls'
    | returned s' calls' ↦ run p none fuel (next_node n s') s' calls'
  ]
]

unfoldable pub start : Ports → String → String → ℕ → Result
unfolding make_initial_state
start p account_id username max_attempts =
    run p none (4 * max_attempts + 6) detect_issue
      (make_initial_state account_id username max_attempts) []

-- Both go on with the attempt, from its start; no other node raises.
unfoldable pub resume : Ports → Payload → Result → Result
resume p d (suspended s calls) =
    run p (some d) (8 * s.max_recovery_attempts + 6) attempt_recovery s calls
resume p d (failed s calls) =
    run p (some d) (8 * s.max_recovery_attempts + 6) attempt_recovery s calls
resume p d r = r

unfoldable pub resume_all : Ports → List Payload → Result → Result
unfolding resume
resume_all p [] r = r
resume_all p (d ∷ rest) r = resume_all p rest (resume p d r)
