-- ===== src/Copilot/Graph.antt =====
-- The operator copilot graph: the edges of
-- backend/ai_copilot/application/graphs/operator_copilot/builder.py, the routing functions of
-- routing.py, and a run over them. The graph library runs one node, merges its update, and follows
-- the edge; a run is over at `done`, or at the node that raised.
pub mod Termination
pub mod Safety
pub mod Edited
use insta.Prelude.{
  ℕ, zero, suc, String, str_eq, ltb, Bool, true, false, not, ◌&&◌, ◌||◌, Option, none, some, List,
  [], ◌∷◌, if◌then◌else◌,
}
use insta.Prelude.Dict
use insta.Prelude.Dict.{Dict}
use insta.Copilot.Values.{Value, null, boolean, number, text, array, object, nil, end, ToolCall}
use insta.Copilot.Policy.{ToolPolicy, is_read_only, all_read_only}
use insta.Copilot.Guards.{is_nil, get_field}
use insta.Copilot.State.{State, World, Ports, fresh_world, make_initial_state}
use insta.Copilot.Nodes.{
  Outcome, is_text, ingest_request_node, classify_goal_node, plan_actions_node,
  review_tool_policy_node, request_approval_node, review_results_node, summarize_result_node,
  finish_node,
}
use insta.Copilot.Execute.{execute_tools_node, call_id}

pub data Node : Type 0 where
  ingest_request classify_goal plan_actions review_tool_policy request_approval_if_needed : Node
  execute_tools review_results summarize_result finish done : Node

unfoldable pub route_after_classify : State → Node
route_after_classify s =
    if is_text s.stop_reason "llm_failed"
    then finish
    else if is_text s.stop_reason "blocked" || is_text s.stop_reason "responded"
    then summarize_result
    else plan_actions

unfoldable pub route_after_plan : State → Node
route_after_plan s =
    if is_text s.stop_reason "llm_failed"
    then finish
    else if is_nil s.proposed_tool_calls
    then summarize_result
    else review_tool_policy

unfoldable pub route_after_policy : State → Node
route_after_policy s =
    if is_nil s.proposed_tool_calls
    then summarize_result
    else if all_read_only s.proposed_tool_calls
    then execute_tools
    else if s.approval_attempted
    then execute_tools
    else request_approval_if_needed

unfoldable pub route_after_approval : State → Node
route_after_approval s =
    if is_text s.approval_result "approved"
    then execute_tools
    else if is_text s.approval_result "edited"
    then review_tool_policy
    else summarize_result

-- `_REVIEW_SKIP_MAX_PAYLOAD_BYTES`
abbrev pub review_skip_max_payload_bytes : ℕ
review_skip_max_payload_bytes = 4096

abbrev pub flagged_read_only : Dict ToolPolicy → ToolCall → Bool
flagged_read_only flags call = elim (Dict.get flags (call_id call)) [
  | none ↦ false
  | some policy ↦ is_read_only policy
]

-- Python's truth value. The number is zero by its literal.
unfoldable pub is_true : Value → Bool
is_true null = false
is_true (boolean b) = b
is_true (number n) = not (str_eq n "0" || str_eq n "0.0" || str_eq n "-0.0")
is_true (text s) = not (str_eq s "")
is_true (array nil) = false
is_true (object end) = false
is_true v = true

-- `isinstance(result, dict) and result.get("error")`
unfoldable pub has_error : Value → Bool
unfolding is_true
has_error (object fs) = elim (get_field fs "error") [ none ↦ false | some e ↦ is_true e ]
has_error v = false

unfoldable pub all_flagged_read_only : Dict ToolPolicy → List ToolCall → Bool
all_flagged_read_only flags [] = true
all_flagged_read_only flags (call ∷ rest) =
    flagged_read_only flags call && all_flagged_read_only flags rest

unfoldable pub any_error : Dict Value → Bool
unfolding has_error
any_error [] = false
any_error ((k, result) ∷ rest) = has_error result || any_error rest

abbrev no_flags : Dict ToolPolicy → Bool
no_flags [] = true
no_flags (f ∷ flags) = false

unfoldable pub route_after_execute_tools : Ports → State → Node
route_after_execute_tools p s =
    if not (is_nil s.approved_tool_calls) && no_flags s.tool_policy_flags
    then review_results
    else if not (all_flagged_read_only s.tool_policy_flags s.approved_tool_calls)
    then review_results
    else if any_error s.tool_results
    then review_results
    else elim (p.payload_bytes s.tool_results) [
      | none ↦ review_results
      | some n ↦ if ltb n review_skip_max_payload_bytes then summarize_result else review_results
    ]

unfoldable pub run_node : Ports → Node → State → World → Outcome
run_node p ingest_request s w = ingest_request_node s w
run_node p classify_goal s w = classify_goal_node p s w
run_node p plan_actions s w = plan_actions_node p s w
run_node p review_tool_policy s w = review_tool_policy_node s w
run_node p request_approval_if_needed s w = request_approval_node p s w
run_node p execute_tools s w = execute_tools_node p s w
run_node p review_results s w = review_results_node p s w
run_node p summarize_result s w = summarize_result_node p s w
run_node p finish s w = finish_node p s w
run_node p done s w = some (s, w)

-- The edges, conditional or not.
unfoldable pub next_node : Ports → Node → State → Node
next_node p ingest_request s = classify_goal
next_node p classify_goal s = route_after_classify s
next_node p plan_actions s = route_after_plan s
next_node p review_tool_policy s = route_after_policy s
next_node p request_approval_if_needed s = route_after_approval s
next_node p execute_tools s = route_after_execute_tools p s
next_node p review_results s = summarize_result
next_node p summarize_result s = finish
next_node p finish s = done
next_node p done s = done

pub data Result : Type 0 where
  finished : State → World → Result
  failed : Node → State → World → Result
  out_of_fuel : Result

abbrev pub is_done : Node → Bool
is_done done = true
is_done _ = false

unfoldable pub run : Ports → ℕ → Node → State → World → Result
run p zero n s w = if is_done n then finished s w else out_of_fuel
run p (suc fuel) n s w = elim (is_done n) [
  | true ↦ finished s w
  | false ↦ elim (run_node p n s w) [
    | none ↦ failed n s w
    | some (s', w') ↦ run p fuel (next_node p n s') s' w'
  ]
]

-- A new run, with the fuel of the longest path.
unfoldable pub start : Ports → String → Result
unfolding make_initial_state
start p operator_request = run p 10 ingest_request (make_initial_state operator_request) fresh_world
