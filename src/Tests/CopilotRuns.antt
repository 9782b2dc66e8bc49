-- ===== src/Tests/CopilotRuns.antt =====
-- Runs of the operator copilot with sample ports.
use insta.Prelude.{String, ◌≡◌, ◌↔◌, refl, true, false, not, none, some, List, [], ◌∷◌, map, All}
use insta.Prelude.Dict
use insta.Prelude.StringSet
use insta.Prelude.Text.{strip, lower, is_empty, startswith, endswith, contains}
use insta.Copilot.Values.{Value, text, object, end, member, RawCall, ToolCall}
use insta.Copilot.Policy.{
  write_sensitive, allowed_tools, is_blocked, is_write_sensitive, classify, classify_calls,
  has_blocked, has_write_sensitive, all_read_only, filter_executable,
}
use insta.Copilot.Policy.Laws.{
  requires_approval_iff, blocked_iff, filter_executable_exact, all_read_only-filter_executable,
}
use insta.Copilot.Policy.Parity.{build_parity_report, registered_names, expected, is_parity_ok_iff}
use insta.Copilot.Guards.{
  Schema, sanitize_proposed_tool_calls, judge, find_schema, get_field, missing_required,
  unknown_keys, sanitized_args, only_keys, contains_placeholder_reference, is_placeholder_text,
  is_missing_required_argument,
}
use insta.Copilot.Guards.Laws.{IsClean, sanitize-IsClean}
use insta.Copilot.Guards.Partition.{Sorted, to_raw, sanitize_idem, sanitize_partition}
use insta.Copilot.State.{
  State, World, Ports, raised, unreadable, decoded, Decision, decision, make_initial_state,
  fresh_world, medium, write_sensitive_tools, policy_gate,
}
use insta.Copilot.Nodes.{
  ingest_request_node, classify_goal_node, plan_actions_node, review_tool_policy_node,
  request_approval_node, review_results_node, summarize_result_node, finish_node,
}
use insta.Copilot.Execute.{
  execute_calls, execute_call, execute_tool, parse_arguments, settle, has_tool_error,
  execute_tools_node,
}
use insta.Copilot.Execute.Laws.{allowed, all_executed, execute_calls-allowed}
use insta.Copilot.Graph.{
  Result, finished, failed, out_of_fuel, start, run, run_node, next_node, execute_tools,
  request_approval_if_needed, route_after_policy, route_after_classify, route_after_plan,
  route_after_approval, route_after_execute_tools, all_flagged_read_only, any_error,
}
use insta.Copilot.Graph.Edited.{edited_without_calls_executes}

abbrev follow_schema : Schema
follow_schema = record {
  name = "follow_user";
  properties = "username" ∷ "target_username" ∷ [];
  required = "username" ∷ [];
}

abbrev follow_raw : RawCall
follow_raw = record {
  id = some "c1";
  name = some "follow_user";
  arguments = some (object (member "username" (text "shop") (member "x" (text "y") end)));
}

abbrev placeholder_raw : RawCall
placeholder_raw = record {
  id = some "c2";
  name = some "follow_user";
  arguments = some (object (member "username" (text " <NAME> ") end));
}

abbrev follow_call : ToolCall
follow_call = record {
  id = some "c1";
  name = "follow_user";
  arguments = object (member "username" (text "shop") end);
}

abbrev bulk_call : ToolCall
bulk_call = record { id = some "c3"; name = "bulk_dm"; arguments = object end }

-- The planner proposes to follow and sends one placeholder; the operator decides as given.
abbrev ports : Decision → Ports
ports d = record {
  classify_llm = λ s. unreadable;
  plan_llm = λ s.
      decoded
        (record { execution_plan = []; proposed_tool_calls = follow_raw ∷ placeholder_raw ∷ [] });
  review_llm = λ s. raised;
  summarize_llm = λ s. some (some "done");
  schemas = follow_schema ∷ [];
  decide = λ s. d;
  execute = λ before name args. some (object end);
  json_loads = λ s. none;
  payload_bytes = λ results. some 20;
  has_memory = true;
  memory_stores = true;
}

abbrev executed_of : Result → List (String × Value)
executed_of (finished s w) = w.executed
executed_of (failed n s w) = w.executed
executed_of out_of_fuel = []

-- To unfold this is to unfold the code of a run.
run_code : Unit {0}
unfolding start run run_node next_node ingest_request_node classify_goal_node plan_actions_node
    review_tool_policy_node request_approval_node execute_tools_node review_results_node
    summarize_result_node finish_node execute_calls execute_call execute_tool parse_arguments settle
    has_tool_error route_after_classify route_after_plan route_after_policy route_after_approval
    route_after_execute_tools all_flagged_read_only any_error sanitize_proposed_tool_calls judge
    find_schema get_field only_keys sanitized_args unknown_keys missing_required
    is_missing_required_argument contains_placeholder_reference is_placeholder_text strip lower
    is_empty startswith endswith contains classify classify_calls filter_executable all_read_only
    Dict.get Dict.put StringSet.sorted_set
run_code = tt

-- An approved call reaches the registry, without the key that the schema does not list; the call
-- with the placeholder was dropped.
approved_run :
    executed_of (start (ports (decision (some "approved") [])) "follow them")
    ≡ ("follow_user", object (member "username" (text "shop") end)) ∷ []
unfolding run_code
approved_run = refl

-- A decision with no result is a rejection.
rejected_run : executed_of (start (ports (decision none [])) "follow them") ≡ []
unfolding run_code
rejected_run = refl

abbrev planned : State
planned = record (make_initial_state "follow them") { proposed_tool_calls = follow_call ∷ [] }

abbrev gated : State
gated = record (record planned { tool_policy_flags = ("c1", write_sensitive) ∷ [] }) {
  approved_tool_calls = follow_call ∷ [];
  risk_assessment = some (record {
    level = medium;
    reasons = write_sensitive_tools ("follow_user" ∷ []) ∷ [];
    blocking = false;
  });
}

abbrev gated_world : World
gated_world = record fresh_world { audit = policy_gate [] 1 ∷ [] }

edited_ports_decide :
    (ports (decision (some "edited") [])).decide gated ≡ decision (some "edited") []
edited_ports_decide = refl

edited_without_calls_executes_example :
    (s' : State) × (w' : World) × (run
        (ports (decision (some "edited") []))
        7
        request_approval_if_needed
        gated
        gated_world
      ≡ run (ports (decision (some "edited") [])) 5 execute_tools s' w')
    × (s'.approved_tool_calls ≡ follow_call ∷ [])
    × (all_read_only s'.approved_tool_calls ≡ false)
unfolding run_code make_initial_state
edited_without_calls_executes_example =
    edited_without_calls_executes (ports (decision (some "edited") [])) 5 planned gated fresh_world
      gated_world refl refl refl

sanitize-IsClean_example :
    All
      (IsClean (follow_schema ∷ []))
      (sanitize_proposed_tool_calls (follow_raw ∷ placeholder_raw ∷ []) (follow_schema ∷ [])).0
sanitize-IsClean_example = sanitize-IsClean (follow_raw ∷ placeholder_raw ∷ []) (follow_schema ∷ [])

sanitize_idem_run :
    let accepted =
      (sanitize_proposed_tool_calls (follow_raw ∷ placeholder_raw ∷ []) (follow_schema ∷ [])).0 in
    sanitize_proposed_tool_calls (map to_raw accepted) (follow_schema ∷ []) ≡ (accepted, [])
sanitize_idem_run = sanitize_idem (follow_raw ∷ placeholder_raw ∷ []) (follow_schema ∷ [])

sanitize_partition_example :
    let (accepted, dropped) =
      sanitize_proposed_tool_calls (follow_raw ∷ placeholder_raw ∷ []) (follow_schema ∷ []) in
    Sorted (follow_schema ∷ []) (follow_raw ∷ placeholder_raw ∷ []) accepted dropped
sanitize_partition_example =
    sanitize_partition (follow_raw ∷ placeholder_raw ∷ []) (follow_schema ∷ [])

execute_calls-allowed_example :
    all_executed allowed
      (execute_calls (ports (decision none [])) (bulk_call ∷ follow_call ∷ []) [] fresh_world).1
    ≡ true
execute_calls-allowed_example =
    execute_calls-allowed (ports (decision none [])) (bulk_call ∷ follow_call ∷ []) [] fresh_world
      refl

requires_approval_iff_example :
    (classify "like_post").requires_approval ≡ is_write_sensitive (classify "like_post").policy
requires_approval_iff_example = requires_approval_iff "like_post"

blocked_iff_run :
    is_blocked (classify "no_such_tool").policy ≡ not (Dict.has_key allowed_tools "no_such_tool")
blocked_iff_run = blocked_iff "no_such_tool"

filter_executable_exact_run :
    let calls = bulk_call ∷ follow_call ∷ [] in
    (has_blocked (filter_executable calls) ≡ false)
    × ((filter_executable calls ≡ calls) ↔ (has_blocked calls ≡ false))
filter_executable_exact_run = filter_executable_exact (bulk_call ∷ follow_call ∷ [])

all_read_only-filter_executable_run :
    all_read_only (filter_executable (bulk_call ∷ [])) ≡ not (has_write_sensitive (bulk_call ∷ []))
all_read_only-filter_executable_run = all_read_only-filter_executable (bulk_call ∷ [])

is_parity_ok_iff_example :
    ((build_parity_report ("list_accounts" ∷ "" ∷ [])).is_parity_ok ≡ true) ↔ (
      (z : String) → StringSet.member (registered_names ("list_accounts" ∷ "" ∷ [])) z ≡ expected z)
is_parity_ok_iff_example = is_parity_ok_iff ("list_accounts" ∷ "" ∷ [])
