-- ===== src/Copilot/Execute.antt =====
-- `execute_tools_node` and `_extract_tool_error`, of
-- backend/ai_copilot/application/graphs/operator_copilot/nodes_approval_execution.py, and the second
-- guard, `PolicyAwareToolExecutor` of backend/ai_copilot/adapters/policy_aware_tool_executor.py.
pub mod Laws
use insta.Prelude.{
  String, Bool, true, false, Option, none, some, List, [], ◌∷◌, ◌++◌, if◌then◌else◌,
}
use insta.Prelude.Dict
use insta.Prelude.Dict.{Dict}
use insta.Copilot.Values.{Value, text, object, Fields, end, member, ToolCall}
use insta.Copilot.Policy.{is_blocked, classify}
use insta.Copilot.Guards.{get_field}
use insta.Copilot.State.{State, World, Ports, AuditEvent}
use insta.Copilot.Nodes.{Outcome, log}

-- Whether `_extract_tool_error` finds an error, whose text goes to the log only.
unfoldable pub has_tool_error : Value → Bool
has_tool_error (object fs) = elim (get_field fs "error") [ none ↦ false | some e ↦ true ]
has_tool_error v = false

-- `{"error": ...}`; the text of an exception is not modelled, it is never empty.
abbrev pub error_result : String → Value
error_result message = object (member "error" (text message) end)

abbrev pub call_id : ToolCall → String
call_id call = elim call.id [ none ↦ "" | some id ↦ id ]

-- Arguments that are a text are parsed; `none` is a text that is no JSON.
unfoldable pub parse_arguments : Ports → Value → Option Value
parse_arguments p (text s) = p.json_loads s
parse_arguments p v = some v

-- `PolicyAwareToolExecutor.execute`: `none` is the `ValueError`. The registry's call is `Ports.execute`.
unfoldable pub execute_tool : Ports → String → Value → World → Option Value × World
execute_tool p tool_name args w = if is_blocked (classify tool_name).policy then (none, w) else (
  p.execute w.executed tool_name args,
  record w { executed = w.executed ++ (tool_name, args) ∷ [] },
)

-- The result and the log entry of one call that the executor answered.
unfoldable pub settle : ToolCall → Option Value × World → Value × World
settle call (some result, w) =
    if has_tool_error result
    then (result, log (AuditEvent.execution_failure (call_id call) call.name) w)
    else (result, log (AuditEvent.tool_execution (call_id call) call.name) w)
settle call (none, w) =
    (error_result "raised", log (AuditEvent.execution_failure (call_id call) call.name) w)

-- The call, once its arguments are parsed or found malformed.
unfoldable pub perform : Ports → ToolCall → Option Value → World → Value × World
perform p call none w = (
  error_result "malformed_arguments",
  log (AuditEvent.execution_failure (call_id call) call.name) w,
)
perform p call (some args) w = settle call (execute_tool p call.name args w)

-- One turn of the loop over the approved calls.
unfoldable pub execute_call : Ports → ToolCall → World → Value × World
unfolding perform
execute_call p call w = perform p call (parse_arguments p call.arguments) w

unfoldable pub execute_calls : Ports → List ToolCall → Dict Value → World → Dict Value × World
execute_calls p [] results w = (results, w)
execute_calls p (call ∷ rest) results w =
    let (result, w') = execute_call p call w in
    execute_calls p rest (Dict.put results (call_id call) result) w'

unfoldable pub execute_tools_node : Ports → State → World → Outcome
execute_tools_node p s w =
    let (results, w') = execute_calls p s.approved_tool_calls [] w in
    some (record s { tool_results = results }, w')
