-- ===== src/Engagement/Nodes/Outcome.antt =====
-- backend/ai_copilot/application/smart_engagement/nodes/execution_outcome.py, and
-- `_normalize_execution_result` of nodes/__init__.py.
use insta.Prelude.{
  String, str_eq, Bool, false, not, ◌&&◌, Option, none, some, List, [], ◌∷◌, ◌++◌, if◌then◌else◌,
}
use insta.Prelude.Text.{codes, strip, is_empty}
use insta.Prelude.StringSet.{member}
use insta.Jobs.Record.{Text}
use insta.Engagement.State.{
  ProposedAction, ApprovalResult, ExecutionResult, Reason, action_done, action_failed,
  recommendation_made, ended, State, Call, follow, like, dm, comment, RawResult, Memory, World,
  Ports,
}
use insta.Engagement.Nodes.{note}

-- A given text that is not blank, or the default.
unfoldable pub given_or : Option Text → String → Text
unfolding strip is_empty
given_or none default = codes default
given_or (some t) default = if is_empty (strip t) then codes default else t

unfoldable pub normalize_execution_result : Option RawResult → ExecutionResult
unfolding given_or
normalize_execution_result none = record {
  success = false;
  action_id = none;
  reason = codes "Execution failed";
  reason_code = codes "execution_failed";
}
normalize_execution_result (some r) = record {
  success = r.success;
  action_id = r.action_id;
  reason = given_or r.reason (if r.success then "Action executed" else "Execution failed");
  reason_code = given_or r.reason_code (if r.success then "ok" else "execution_failed");
}

abbrev pub failed_result : String → String → ExecutionResult
failed_result reason reason_code = record {
  success = false;
  action_id = none;
  reason = codes reason;
  reason_code = codes reason_code;
}

-- The executor's call for an action; `none` for an unknown type.
unfoldable pub call_of : String → ProposedAction → Option Call
call_of account_id action =
    if str_eq action.action_type "follow"
    then some (follow action.target_id account_id)
    else if str_eq action.action_type "dm"
    then some (dm action.target_id account_id action.content)
    else if str_eq action.action_type "comment"
    then some (comment action.target_id account_id action.content)
    else if str_eq action.action_type "like"
    then some (like action.target_id account_id)
    else none

-- The outer `none` is an exception of the executor.
unfoldable pub executed_with : Option (Option RawResult) → State → World → State × World
unfolding normalize_execution_result
executed_with none s w =
    note "execution_error" "execute_action"
      (record s { execution_result = some (failed_result "Execution error" "execution_failed") }) w
executed_with (some r) s w =
    note "action_executed" "execute_action"
      (record s { execution_result = some (normalize_execution_result r) }) w

unfoldable pub perform : Ports → Option Call → State → World → State × World
unfolding executed_with
perform p none s w =
    note "action_executed" "execute_action"
      (record s {
        execution_result = some (failed_result "Unknown action type" "unsupported_action");
      })
      w
perform p (some call) s w =
    executed_with (p.execute call) s (record w { executed = w.executed ++ (call ∷ []) })

abbrev pub is_approved : Option ApprovalResult → Bool
is_approved none = false
is_approved (some r) = str_eq r.decision "approved"

unfoldable pub execute_proposed : Ports → Option ProposedAction → State → World → State × World
unfolding call_of perform
execute_proposed p none s w = (
  record s { execution_result = some (failed_result "No action to execute" "missing_action") },
  w,
)
execute_proposed p (some action) s w = perform p (call_of s.account_id action) s w

unfoldable pub execute_action_node : Ports → State → World → State × World
unfolding execute_proposed
execute_action_node p s w =
    if not (str_eq s.mode "execute")
    then (
      record s {
        execution_result =
            some
              (failed_result "Mode invariant violated: not in execute mode" "invariant_violated");
        stop_reason = some "invariant_violated";
      },
      w,
    )
    else if not (is_approved s.approval_result)
    then (
      record s {
        execution_result = some (failed_result "Not approved for execution" "not_approved");
        stop_reason = some "not_approved";
      },
      w,
    )
    else execute_proposed p s.proposed_action s w

abbrev pub is_stop : Option String → String → Bool
is_stop none r = false
is_stop (some s) r = str_eq s r

unfoldable pub outcome_of : Option ExecutionResult → Option String → Option ProposedAction → Reason
outcome_of (some r) stop action = if r.success then action_done else action_failed
outcome_of none stop action =
    if is_stop stop "recommendation_only" then recommendation_made else ended stop

abbrev pub kept_reason : Option Reason → Reason → Reason
kept_reason none r = r
kept_reason (some old) r = old

unfoldable pub memory_outcome : Option ExecutionResult → Option String → String
memory_outcome (some r) stop = if r.success then "success" else "failed"
memory_outcome none stop = if is_stop stop "approval_rejected" then "rejected" else "skipped"

abbrev remember : Ports → Memory → World → World
remember p m w =
    if p.store_engagement_outcome m then record w { remembered = w.remembered ++ (m ∷ []) } else w

unfoldable pub store_outcome : Ports → Option ProposedAction → State → World → World
unfolding memory_outcome
store_outcome p none s w = w
store_outcome p (some action) s w =
    if p.has_memory && not (str_eq s.account_id "")
    then remember p
        (record {
          account_id = s.account_id;
          target_id = action.target_id;
          action_type = action.action_type;
          outcome = memory_outcome s.execution_result s.stop_reason;
        })
        w
    else w

unfoldable pub log_outcome_node : Ports → State → World → State × World
unfolding outcome_of store_outcome
log_outcome_node p s w =
    note "workflow_completed" "log_outcome"
      (record s {
        outcome_reason = some (
            kept_reason s.outcome_reason
              (outcome_of s.execution_result s.stop_reason s.proposed_action));
      })
      (store_outcome p s.proposed_action s w)

unfoldable pub terminal_reasons : List String
terminal_reasons =
    "recommendation_only" ∷ "action_executed" ∷ "approval_rejected" ∷ "account_not_ready"
    ∷ "no_candidates" ∷ "risk_threshold_exceeded" ∷ "approval_limit_reached"
    ∷ "discovery_limit_reached" ∷ "error" ∷ "invariant_violated" ∷ "not_approved" ∷ "missing_data"
    ∷ "completed" ∷ []

unfoldable pub terminal_stop : Option String → String
unfolding terminal_reasons
terminal_stop none = "completed"
terminal_stop (some r) = if member terminal_reasons r then r else "completed"

unfoldable pub finish_node : State → World → State × World
unfolding terminal_stop
finish_node s w = (record s { stop_reason = some (terminal_stop s.stop_reason) }, w)
