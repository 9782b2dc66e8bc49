-- ===== src/Recovery/Nodes.antt =====
-- The nodes of nodes.py. A pass takes the state and the calls made so far; the attempt may be
-- interrupted, and is then run again from its start with the operator's payload.
use insta.Prelude.{
  ℕ, ◌+◌, leb, ◌==◌, String, str_eq, Bool, true, false, not, ◌&&◌, Option, none, some, List, [],
  ◌∷◌, ◌++◌, if◌then◌else◌,
}
use insta.Recovery.State.{
  Payload, ErrorState, LoginResult, Reason, unreadable, max_attempts, aborted, aborted_2fa,
  recovered, failed, blocked, already_healthy, ended, State, Call, relogin, swap, raised_swap,
  Ports,
}

-- What a pass of a node comes to, with the calls made so far.
pub data Pass : Type 0 where
  returned : State → List Call → Pass
  interrupted raised : List Call → Pass

abbrev pub event : String → State → State
event event_type s = record s { audit_trail = s.audit_trail ++ (event_type ∷ []) }

abbrev pub is_text : String → Option String → Bool
is_text t none = false
is_text t (some s) = str_eq s t

-- Python's truth of an optional text
abbrev pub given : Option String → Bool
given none = false
given (some s) = not (str_eq s "")

unfoldable pub detected : Option ErrorState → State → State
detected none s = event "detect_failed" (record s {
  outcome_reason = some unreadable;
  stop_reason = some "error";
  step_count = s.step_count + 1;
})
detected (some e) s =
    let read = record s {
      error_details = some e;
      current_proxy = e.proxy;
      step_count = s.step_count + 1;
    } in
    if e.has_error
    then event "issue_detected" read
    else event "no_issue_detected"
        (record read { error_type = some "none"; stop_reason = some "no_issue" })

unfoldable pub detect_issue_node : Ports → State → List Call → Pass
unfolding detected
detect_issue_node p s calls = returned (detected (p.read_error_state calls s.account_id) s) calls

abbrev or_unknown : Option String → String
or_unknown none = "unknown"
or_unknown (some t) = t

unfoldable pub classified : String → State → State
classified error_type s =
    if str_eq error_type "none"
    then event "classified_no_issue"
        (record s { error_type = some "none"; stop_reason = some "no_issue" })
    else event "issue_classified"
        (record s { error_type = some error_type; step_count = s.step_count + 1 })

unfoldable pub classify_issue_node : Ports → State → List Call → Pass
unfolding classified
classify_issue_node p s calls =
    returned (classified (or_unknown (p.classify_issue s.error_details)) s) calls

unfoldable pub recovery_path_of : Option String → ℕ → String
recovery_path_of error_type attempts =
    if is_text "challenge" error_type
    then (if attempts == 0 then "swap_proxy" else "relogin")
    else "relogin"

unfoldable pub chosen : State → State
unfolding recovery_path_of
chosen s =
    if leb s.max_recovery_attempts s.recovery_attempts
    then event "max_attempts" (record s {
      recovery_path = none;
      outcome_reason = some max_attempts;
      stop_reason = some "max_attempts_reached";
    })
    else event "path_chosen" (record s {
      recovery_path = some (recovery_path_of s.error_type s.recovery_attempts);
      step_count = s.step_count + 1;
    })

unfoldable pub choose_recovery_path_node : State → List Call → Pass
unfolding chosen
choose_recovery_path_node s calls = returned (chosen s) calls

-- What the node returns once the interrupt gave the operator's payload.
unfoldable pub decided : String → Reason → Payload → State → State
decided event_type reason d s =
    let kept =
      event event_type
        (record s { operator_decision = some d.decision; operator_payload = some d }) in
    if str_eq d.decision "abort"
    then record kept { outcome_reason = some reason; stop_reason = some "aborted" }
    else kept

abbrev pub payload_proxy : Option Payload → Option String
payload_proxy none = none
payload_proxy (some d) = d.proxy

abbrev pub payload_code : Option Payload → Option String
payload_code none = none
payload_code (some d) = d.two_fa_code

-- `op_payload.get("proxy") or await get_available_proxy(...)`; the outer `none` is an exception.
abbrev pub proxy_for : Ports → State → List Call → Option (Option String)
proxy_for p s calls =
    if given (payload_proxy s.operator_payload)
    then some (payload_proxy s.operator_payload)
    else p.get_available_proxy calls s.account_id

abbrev pub swapped : Option Bool → String → State → List Call → Pass
swapped none proxy s calls = raised (calls ++ (raised_swap proxy ∷ []))
swapped (some success) proxy s calls =
    returned
      (event "proxy_swapped" (record s {
        proxy_swap_result = some success;
        recovery_attempts = s.recovery_attempts + 1;
        operator_decision = none;
        step_count = s.step_count + 1;
      }))
      (calls ++ (swap proxy ∷ []))

unfoldable pub swap_with : Ports → Option (Option String) → State → List Call → Pass
swap_with p none s calls = raised calls
swap_with p (some none) s calls =
    returned (event "no_proxy" (record s { recovery_path = some "relogin" })) calls
swap_with p (some (some proxy)) s calls =
    if str_eq proxy ""
    then returned (event "no_proxy" (record s { recovery_path = some "relogin" })) calls
    else swapped (p.swap_proxy calls s.account_id proxy) proxy s calls

-- The candidate for the operator is read before the interrupt.
abbrev pub ask_swap : Option Payload → Option (Option String) → State → List Call → Pass
ask_swap d none s calls = raised calls
ask_swap none (some candidate) s calls = interrupted calls
ask_swap (some d) (some candidate) s calls =
    returned (decided "approval_received" aborted d s) calls

unfoldable pub attempt_swap : Ports → Option Payload → State → List Call → Pass
unfolding swap_with decided
attempt_swap p d s calls =
    if is_text "approve_proxy_swap" s.operator_decision
    then swap_with p (proxy_for p s calls) s calls
    else ask_swap d (p.get_available_proxy calls s.account_id) s calls

abbrev pub code_of : State → Option String
code_of s =
    if is_text "provide_2fa" s.operator_decision then payload_code s.operator_payload else none

abbrev pub ask_code : Option Payload → State → List Call → Pass
ask_code none s calls = interrupted calls
ask_code (some d) s calls =
    let after = decided "2fa_decision" aborted_2fa d s in
    returned (if str_eq d.decision "abort" then after else record after { requires_2fa = true })
      calls

abbrev pub relogged : Option Payload → Option LoginResult → State → List Call → Pass
relogged d none s calls = raised calls
relogged d (some r) s calls =
    if r.requires_2fa && not (given (code_of s))
    then ask_code d s calls
    else returned
        (event "relogin_attempted" (record s {
          relogin_result = some r;
          recovery_attempts = s.recovery_attempts + 1;
          operator_decision = none;
          requires_2fa = r.requires_2fa;
          step_count = s.step_count + 1;
        }))
        calls

unfoldable pub attempt_relogin : Ports → Option Payload → State → List Call → Pass
unfolding decided
attempt_relogin p d s calls =
    relogged d (p.relogin_account calls s.account_id (code_of s)) s
      (calls ++ (relogin (code_of s) ∷ []))

unfoldable pub attempt_recovery_node : Ports → Option Payload → State → List Call → Pass
unfolding attempt_swap attempt_relogin
attempt_recovery_node p d s calls =
    if is_text "swap_proxy" s.recovery_path
    then attempt_swap p d s calls
    else attempt_relogin p d s calls

abbrev pub is_healthy : Option Bool → Bool
is_healthy none = false
is_healthy (some healthy) = healthy

unfoldable pub checked : Bool → State → State
checked healthy s =
    let noted =
      event "health_checked"
        (record s { health_check_result = some healthy; step_count = s.step_count + 1 }) in
    if healthy
    then record noted {
      recovery_successful = true;
      result = some "recovered";
      stop_reason = some "recovered";
      outcome_reason = some recovered;
    }
    else if leb s.max_recovery_attempts s.recovery_attempts
    then record noted {
      recovery_successful = false;
      result = some "failed";
      stop_reason = some "max_attempts_reached";
      outcome_reason = some failed;
    }
    else noted

unfoldable pub verify_account_health_node : Ports → State → List Call → Pass
unfolding checked
verify_account_health_node p s calls =
    returned (checked (is_healthy (p.verify_account_health calls s.account_id)) s) calls

unfoldable pub finish_unrecoverable_node : State → List Call → Pass
finish_unrecoverable_node s calls =
    returned
      (record s {
        recovery_successful = false;
        result = some "unrecoverable";
        stop_reason = some "unrecoverable";
        outcome_reason = some blocked;
      })
      calls

abbrev final_stop : Option String → String
final_stop none = "completed"
final_stop (some r) = if str_eq r "" then "completed" else r

abbrev final_reason : String → Option Reason → Reason
final_reason stop (some r) = r
final_reason stop none =
    if str_eq stop "no_issue"
    then already_healthy
    else if str_eq stop "aborted"
    then aborted
    else if str_eq stop "recovered"
    then recovered
    else if str_eq stop "unrecoverable"
    then blocked
    else if str_eq stop "max_attempts_reached"
    then max_attempts
    else ended stop

unfoldable pub finish_node : State → List Call → Pass
finish_node s calls =
    let stop = final_stop s.stop_reason in
    returned
      (record s {
        stop_reason = some stop;
        outcome_reason = some (final_reason stop s.outcome_reason);
        result = some (if given s.result then or_unknown s.result else stop);
      })
      calls
