-- ===== src/RiskControl/Nodes.antt =====
-- The nodes of nodes.py, from the state and the calls made so far to both; the escalation is interrupted,
-- and has no other effect.
use insta.Prelude.{
  ℕ, ◌+◌, ltb, leb, String, str_eq, Bool, false, not, ◌&&◌, ◌||◌, Option, none, some, List, [], ◌∷◌,
  ◌++◌, keep, length, if◌then◌else◌,
}
use insta.RiskControl.State.{
  Status, Override, Reason, unreadable, not_found, aborted, failed, no_action, applied, ended,
  State, Call, apply_cooldown, apply_proxy, Ports,
}

abbrev pub event : String → State → State
event event_type s = record s { audit_trail = s.audit_trail ++ (event_type ∷ []) }

abbrev pub counted : State → State
counted s = record s { step_count = s.step_count + 1 }

abbrev pub is_text : String → Option String → Bool
is_text t none = false
is_text t (some s) = str_eq s t

-- Python's truth of an optional text
abbrev pub given : Option String → Bool
given none = false
given (some s) = not (str_eq s "")

unfoldable pub loaded : Option (Option Status) → Option (List String) → State → State
loaded (some (some status)) (some events) s =
    event "signal_loaded"
      (record (counted s) { account_status = some status; recent_events = events })
loaded (some none) (some events) s =
    event "account_not_found" (record (counted s) {
      outcome_reason = some not_found;
      stop_reason = some "account_not_found";
    })
loaded status events s =
    event "signal_load_failed"
      (record (counted s) { outcome_reason = some unreadable; stop_reason = some "error" })

unfoldable pub load_account_signal_node : Ports → State → List Call → State
unfolding loaded
load_account_signal_node p s calls =
    loaded (p.get_account_status calls s.account_id) (p.get_recent_events s.account_id) s

-- `_risk_score` and `_max_risk`
unfoldable pub risk_score : String → ℕ
risk_score level =
    if str_eq level "medium"
    then 1
    else if str_eq level "high"
    then 2
    else if str_eq level "critical"
    then 3
    else 0

unfoldable pub max_risk : String → String → String
unfolding risk_score
max_risk current candidate =
    if ltb (risk_score current) (risk_score candidate) then candidate else current

-- A value that is there and is not the given text.
abbrev pub is_other : String → Option String → Bool
is_other t none = false
is_other t (some s) = not (str_eq s t)

abbrev pub is_later : Option ℕ → ℕ → Bool
is_later none now = false
is_later (some until) now = ltb now until

unfoldable pub is_error_event : String → Bool
is_error_event e =
    str_eq e "login_error" || str_eq e "challenge" || str_eq e "blocked" || str_eq e "rate_limited"

-- The factors and the level so far, after a rule.
abbrev pub rule : Bool → String → String → List String × String → List String × String
rule hit factor level so_far =
    if hit then (so_far.0 ++ (factor ∷ []), max_risk so_far.1 level) else so_far

abbrev pub rules : Bool → Bool → Bool → ℕ → Bool → List String × String
rules inactive logged_out cools errors challenged = rule challenged "challenge_flag" "critical" (
    rule (not (leb 3 errors) && leb 1 errors) "recent_errors" "medium" (
      rule (leb 3 errors) "error_burst" "high" (
        rule cools "in_cooldown" "medium" (
          rule logged_out "login_state" "critical"
            (rule inactive "account_status" "high" ([], "low"))))))

abbrev pub error_count : List String → ℕ
unfolding is_error_event
error_count events = length (keep is_error_event events)

-- A missing status, `{}`, triggers no rule.
unfoldable pub assessed : Option Status → List String → ℕ → List String × String
unfolding max_risk
assessed none events now = rules false false false (error_count events) false
assessed (some a) events now =
    rules (is_other "active" a.status) (is_other "logged_in" a.login_state)
      (is_later a.cooldown_until now) (error_count events) a.is_challenged

unfoldable pub evaluate_risk_node : Ports → State → State
unfolding assessed
evaluate_risk_node p s =
    let (factors, level) = assessed s.account_status s.recent_events (p.time s.step_count) in
    event "risk_evaluated" (record (counted s) { risk_level = some level; risk_factors = factors })

abbrev or_escalate : Option String → String
or_escalate none = "escalate"
or_escalate (some decision) = decision

abbrev or_no_proxy : Option (Option String) → Option String
or_no_proxy none = none
or_no_proxy (some candidate) = candidate

unfoldable pub policy_chosen : String → Ports → State → State
policy_chosen decision p s = event "policy_chosen" (record (counted s) {
  policy_decision = some decision;
  proxy_candidate =
      if str_eq decision "rotate_proxy" || str_eq decision "escalate"
      then or_no_proxy (p.get_candidate_proxy s.account_id)
      else none;
})

unfoldable pub choose_policy_node : Ports → State → State
unfolding policy_chosen
choose_policy_node p s =
    policy_chosen
      (or_escalate (p.evaluate s.account_id s.risk_level s.risk_factors s.recent_events)) p s

-- `_COOLDOWN_DURATIONS`
unfoldable pub cooldown_duration : Option String → ℕ
cooldown_duration level =
    if is_text "high" level then 7200 else if is_text "critical" level then 86400 else 1800

abbrev or_now : Option ℕ → ℕ → ℕ
or_now none end = end
or_now (some until) end = until

unfoldable pub cooldown_action_node : Ports → State → List Call → State × List Call
unfolding cooldown_duration
cooldown_action_node p s calls =
    let duration = cooldown_duration s.risk_level in
    (
      event "cooldown_applied" (record (counted s) {
        cooldown_until =
            some (or_now (p.cooldown_end s.account_id duration) (p.time s.step_count + duration));
        final_policy = some "cooldown";
      }),
      calls ++ (apply_cooldown duration ∷ []),
    )

abbrev succeeded : Option Bool → Bool
succeeded none = false
succeeded (some success) = success

unfoldable pub rotate_with : Ports → Option String → State → List Call → State × List Call
rotate_with p none s calls = (
  event "proxy_rotation_skipped"
      (record s { proxy_rotation_result = some false; final_policy = some "continue" }),
  calls,
)
rotate_with p (some proxy) s calls =
    if str_eq proxy ""
    then (
      event "proxy_rotation_skipped"
          (record s { proxy_rotation_result = some false; final_policy = some "continue" }),
      calls,
    )
    else (
      event "proxy_rotated" (record (counted s) {
        proxy_rotation_result = some (succeeded (p.proxy_applied s.account_id proxy));
        final_policy = some "rotate_proxy";
      }),
      calls ++ (apply_proxy proxy ∷ []),
    )

unfoldable pub rotate_proxy_action_node : Ports → State → List Call → State × List Call
unfolding rotate_with
rotate_proxy_action_node p s calls = rotate_with p s.proxy_candidate s calls

-- What the escalation returns with the operator's response.
unfoldable pub escalate_to_operator_node : Override → State → State
escalate_to_operator_node response s =
    let kept = event "escalation_decided" (record s { operator_override = some response }) in
    if str_eq response.decision "abort"
    then record kept { outcome_reason = some aborted; stop_reason = some "aborted" }
    else counted kept

abbrev either : Option String → Option String → Option String
either a b = if given a then a else b

-- `effective_policy`
unfoldable pub effective_policy : Option Override → Option String → Option String
effective_policy none policy_decision = policy_decision
effective_policy (some o) policy_decision =
    if str_eq o.decision "override_policy"
    then either o.override_policy (either policy_decision (some "continue"))
    else policy_decision

abbrev override_duration : Option Override → Option String → ℕ
override_duration none level = cooldown_duration level
override_duration (some o) level = elim o.cooldown_duration [
  | none ↦ cooldown_duration level
  | some duration ↦ if leb 1 duration then duration else cooldown_duration level
]

abbrev pub override_proxy : Option Override → Option String → Option String
override_proxy none candidate = candidate
override_proxy (some o) candidate = either candidate o.proxy

abbrev pub proxy_calls : Option String → List Call
proxy_calls none = []
proxy_calls (some proxy) = if str_eq proxy "" then [] else apply_proxy proxy ∷ []

-- The call that an effective policy makes.
unfoldable pub policy_calls : Option String → State → List Call
unfolding cooldown_duration
policy_calls policy s =
    if is_text "cooldown" policy
    then apply_cooldown (override_duration s.operator_override s.risk_level) ∷ []
    else if is_text "rotate_proxy" policy
    then proxy_calls (override_proxy s.operator_override s.proxy_candidate)
    else []

unfoldable pub apply_operator_override_node : State → List Call → State × List Call
unfolding effective_policy policy_calls
apply_operator_override_node s calls =
    let policy = effective_policy s.operator_override s.policy_decision in
    (
      event "override_applied" (record (counted s) { final_policy = policy }),
      calls ++ policy_calls policy s,
    )

abbrev reread : Option (Option Status) → Option Status → Option Status
reread none old = old
reread (some status) old = status

unfoldable pub recheck_risk : Option Status → ℕ → String
recheck_risk none now = "low"
recheck_risk (some a) now =
    if is_other "logged_in" a.login_state
    then "high"
    else if is_later a.cooldown_until now
    then "medium"
    else "low"

unfoldable pub recheck_signal_node : Ports → State → List Call → State
unfolding recheck_risk
recheck_signal_node p s calls =
    let status = reread (p.get_account_status calls s.account_id) s.account_status in
    event "signal_rechecked" (record (counted s) {
      recheck_status = status;
      recheck_risk_level = some (recheck_risk status (p.time s.step_count));
    })

abbrev final_stop : Option String → String
final_stop none = "completed"
final_stop (some r) = if str_eq r "" then "completed" else r

abbrev final_reason : String → State → Option Reason → Reason
final_reason stop s (some r) = r
final_reason stop s none =
    if str_eq stop "aborted"
    then aborted
    else if str_eq stop "account_not_found"
    then not_found
    else if str_eq stop "error"
    then failed
    else elim (either s.final_policy none) [
      | some policy ↦ applied policy s.recheck_risk_level
      | none ↦ if is_text "low" s.risk_level then no_action else ended stop
    ]

unfoldable pub finish_node : State → State
finish_node s =
    let stop = final_stop s.stop_reason in
    record s {
      stop_reason = some stop;
      outcome_reason = some (final_reason stop s s.outcome_reason);
    }
