-- ===== src/Tests/RiskControls.antt =====
-- Runs of the risk control workflow with sample ports.
use insta.Prelude.{◌≡◌, refl, true, some, none, [], ◌∷◌}
use insta.RiskControl.State.{Status, Override, State, Ports, make_initial_state}
use insta.RiskControl.Nodes.{
  is_error_event, evaluate_risk_node, loaded, load_account_signal_node, assessed, max_risk,
  risk_score, choose_policy_node, policy_chosen,
}
use insta.RiskControl.Levels.{evaluate_risk_exact}
use insta.RiskControl.Graph.{
  Result, finished, suspended, out_of_fuel, start, resume, run, run_node, next_node,
  route_after_load, route_after_risk, route_after_policy,
}
use insta.RiskControl.Graph.Acts.{EndsActed, response-EndsActed}

abbrev challenged : Status
challenged = record {
  status = some "active";
  login_state = some "logged_in";
  cooldown_until = none;
  is_challenged = true;
}

abbrev sample : Ports
sample = record {
  time = λ step. 100;
  get_account_status = λ calls id. some (some challenged);
  get_recent_events = λ id. some ("login_error" ∷ []);
  evaluate = λ id level factors events. some "escalate";
  cooldown_end = λ id duration. none;
  get_candidate_proxy = λ id. some (some "proxy");
  proxy_applied = λ id proxy. some true;
}

abbrev assessed_state : State
unfolding make_initial_state
assessed_state = record (make_initial_state "a1") {
  account_status = some challenged;
  recent_events = "login_error" ∷ [];
}

evaluate_risk_exact_example :
    (evaluate_risk_node sample assessed_state).risk_level ≡ some "critical"
unfolding assessed_state
evaluate_risk_exact_example = evaluate_risk_exact sample assessed_state challenged refl

abbrev first_state : State
unfolding make_initial_state
first_state = make_initial_state "a1"

abbrev state_of : Result → State
state_of (finished s calls) = s
state_of (suspended s calls) = s
state_of out_of_fuel = first_state

abbrev waiting : Result
unfolding start
waiting = start sample "a1"

abbrev approval : Override
approval = record {
  decision = "approve_policy";
  override_policy = none;
  cooldown_duration = none;
  proxy = none;
}

response-EndsActed_example :
    EndsActed (some approval) (resume sample approval (suspended (state_of waiting) []))
unfolding waiting start run run_node next_node load_account_signal_node loaded route_after_load
    evaluate_risk_node assessed max_risk risk_score is_error_event route_after_risk
    choose_policy_node policy_chosen route_after_policy make_initial_state
response-EndsActed_example = response-EndsActed sample "a1" approval (state_of waiting) [] refl
