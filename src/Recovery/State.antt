-- ===== src/Recovery/State.antt =====
-- The state of a recovery run (state.py), what it has done outside, and its ports (ports.py), whose
-- answers may depend on the calls made before. `none` is an exception. An audit event is its type, and
-- an error state the part of it that the nodes read.
use insta.Prelude.{ℕ, String, Bool, false, Option, none, List, []}

-- The resume payload.
pub record Payload : Type 0 where
  pub decision : String
  pub two_fa_code : Option String
  pub proxy : Option String

pub record ErrorState : Type 0 where
  pub has_error : Bool
  pub proxy : Option String
  pub login_state : String

pub record LoginResult : Type 0 where
  pub success : Bool
  pub requires_2fa : Bool

pub data Reason : Type 0 where
  unreadable max_attempts aborted aborted_2fa recovered failed blocked already_healthy : Reason
  ended : String → Reason

pub record State : Type 0 where
  pub account_id : String
  pub username : String
  pub error_type : Option String
  pub current_proxy : Option String
  pub error_details : Option ErrorState
  pub recovery_path : Option String
  pub recovery_attempts : ℕ
  pub max_recovery_attempts : ℕ
  pub requires_2fa : Bool
  pub operator_decision : Option String
  pub operator_payload : Option Payload
  pub relogin_result : Option LoginResult
  pub proxy_swap_result : Option Bool
  pub health_check_result : Option Bool
  pub recovery_successful : Bool
  pub result : Option String
  pub outcome_reason : Option Reason
  pub stop_reason : Option String
  pub step_count : ℕ
  pub audit_trail : List String

unfoldable pub make_initial_state : String → String → ℕ → State
make_initial_state account_id username max_recovery_attempts = record {
  account_id = account_id;
  username = username;
  error_type = none;
  current_proxy = none;
  error_details = none;
  recovery_path = none;
  recovery_attempts = 0;
  max_recovery_attempts = max_recovery_attempts;
  requires_2fa = false;
  operator_decision = none;
  operator_payload = none;
  relogin_result = none;
  proxy_swap_result = none;
  health_check_result = none;
  recovery_successful = false;
  result = none;
  outcome_reason = none;
  stop_reason = none;
  step_count = 0;
  audit_trail = [];
}

-- A call of the executor that changes the account. A swap that raised is not one that returned.
pub data Call : Type 0 where
  relogin : Option String → Call
  swap raised_swap : String → Call

pub record Ports : Type 0 where
  pub read_error_state : List Call → String → Option ErrorState
  pub classify_issue : Option ErrorState → Option String
  pub verify_account_health : List Call → String → Option Bool
  pub relogin_account : List Call → String → Option String → Option LoginResult
  pub swap_proxy : List Call → String → String → Option Bool
  pub get_available_proxy : List Call → String → Option (Option String)
