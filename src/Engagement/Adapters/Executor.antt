-- ===== src/Engagement/Adapters/Executor.antt =====
-- `EngagementExecutorAdapter` of backend/ai_copilot/adapters/engagement_executor_adapter.py over the
-- direct-message, comment and identity use cases, which are parameters.
use insta.Prelude.{
  String, str_eq, leb, Bool, true, false, not, ◌&&◌, Option, none, some, all, if◌then◌else◌,
}
use insta.Prelude.Text.{codes, is_empty}
use insta.Jobs.Record.{Text}
use insta.Engagement.State.{Content, Call, follow, like, dm, comment, RawResult}

-- What a use case comes to: the id of what it made, a `ValueError` with its text, or another exception.
pub data Made : Type 0 where
  made : String → Made
  invalid : Text → Made
  broken : Made

pub record UseCases : Type 0 where
  pub has_direct : Bool
  pub has_comment : Bool
  pub has_identity : Bool
  pub get_public_user_by_id : String → String → Made
  pub send_to_users : String → String → Option Content → Made
  pub send_to_username : String → String → Option Content → Made
  pub create_comment : String → String → Option Content → Made

abbrev pub refused : String → String → RawResult
refused reason reason_code = record {
  success = false;
  action_id = none;
  reason = some (codes reason);
  reason_code = some (codes reason_code);
}

abbrev pub result_of : Made → String → String → RawResult
result_of (made id) sent failed = record {
  success = true;
  action_id = some id;
  reason = some (codes sent);
  reason_code = some (codes "ok");
}
result_of (invalid message) sent failed = record {
  success = false;
  action_id = none;
  reason = some message;
  reason_code = some (codes "validation_error");
}
result_of broken sent failed = refused failed "execution_failed"

-- `str.isdigit`, exact for ASCII
unfoldable pub is_digits : String → Bool
is_digits s = not (is_empty (codes s)) && all (λ c. leb 48 c && leb c 57) (codes s)

abbrev then_send : Made → Made → Made
then_send (made id) sent = sent
then_send (invalid message) sent = invalid message
then_send broken sent = broken

-- To a number, after its user was looked up where that is configured; else to a user name.
unfoldable pub send : UseCases → String → String → Option Content → Made
unfolding is_digits
send u account_id target_id message =
    if is_digits target_id
    then (if u.has_identity
        then then_send (u.get_public_user_by_id account_id target_id)
            (u.send_to_users account_id target_id message)
        else u.send_to_users account_id target_id message)
    else u.send_to_username account_id target_id message

-- `account_id or self.account_id`
abbrev resolved : String → String → String
resolved own account_id = if str_eq account_id "" then own else account_id

unfoldable pub execute_dm : UseCases → String → String → String → Option Content → RawResult
unfolding send
execute_dm u own target_id account_id message =
    if not u.has_direct
    then refused "Direct use case is not configured" "adapter_not_configured"
    else if str_eq (resolved own account_id) ""
    then refused "Account ID is required for DM execution" "invalid_input"
    else result_of (send u (resolved own account_id) target_id message) "DM sent"
        "DM execution failed"

unfoldable pub execute_comment : UseCases → String → String → String → Option Content → RawResult
execute_comment u own post_id account_id comment_text =
    if not u.has_comment
    then refused "Comment use case is not configured" "adapter_not_configured"
    else if str_eq (resolved own account_id) ""
    then refused "Account ID is required for comment execution" "invalid_input"
    else result_of (u.create_comment (resolved own account_id) post_id comment_text)
        "Comment created" "Comment execution failed"

-- The adapter as the graph's executor port: it never raises.
unfoldable pub execute : UseCases → String → Call → RawResult
unfolding execute_dm execute_comment
execute u own (follow target_id account_id) =
    refused "Follow action is not supported yet" "unsupported_action"
execute u own (like post_id account_id) =
    refused "Like action is not supported yet" "unsupported_action"
execute u own (dm target_id account_id message) = execute_dm u own target_id account_id message
execute u own (comment post_id account_id text) = execute_comment u own post_id account_id text
