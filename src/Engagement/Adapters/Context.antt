-- ===== src/Engagement/Adapters/Context.antt =====
-- backend/ai_copilot/adapters/account_context_adapter.py over the account summaries, which are a
-- parameter, and the status that a relogin answers.
use insta.Prelude.{
  String, str_eq, Bool, false, ◌&&◌, Option, none, some, List, [], ◌∷◌, if◌then◌else◌,
}
use insta.Prelude.Text.{codes, lower, same_text}
use insta.Engagement.State.{AccountHealth}
use insta.Engagement.Nodes.Context.{is_none}

pub record Summary : Type 0 where
  pub id : String
  pub status : Option String
  pub client_exists : Option Bool
  pub proxy : Option String

-- `str(status or "").lower() == "active"`
unfoldable pub is_active_status : Option String → Bool
unfolding lower same_text
is_active_status none = false
is_active_status (some s) = same_text (lower (codes s)) (codes "active")

unfoldable pub find_summary : List Summary → String → Option Summary
find_summary [] account_id = none
find_summary (a ∷ rest) account_id =
    if str_eq a.id account_id then some a else find_summary rest account_id

abbrev flag_or : Option Bool → Bool → Bool
flag_or none default = default
flag_or (some b) default = b

unfoldable pub is_ready : Summary → Bool
unfolding is_active_status
is_ready a = is_active_status a.status && flag_or a.client_exists (is_active_status a.status)

unfoldable pub health_of : Summary → AccountHealth
unfolding is_ready
health_of a = record {
  status = if is_ready a then "active" else "needs_relogin";
  cooldown_until = none;
  proxy = a.proxy;
  login_state = if is_ready a then "logged_in" else "needs_relogin";
  recent_actions = 0;
}

-- `none` is the `ValueError`.
unfoldable pub get_account_context : List Summary → String → Option AccountHealth
unfolding find_summary health_of
get_account_context accounts account_id = elim (find_summary accounts account_id) [
  | none ↦ none
  | some a ↦ some (health_of a)
]

unfoldable pub validate_account_ready : List Summary → String → Bool
unfolding get_account_context
validate_account_ready accounts account_id = elim (get_account_context accounts account_id) [
  | none ↦ false
  | some h ↦ str_eq h.status "active" && is_none h.cooldown_until
]

-- `none` where the relogin raises, else the status that it answers, if any.
unfoldable pub try_refresh_session : Option (Option String) → Bool
unfolding is_active_status
try_refresh_session none = false
try_refresh_session (some status) = is_active_status status
