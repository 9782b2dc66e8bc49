-- ===== src/Engagement/Goal.antt =====
-- backend/ai_copilot/application/smart_engagement/goal_parser.py. A goal is its code points; a reason
-- is the data that its message formats.
use insta.Prelude.{String, str_eq, Bool, ◌||◌, Option, none, some, if◌then◌else◌}
use insta.Prelude.Text.{codes, lower, contains}
use insta.Jobs.Record.{Text}

pub record StructuredGoal : Type 0 where
  pub intent : Text
  pub action_type : String
  pub target_type : String
  pub constraint : Option (String × String)

-- `word in goal_lower`
unfoldable pub mentions : String → Text → Bool
unfolding contains
mentions word goal_lower = contains (codes word) goal_lower

unfoldable pub goal_action : Text → String × String
unfolding mentions
goal_action goal =
    if mentions "comment" goal
    then ("comment", "post")
    else if mentions "dm" goal || mentions "direct message" goal || mentions "message" goal
    then ("dm", "account")
    else if mentions "like" goal
    then ("like", "post")
    else if mentions "follow" goal
    then ("follow", "account")
    else ("follow", "account")

unfoldable pub goal_constraint : Text → Option (String × String)
unfolding mentions
goal_constraint goal =
    if mentions "educational" goal
    then some ("content_filter", "educational")
    else if mentions "tech" goal || mentions "technology" goal
    then some ("niche", "technology")
    else if mentions "fitness" goal || mentions "health" goal
    then some ("niche", "health/fitness")
    else none

unfoldable pub parse_goal : Text → StructuredGoal
unfolding goal_action goal_constraint lower
parse_goal goal = record {
  intent = goal;
  action_type = (goal_action (lower goal)).0;
  target_type = (goal_action (lower goal)).1;
  constraint = goal_constraint (lower goal);
}

unfoldable pub expected_outcome : String → String
expected_outcome action_type =
    if str_eq action_type "follow"
    then "Account followed; may receive follow-back"
    else if str_eq action_type "dm"
    then "Direct message sent; awaiting reply"
    else if str_eq action_type "comment"
    then "Comment posted; increases visibility"
    else if str_eq action_type "like"
    then "Post liked; increases account visibility"
    else if str_eq action_type "skip"
    then "Action skipped; no engagement taken"
    else "Unknown outcome"
