-- ===== src/RiskControl/Levels.antt =====
-- The risk level without the order of the rules.
use insta.Prelude.{
  ℕ, leb, String, Bool, true, false, not, ◌&&◌, ◌||◌, some, List, [], ◌≡◌, refl, ap, ◌∙◌,
  if◌then◌else◌,
}
use insta.RiskControl.State.{Status, State, Ports}
use insta.RiskControl.Nodes.{
  is_other, is_later, error_count, max_risk, rule, rules, assessed, evaluate_risk_node,
}

-- The highest of the levels that apply.
abbrev pub top : Bool → Bool → Bool → String
top critical high medium =
    if critical then "critical" else if high then "high" else if medium then "medium" else "low"

abbrev lifted : Bool → String → String → String
lifted hit level current = if hit then max_risk current level else current

lifted-critical : (b c h m : Bool) → lifted b "critical" (top c h m) ≡ top (c || b) h m
unfolding max_risk
lifted-critical true true h m = refl
lifted-critical true false true m = refl
lifted-critical true false false true = refl
lifted-critical true false false false = refl
lifted-critical false true h m = refl
lifted-critical false false h m = refl

lifted-high : (b c h m : Bool) → lifted b "high" (top c h m) ≡ top c (h || b) m
unfolding max_risk
lifted-high true true h m = refl
lifted-high true false true m = refl
lifted-high true false false true = refl
lifted-high true false false false = refl
lifted-high false c true m = refl
lifted-high false c false m = refl

lifted-medium : (b c h m : Bool) → lifted b "medium" (top c h m) ≡ top c h (m || b)
unfolding max_risk
lifted-medium true true h m = refl
lifted-medium true false true m = refl
lifted-medium true false false true = refl
lifted-medium true false false false = refl
lifted-medium false c h true = refl
lifted-medium false c h false = refl

rule-level :
    (hit : Bool) (factor level : String) (so_far : List String × String)
    → (rule hit factor level so_far).1 ≡ lifted hit level so_far.1
rule-level true factor level so_far = refl
rule-level false factor level so_far = refl

module _ (inactive logged_out cools : Bool) (errors : ℕ) (challenged : Bool) where
  first_three : List String × String
  first_three =
      rule cools "in_cooldown" "medium" (
        rule logged_out "login_state" "critical"
          (rule inactive "account_status" "high" ([], "low")))

  first_three-level : first_three.1 ≡ top logged_out inactive cools
  unfolding first_three
  first_three-level =
      rule-level cools "in_cooldown" "medium" _
      ∙ ap (lifted cools "medium") (
          rule-level logged_out "login_state" "critical"
            (rule inactive "account_status" "high" ([], "low"))
          ∙ ap (lifted logged_out "critical") (
              rule-level inactive "account_status" "high" ([], "low")
              ∙ lifted-high inactive false false false)
          ∙ lifted-critical logged_out false inactive false)
      ∙ lifted-medium cools logged_out inactive false

  rules-level :
      (rules inactive logged_out cools errors challenged).1
      ≡ top
          (logged_out || challenged)
          (inactive || leb 3 errors)
          (cools || (not (leb 3 errors) && leb 1 errors))
  unfolding first_three
  rules-level =
      rule-level challenged "challenge_flag" "critical" _
      ∙ ap (lifted challenged "critical") (
          rule-level (not (leb 3 errors) && leb 1 errors) "recent_errors" "medium" _
          ∙ ap (lifted (not (leb 3 errors) && leb 1 errors) "medium") (
              rule-level (leb 3 errors) "error_burst" "high" first_three
              ∙ ap (lifted (leb 3 errors) "high") first_three-level
              ∙ lifted-high (leb 3 errors) logged_out inactive cools)
          ∙ lifted-medium (not (leb 3 errors) && leb 1 errors) logged_out (inactive || leb 3 errors)
              cools)
      ∙ lifted-critical challenged logged_out (inactive || leb 3 errors)
          (cools || (not (leb 3 errors) && leb 1 errors))

-- The risk of an account whose status is there: critical if it is logged out or challenged, else high if
-- it is not active or has three or more error events, else medium if it cools down or has an error
-- event, else low.
pub evaluate_risk_exact :
    (p : Ports) (s : State) (a : Status)
    → s.account_status ≡ some a
    → (evaluate_risk_node p s).risk_level
      ≡ some (
          if is_other "logged_in" a.login_state || a.is_challenged
          then "critical"
          else if is_other "active" a.status || leb 3 (error_count s.recent_events)
          then "high"
          else if is_later a.cooldown_until (p.time s.step_count)
              || leb 1 (error_count s.recent_events)
          then "medium"
          else "low")
unfolding evaluate_risk_node assessed
evaluate_risk_exact p s a g =
    ap (λ o. some (assessed o s.recent_events (p.time s.step_count)).1) g
    ∙ ap some (
        rules-level (is_other "active" a.status) (is_other "logged_in" a.login_state)
          (is_later a.cooldown_until (p.time s.step_count)) (error_count s.recent_events)
          a.is_challenged
        ∙ more (is_other "logged_in" a.login_state || a.is_challenged) (is_other "active" a.status)
            (is_later a.cooldown_until (p.time s.step_count)) (leb 3 (error_count s.recent_events))
            (leb 1 (error_count s.recent_events)))
  where
    more : (c h m e3 e1 : Bool) → top c (h || e3) (m || (not e3 && e1)) ≡ top c (h || e3) (m || e1)
    more true h m e3 e1 = refl
    more false true m e3 e1 = refl
    more false false m true e1 = refl
    more false false m false e1 = refl
