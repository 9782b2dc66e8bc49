-- ===== src/Tests/Cooldowns.antt =====
-- The rate-limit guard at a concrete history.
use insta.Prelude.{ℕ, ◌-◌, ltb, ◌≡◌, refl, none, some, List, [], ◌∷◌, arith}
use insta.Prelude.Dict
use insta.RateGuard.{is_limited, duration}
use insta.RateGuard.Deadlines.{
  Event, mark, query, snapshot, apply_all, deadline, next_deadline, is_limited_exact,
}

abbrev history : List (Event × ℕ)
history =
    (mark "a" (some "rate_limit") none, 10)
    ∷ (mark "a" (some "feedback_required") none, 20)
    ∷ (query "b", 30)
    ∷ (mark "b" none (some 5), 40)
    ∷ (snapshot, 50)
    ∷ []

-- The shorter second cooldown of "a" did not shorten the first.
deadline_of_a : deadline 1 history (λ _. 0) "a" ≡ 3610
unfolding deadline next_deadline duration Dict.get
deadline_of_a = refl

is_limited_exact_example :
    let (entries, limited, retry_after) = is_limited (apply_all 1 history []) 60 "a" in
    (limited ≡ ltb 60 (deadline 1 history (λ _. 0) "a"))
    × (retry_after ≡ deadline 1 history (λ _. 0) "a" - 60)
is_limited_exact_example = is_limited_exact 1 history 60 "a" (omega arith)
