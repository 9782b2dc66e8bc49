-- ===== src/Tests/RateWindows.antt =====
-- Runs of the sliding-window limiter, with a window of sixty ticks.
use insta.Prelude.{◌+◌, ◌*◌, ◌≤◌, ltb, ◌≡◌, ◌⊎◌, refl, true, false, none, [], ◌∷◌, arith}
use insta.Prelude.Dict
use insta.RateWindow.{
  Settings, Bucket, Counter, record_hit, rate, hit, middleware, enabled, limit_of,
}
use insta.RateWindow.Bounds.{hits, hits_bound, recovers}
use insta.RateWindow.Keys.{is_too_many, hit_exact, idle_client_refused}

abbrev settings : Settings
settings = record { rpm = 2; burst = 1; exclude_paths = "/health" ∷ [] }

abbrev busy : Bucket
busy = record { current = 4; previous = 1; start = 100 }

abbrev calm : Bucket
calm = record { current = 1; previous = 0; start = 500 }

abbrev counter : Counter
counter = record { buckets = ("a", busy) ∷ ("b", calm) ∷ []; last_cleanup = 90 }

hits_bound_example :
    ((hits 60 3 calm (540 ∷ 541 ∷ 542 ∷ [])).1 ≡ 0)
    ⊎ (2 * (hits 60 3 calm (540 ∷ 541 ∷ 542 ∷ [])).1 + 1 ≤ 6)
hits_bound_example =
    hits_bound 60 3 calm 540 (omega arith) (541 ∷ 542 ∷ []) (omega arith)
      ((omega arith, omega arith), ((omega arith, omega arith), tt))

two_accepted : (hits 60 3 calm (540 ∷ 541 ∷ 542 ∷ [])).1 ≡ 2
unfolding hits
two_accepted = refl

recovers_run : ltb 180 (rate 60 (record_hit 60 (record_hit 60 busy 200) 230) 230) ≡ false
recovers_run = recovers 60 3 busy 200 230 (omega arith) (omega arith) (omega arith)

hit_exact_example : Dict.get (hit 1 60 counter 510 "b").0.buckets "a" ≡ none
unfolding Dict.get Dict.has_key
hit_exact_example = hit_exact 1 60 counter 510 "b" "a" (refl, (refl, tt))

idle_client_refused_example :
    is_too_many (middleware 1 60 settings counter 9999 "GET" "/posts" "a").1 ≡ true
unfolding limit_of enabled Dict.get
idle_client_refused_example =
    idle_client_refused 1 60 settings counter 9999 "GET" "/posts" "a" busy refl refl refl
      (omega arith) refl (omega arith)
