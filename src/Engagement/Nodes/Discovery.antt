-- ===== src/Engagement/Nodes/Discovery.antt =====
-- backend/ai_copilot/application/smart_engagement/nodes/discovery.py.
use insta.Prelude.{
  ℕ, leb, String, Bool, true, false, not, ◌&&◌, Option, none, some, List, [], ◌∷◌, ◌++◌, keep,
  if◌then◌else◌,
}
use insta.Prelude.StringSet.{member}
use insta.Engagement.State.{
  Target, discovery_repeated, nothing_found, discovery_error, State, World, Ports,
}
use insta.Engagement.Nodes.{note}

-- What is known of past engagements when the recalls end or raise.
unfoldable pub recalled : Option (List String) → Option (List String) → List String
recalled none rejected = []
recalled (some recent) none = recent
recalled (some recent) (some rejected) = recent ++ rejected

abbrev pub has_any {ℓ} : {A : Type ℓ} → List A → Bool
has_any [] = false
has_any (x ∷ xs) = true

unfoldable pub excluded_ids : Ports → String → List Target → List String
unfolding recalled
excluded_ids p account_id candidates =
    if p.has_memory && has_any candidates
    then recalled (p.recall_recent_engagements account_id) (p.recall_rejected_targets account_id)
    else []

unfoldable pub not_excluded : List String → List Target → List Target
not_excluded excluded candidates = keep (λ c. not (member excluded c.target_id)) candidates

unfoldable pub discovered : List Target → State → World → State × World
discovered [] s w =
    note "action_skipped" "discover_candidates"
      (record s {
        candidate_targets = [];
        discovery_attempted = true;
        outcome_reason = some nothing_found;
        stop_reason = some "no_candidates";
      })
      w
discovered (c ∷ rest) s w =
    note "candidates_discovered" "discover_candidates"
      (record s { candidate_targets = c ∷ rest; discovery_attempted = true }) w

unfoldable pub discover_with : Ports → Option (List Target) → State → World → State × World
unfolding excluded_ids not_excluded discovered
discover_with p none s w =
    note "node_error" "discover_candidates"
      (record s {
        candidate_targets = [];
        discovery_attempted = true;
        outcome_reason = some discovery_error;
        stop_reason = some "error";
      })
      w
discover_with p (some candidates) s w =
    discovered (not_excluded (excluded_ids p s.account_id candidates) candidates) s w

unfoldable pub discover_candidates_node : Ports → State → World → State × World
unfolding discover_with
discover_candidates_node p s w =
    if s.discovery_attempted
    then (
      record s {
        outcome_reason = some discovery_repeated;
        stop_reason = some "discovery_limit_reached";
      },
      w,
    )
    else discover_with p (p.discover_candidates s.account_id s.goal s.max_targets) s w

-- The head of the list sorted by falling score: the sort is stable, so it is the first of the best.
unfoldable pub best : (Target → ℕ) → Target → List Target → Target
best score c [] = c
best score c (d ∷ rest) = let b = best score d rest in if leb (score b) (score c) then c else b

unfoldable pub ranked : (Target → ℕ) → List Target → State → World → State × World
unfolding best
ranked score [] s w = (record s { selected_target = none }, w)
ranked score (c ∷ rest) s w =
    note "target_selected" "rank_candidates"
      (record s { selected_target = some (best score c rest) }) w

unfoldable pub rank_candidates_node : Ports → State → World → State × World
unfolding ranked
rank_candidates_node p s w =
    ranked (λ c. p.score_candidate c s.structured_goal) s.candidate_targets s w
