-- ===== src/Engagement/Graph/Keeps.antt =====
-- What the nodes before the approval leave as it was.
use insta.Prelude.{Bool, true, false, Option, none, some, List, [], ◌∷◌, ◌≡◌, refl, arith}
use insta.Engagement.State.{AccountHealth, AuditEvent, State, World, Ports}
use insta.Engagement.Nodes.Context.{
  load_account_context_node, load_with, refresh, after_refresh, settle_context, context_failed,
  attempted, refreshed,
}
use insta.Engagement.Nodes.{emit}
use insta.Engagement.Nodes.Discovery.{
  discover_candidates_node, rank_candidates_node, discover_with, discovered, ranked,
}
use insta.Engagement.Nodes.DraftRisk.{
  draft_action_node, score_risk_node, drafted, score_with, scored,
}

-- What the early nodes leave as it was.
abbrev pub Keeps : State → World → State × World → Type 0
Keeps s w (s', w') =
    (w'.executed ≡ w.executed) × (s'.mode ≡ s.mode) × (s'.approval_result ≡ s.approval_result)

settle_context-Keeps :
    (h : AccountHealth) (before : List AuditEvent) (s : State) (w : World)
    → Keeps s w (settle_context h before s w)
unfolding settle_context
settle_context-Keeps h before s w = ground arith

context_failed-Keeps : (s : State) (w : World) → Keeps s w (context_failed s w)
unfolding context_failed
context_failed-Keeps s w = (refl, refl, refl)

after_refresh-Keeps :
    (o : Option AccountHealth) (s : State) (w : World) → Keeps s w (after_refresh o s w)
unfolding after_refresh
after_refresh-Keeps none s w = context_failed-Keeps s w
after_refresh-Keeps (some h) s w =
    settle_context-Keeps h (attempted ∷ refreshed ∷ []) s (emit refreshed w)

refresh-Keeps :
    (p : Ports) (h : AccountHealth) (o : Option Bool) (s : State) (w : World)
    → Keeps s w (refresh p h o s w)
unfolding refresh
refresh-Keeps p h none s w = context_failed-Keeps s w
refresh-Keeps p h (some true) s w =
    after_refresh-Keeps (p.get_account_context true s.account_id) s w
refresh-Keeps p h (some false) s w = after_refresh-Keeps (some h) s w

pub load-Keeps : (p : Ports) (s : State) (w : World) → Keeps s w (load_account_context_node p s w)
unfolding load_account_context_node load_with
load-Keeps p s w = go (p.get_account_context false s.account_id)
  where
    go : (o : Option AccountHealth) → Keeps s w (load_with p o s w)
    go none = context_failed-Keeps s w
    go (some h) = ground (
      arith,
      settle_context-Keeps h [] s w,
      refresh-Keeps p h (p.try_refresh_session s.account_id) s (emit attempted w),
    )

pub discover-Keeps :
    (p : Ports) (s : State) (w : World) → Keeps s w (discover_candidates_node p s w)
unfolding discover_candidates_node discover_with discovered
discover-Keeps p s w = ground arith

pub rank-Keeps : (p : Ports) (s : State) (w : World) → Keeps s w (rank_candidates_node p s w)
unfolding rank_candidates_node ranked
rank-Keeps p s w = ground arith

pub draft-Keeps : (s : State) (w : World) → Keeps s w (draft_action_node s w)
unfolding draft_action_node drafted
draft-Keeps s w = ground arith

pub score-Keeps : (p : Ports) (s : State) (w : World) → Keeps s w (score_risk_node p s w)
unfolding score_risk_node score_with scored
score-Keeps p s w = ground arith
