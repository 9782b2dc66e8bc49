-- ===== src/Engagement/Nodes/Choice.antt =====
-- Which target a run acts on: what discovery lets through and what ranking picks.
use insta.Prelude.{
  ℕ, ◌≤◌, leb, String, true, false, ◌||◌, Option, none, some, List, [], ◌∷◌, ◌++◌, All, ◌≡◌, refl,
  sym, subst, leb→le, ◌⊎◌, Bool-cases, inl, inr, arith,
}
use insta.Prelude.StringSet.{member}
use insta.Engagement.State.{Target, State, World, Ports}
use insta.Engagement.Nodes.Discovery.{
  recalled, excluded_ids, not_excluded, discovered, discover_with, discover_candidates_node, best,
}

All-not_excluded :
    (excluded : List String) (cs : List Target)
    → All (λ c. member excluded c.target_id ≡ false) (not_excluded excluded cs)
unfolding not_excluded
All-not_excluded excluded [] = tt
All-not_excluded excluded (c ∷ cs) = ground (arith, All-not_excluded excluded cs)

member-append :
    (xs ys : List String) (z : String) → member (xs ++ ys) z ≡ (member xs z || member ys z)
member-append [] ys z = refl
member-append (x ∷ xs) ys z = ground (arith, member-append xs ys z)

-- Which recalled ids a target is free of, given what the two recalls answered.
abbrev pub IsFresh : List String → List String → Target → Type 0
IsFresh recent rejected c =
    (member recent c.target_id ≡ false) × (member rejected c.target_id ≡ false)

All-IsFresh :
    (recent rejected : List String) (cs : List Target)
    → All (λ c. member (recent ++ rejected) c.target_id ≡ false) cs
    → All (IsFresh recent rejected) cs
All-IsFresh recent rejected [] h = tt
All-IsFresh recent rejected (c ∷ cs) h = (
  ground (arith, h.0, member-append recent rejected c.target_id),
  All-IsFresh recent rejected cs h.1,
)

discovered-targets :
    (cs : List Target) (s : State) (w : World) → (discovered cs s w).0.candidate_targets ≡ cs
unfolding discovered
discovered-targets [] s w = refl
discovered-targets (c ∷ cs) s w = refl

first_discovery :
    (p : Ports) (s : State) (w : World)
    → s.discovery_attempted ≡ false
    → discover_candidates_node p s w
      ≡ discover_with p (p.discover_candidates s.account_id s.goal s.max_targets) s w
unfolding discover_candidates_node
first_discovery p s w a = ground arith

module _ (p : Ports) (s : State) (w : World) (recent rejected : List String) where
  recalled_ids :
      (c : Target) (cs : List Target)
      → p.has_memory ≡ true
      → p.recall_recent_engagements s.account_id ≡ some recent
      → p.recall_rejected_targets s.account_id ≡ some rejected
      → excluded_ids p s.account_id (c ∷ cs) ≡ recent ++ rejected
  unfolding excluded_ids recalled
  recalled_ids c cs m r j = ground arith

  discover_with-IsFresh :
      p.has_memory ≡ true
      → p.recall_recent_engagements s.account_id ≡ some recent
      → p.recall_rejected_targets s.account_id ≡ some rejected
      → (o : Option (List Target))
      → All (IsFresh recent rejected) (discover_with p o s w).0.candidate_targets
  unfolding discover_with
  discover_with-IsFresh m r j none = tt
  discover_with-IsFresh m r j (some []) = unfold not_excluded discovered in tt
  discover_with-IsFresh m r j (some (c ∷ cs)) =
      let excluded = excluded_ids p s.account_id (c ∷ cs) in
      let left = not_excluded excluded (c ∷ cs) in
      subst (All (IsFresh recent rejected)) (sym (discovered-targets left s w)) (
        All-IsFresh recent rejected left (
          subst (λ ids. All (λ d. member ids d.target_id ≡ false) left) (recalled_ids c cs m r j)
            (All-not_excluded excluded (c ∷ cs))))

-- The first discovery of a run with a memory that answers lets no target through that was engaged
-- recently or was rejected.
pub discover_candidates-IsFresh :
    (p : Ports) (s : State) (w : World) (recent rejected : List String)
    → s.discovery_attempted ≡ false
    → p.has_memory ≡ true
    → p.recall_recent_engagements s.account_id ≡ some recent
    → p.recall_rejected_targets s.account_id ≡ some rejected
    → All (IsFresh recent rejected) (discover_candidates_node p s w).0.candidate_targets
discover_candidates-IsFresh p s w recent rejected a m r j =
    subst (λ o. All (IsFresh recent rejected) o.0.candidate_targets) (sym (first_discovery p s w a))
      (discover_with-IsFresh p s w recent rejected m r j
        (p.discover_candidates s.account_id s.goal s.max_targets))

abbrev pub Occurs : Target → List Target → Type 0
Occurs c [] = ⊥
Occurs c (d ∷ ds) = (c ≡ d) ⊎ Occurs c ds

abbrev pub IsTop : (Target → ℕ) → Target → List Target → Type 0
IsTop score b cs = All (λ c. score c ≤ score b) cs

IsTop-le :
    (score : Target → ℕ) (b c : Target) (cs : List Target)
    → score b ≤ score c
    → IsTop score b cs
    → IsTop score c cs
IsTop-le score b c [] h t = tt
IsTop-le score b c (d ∷ ds) h t = (omega (arith, t.0), IsTop-le score b c ds h t.1)

abbrev pub IsBest : (Target → ℕ) → List Target → Target → Type 0
IsBest score cs b = Occurs b cs × IsTop score b cs

best_first :
    (score : Target → ℕ) (c d : Target) (cs : List Target)
    → leb (score (best score d cs)) (score c) ≡ true
    → best score c (d ∷ cs) ≡ c
unfolding best
best_first score c d cs e = ground arith

best_rest :
    (score : Target → ℕ) (c d : Target) (cs : List Target)
    → leb (score (best score d cs)) (score c) ≡ false
    → best score c (d ∷ cs) ≡ best score d cs
unfolding best
best_rest score c d cs e = ground arith

-- The target that ranking picks is one of the candidates, and none scores higher.
pub best-IsBest :
    (score : Target → ℕ) (c : Target) (cs : List Target) → IsBest score (c ∷ cs) (best score c cs)
unfolding best
best-IsBest score c [] = (inl refl, (omega arith, tt))
best-IsBest score c (d ∷ cs) =
    let (there, top) = best-IsBest score d cs in
    elim (Bool-cases (leb (score (best score d cs)) (score c))) [
      | inl e ↦
          subst (IsBest score (c ∷ d ∷ cs)) (sym (best_first score c d cs e)) (
            inl refl,
            (omega arith, IsTop-le score (best score d cs) c (d ∷ cs) (leb→le _ _ e) top),
          )
      | inr e ↦
          subst (IsBest score (c ∷ d ∷ cs)) (sym (best_rest score c d cs e))
            (inr there, (ground arith, top))
    ]
