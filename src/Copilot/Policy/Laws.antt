-- ===== src/Copilot/Policy/Laws.antt =====
-- What the classification table promises, and how the tests on lists of calls fit together.
use insta.Prelude.{
  String, ◌≡◌, refl, subst, Bool, true, false, not, List, [], ◌∷◌, all, keep, ◌++◌, ◌↔◌, all-not,
  all-keep, keep_of_all, arith,
}
use insta.Prelude.Dict
use insta.Prelude.Dict.{Dict}
use insta.Copilot.Values.{ToolCall}
use insta.Copilot.Policy.{
  ToolClassification, classifications, allowed_tools, blocked_tools, classify, is_write_sensitive,
  is_blocked, policy_of, has_blocked, has_write_sensitive, all_read_only, filter_executable,
  or_unknown,
}

same : Bool → Bool → Bool
same true b = b
same false b = not b

consistent : ToolClassification → Bool
consistent c = same c.requires_approval (is_write_sensitive c.policy)

table_consistent : all (λ e. consistent e.1) classifications ≡ true
unfolding consistent same
table_consistent = refl

lookup-consistent :
    (d : Dict ToolClassification) (k : String)
    → all (λ e. consistent e.1) d ≡ true
    → consistent (or_unknown (Dict.get d k)) ≡ true
unfolding Dict.get consistent same
lookup-consistent [] k h = refl
lookup-consistent ((j, c) ∷ d) k h = ground (arith, lookup-consistent d k)

-- For every tool name, known or not, approval is required exactly when the policy is
-- write-sensitive.
pub requires_approval_iff :
    (name : String) → (classify name).requires_approval ≡ is_write_sensitive (classify name).policy
unfolding classify consistent same
requires_approval_iff name = ground (arith, lookup-consistent classifications name table_consistent)

all_blocked : Dict ToolClassification → Bool
all_blocked = all (λ e. is_blocked e.1.policy)

none_blocked : Dict ToolClassification → Bool
none_blocked = all (λ e. not (is_blocked e.1.policy))

lookup-blocked :
    (e : Dict ToolClassification) (k : String)
    → all_blocked e ≡ true
    → is_blocked (or_unknown (Dict.get e k)).policy ≡ true
unfolding Dict.get all_blocked
lookup-blocked [] k h = refl
lookup-blocked ((j, c) ∷ e) k h = ground (arith, lookup-blocked e k)

lookup-append-blocked :
    (d e : Dict ToolClassification) (k : String)
    → none_blocked d ≡ true
    → all_blocked e ≡ true
    → is_blocked (or_unknown (Dict.get (d ++ e) k)).policy ≡ not (Dict.has_key d k)
unfolding Dict.get Dict.has_key none_blocked
lookup-append-blocked [] e k h g = lookup-blocked e k g
lookup-append-blocked ((j, c) ∷ d) e k h g = ground (arith, lookup-append-blocked d e k)

allowed_none_blocked : none_blocked allowed_tools ≡ true
unfolding none_blocked
allowed_none_blocked = refl

blocked_all_blocked : all_blocked blocked_tools ≡ true
unfolding all_blocked
blocked_all_blocked = refl

-- Unknown tools are denied: a name is blocked exactly when the read-only and write-sensitive parts of
-- the table do not list it.
pub blocked_iff :
    (name : String) → is_blocked (classify name).policy ≡ not (Dict.has_key allowed_tools name)
unfolding classify
blocked_iff name =
    lookup-append-blocked allowed_tools blocked_tools name allowed_none_blocked blocked_all_blocked

-- The list that `filter_executable` returns has no blocked call, and is the given list exactly when
-- that had none.
pub filter_executable_exact :
    (calls : List ToolCall)
    → (has_blocked (filter_executable calls) ≡ false)
      × ((filter_executable calls ≡ calls) ↔ (has_blocked calls ≡ false))
unfolding has_blocked filter_executable
filter_executable_exact calls = (
  ground (arith, all-not blocks kept, all-keep allows calls),
  (
    λ e. ground (arith, all-not blocks calls, subst AllAllowed e (all-keep allows calls)),
    λ h. keep_of_all allows calls (ground (arith, all-not blocks calls)),
  ),
)
  where
    blocks : ToolCall → Bool
    blocks call = is_blocked (policy_of call)

    allows : ToolCall → Bool
    allows call = not (is_blocked (policy_of call))

    kept : List ToolCall
    kept = keep allows calls

    AllAllowed : List ToolCall → Type 0
    AllAllowed l = all allows l ≡ true

-- Of the calls that are left, all are read-only exactly when none of the given calls is
-- write-sensitive.
pub all_read_only-filter_executable :
    (calls : List ToolCall)
    → all_read_only (filter_executable calls) ≡ not (has_write_sensitive calls)
unfolding all_read_only filter_executable has_write_sensitive
all_read_only-filter_executable [] = refl
all_read_only-filter_executable (c ∷ calls) = ground (arith, all_read_only-filter_executable calls)
