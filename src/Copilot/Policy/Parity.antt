-- ===== src/Copilot/Policy/Parity.antt =====
-- `build_parity_report` of backend/ai_copilot/application/operator_copilot_policy.py: does the runtime
-- tool registry list exactly the classified names but the documented exceptions?
use insta.Prelude.{
  String, str_eq, eq_iff, ◌≡◌, ◌↔◌, inl, inr, refl, Bool, Bool-cases, true, false, not, ◌&&◌,
  Option, List, [], ◌∷◌, map, keep, all, arith,
}
use insta.Prelude.Dict
use insta.Prelude.StringSet.{member, sorted_set, difference, intersection, member-keep}
use insta.Copilot.Policy.{classifications, policy_only_exceptions}

pub record ParityReport : Type 0 where
  pub registered_only : List String
  pub policy_only : List String
  pub intentional_exceptions : List String
  pub policy_only_unexpected : List String
  pub stale_intentional_exceptions : List String
  pub intentional_exception_reasons : List (String × Option String)
  pub is_parity_ok : Bool

abbrev is_nil : List String → Bool
is_nil [] = true
is_nil (x ∷ xs) = false

unfoldable pub classified_tool_names : List String
classified_tool_names = sorted_set (Dict.keys classifications)

unfoldable pub declared_exceptions : List String
declared_exceptions = sorted_set (Dict.keys policy_only_exceptions)

-- `{name for name in registered_tool_names if name}`
unfoldable pub registered_names : List String → List String
registered_names names = sorted_set (keep (λ name. not (str_eq name "")) names)

unfoldable pub build_parity_report : List String → ParityReport
unfolding registered_names difference intersection
build_parity_report registered_tool_names =
    let registered = registered_names registered_tool_names in
    let policy = classified_tool_names in
    let policy_only = difference policy registered in
    let registered_only = difference registered policy in
    let intentional_exceptions = intersection policy_only declared_exceptions in
    let policy_only_unexpected = difference policy_only declared_exceptions in
    let stale = difference declared_exceptions policy_only in
    record {
      registered_only = registered_only;
      policy_only = policy_only;
      intentional_exceptions = intentional_exceptions;
      policy_only_unexpected = policy_only_unexpected;
      stale_intentional_exceptions = stale;
      intentional_exception_reasons =
          map (λ name. (name, Dict.get policy_only_exceptions name)) intentional_exceptions;
      is_parity_ok = is_nil registered_only && (is_nil policy_only_unexpected && is_nil stale);
    }

nil_of_not_member : (xs : List String) → ((z : String) → member xs z ≡ false) → is_nil xs ≡ true
nil_of_not_member [] h = refl
nil_of_not_member (x ∷ xs) h = ground (arith, h x, eq_iff x x)

not_member_of_nil : (xs : List String) (z : String) → is_nil xs ≡ true → member xs z ≡ false
not_member_of_nil [] z h = refl
not_member_of_nil (x ∷ xs) z h = ground arith

subset_member :
    (xs ys : List String) (z : String)
    → all (λ x. member ys x) xs ≡ true
    → member xs z ≡ true
    → member ys z ≡ true
subset_member [] ys z h m = ground arith
subset_member (x ∷ xs) ys z h m = elim (Bool-cases (str_eq x z)) [
  | inl e ↦ rw (← (eq_iff x z).0 e) (ground arith)
  | inr e ↦ subset_member xs ys z (ground arith) (ground arith)
]

-- What the registry should list: the classified names that are not exceptions.
abbrev pub expected : String → Bool
expected name = member classified_tool_names name && not (member declared_exceptions name)

exceptions_classified : all (λ x. member classified_tool_names x) declared_exceptions ≡ true
unfolding declared_exceptions classified_tool_names sorted_set
exceptions_classified = refl

module _ (r p e : List String) where
  member-unexpected :
      (z : String)
      → member (difference (difference p r) e) z
        ≡ ((member p z && not (member r z)) && not (member e z))
  unfolding difference
  member-unexpected z = ground (
    arith,
    member-keep (λ x. not (member e x)) (keep (λ x. not (member r x)) p) z,
    member-keep (λ x. not (member r x)) p z,
  )

  member-stale :
      (z : String)
      → member (difference e (difference p r)) z
        ≡ (member e z && not (member p z && not (member r z)))
  unfolding difference
  member-stale z = ground (
    arith,
    member-keep (λ x. not (member (keep (λ x. not (member r x)) p) x)) e z,
    member-keep (λ x. not (member r x)) p z,
  )

  member-extra : (z : String) → member (difference r p) z ≡ (member r z && not (member p z))
  unfolding difference
  member-extra z = member-keep (λ x. not (member p x)) r z

  abbrev parity : Bool
  parity =
      is_nil (difference r p)
      && (is_nil (difference (difference p r) e) && is_nil (difference e (difference p r)))

  -- For any three sets, the exceptions among the policy names.
  parity_iff :
      all (λ x. member p x) e ≡ true
      → (parity ≡ true) ↔ ((z : String) → member r z ≡ (member p z && not (member e z)))
  parity_iff sub = (
    λ h z. ground (
      arith,
      not_member_of_nil (difference r p) z,
      not_member_of_nil (difference (difference p r) e) z,
      not_member_of_nil (difference e (difference p r)) z,
      member-extra z,
      member-unexpected z,
      member-stale z,
      subset_member e p z sub,
    ),
    λ h. ground (
      arith,
      nil_of_not_member (difference r p)
          (λ z. ground (arith, member-extra z, h z, subset_member e p z sub)),
      nil_of_not_member (difference (difference p r) e)
          (λ z. ground (arith, member-unexpected z, h z, subset_member e p z sub)),
      nil_of_not_member (difference e (difference p r))
          (λ z. ground (arith, member-stale z, h z, subset_member e p z sub)),
    ),
  )

-- The report says that parity holds exactly when the non-empty registered names are the classified
-- names without the documented exceptions.
pub is_parity_ok_iff :
    (names : List String)
    → ((build_parity_report names).is_parity_ok ≡ true)
      ↔ ((z : String) → member (registered_names names) z ≡ expected z)
unfolding build_parity_report
is_parity_ok_iff names =
    parity_iff (registered_names names) classified_tool_names declared_exceptions
      exceptions_classified
