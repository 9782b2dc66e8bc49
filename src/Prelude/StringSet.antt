-- ===== src/Prelude/StringSet.antt =====
-- Sets of texts as Python code sorts them: `sorted(set(xs))` and the set operations on them.
use Prim.Native.Nat.{Ordering}
use Prim.Native.String.{String, compare}
use mathlib.Core.Path.{◌≡◌, refl}
use mathlib.Core.Bool.{Bool, false, not, ◌&&◌, ◌||◌}
use mathlib.Core.List.{List, [], ◌∷◌}
use native.Mathlib.Omega.{arith}
use text.Mathlib.Text.{◌==◌ as str_eq}
use text.Mathlib.TextEquality.{eq_iff}
use mathlib.Core.Logic.{inl, inr}
use insta.Prelude.Tests.{Bool-cases}
use insta.Prelude.Lists.{keep}

-- `x in xs`
abbrev pub member : List String → String → Bool
member [] x = false
member (y ∷ ys) x = str_eq y x || member ys x

insert : String → List String → List String
insert x [] = x ∷ []
insert x (y ∷ ys) =
    let rest = insert x ys in
    elim (compare x y) [ Ordering.lt ↦ x ∷ y ∷ ys | Ordering.eq ↦ y ∷ ys | Ordering.gt ↦ y ∷ rest ]

-- `sorted(set(xs))`
unfoldable pub sorted_set : List String → List String
unfolding insert
sorted_set [] = []
sorted_set (x ∷ xs) = insert x (sorted_set xs)

-- `xs - ys`, of sets
unfoldable pub difference : List String → List String → List String
difference xs ys = keep (λ x. not (member ys x)) xs

-- `xs & ys`, of sets
unfoldable pub intersection : List String → List String → List String
intersection xs ys = keep (λ x. member ys x) xs

member-insert :
    (x z : String) (ys : List String) → member (insert x ys) z ≡ (str_eq x z || member ys z)
unfolding insert
member-insert x z [] = refl
member-insert x z (y ∷ ys) =
    ground (arith, member-insert x z ys, eq_iff x y, eq_iff x z, eq_iff y z)

pub member-sorted_set : (xs : List String) (z : String) → member (sorted_set xs) z ≡ member xs z
unfolding sorted_set
member-sorted_set [] z = refl
member-sorted_set (x ∷ xs) z =
    ground (arith, member-insert x z (sorted_set xs), member-sorted_set xs z)

-- Membership in a filtered list, for a test that respects equality of texts.
pub member-keep :
    (p : String → Bool) (xs : List String) (z : String)
    → member (keep p xs) z ≡ (member xs z && p z)
member-keep p [] z = refl
member-keep p (x ∷ xs) z = elim (Bool-cases (str_eq x z)) [
  | inl e ↦ rw (← (eq_iff x z).0 e) (ground (arith, member-keep p xs x, eq_iff x x))
  | inr e ↦ ground (arith, member-keep p xs z)
]
