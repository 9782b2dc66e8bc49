-- ===== src/Prelude/DictLaws.antt =====
-- Dictionaries whose keys are distinct, as Python's are: the operations keep them so, and a filter on
-- values commutes with lookup.
use Prim.Native.String.{String}
use mathlib.Core.Path.{◌≡◌, refl}
use mathlib.Core.Bool.{Bool, false, ◌||◌}
use mathlib.Core.Option.{Option, none, some}
use mathlib.Core.Logic.{inl, inr}
use mathlib.Core.List.{[], ◌∷◌}
use native.Mathlib.Omega.{arith}
use text.Mathlib.Text.{◌==◌ as str_eq}
use text.Mathlib.TextEquality.{eq_iff}
use insta.Prelude.Tests.{if◌then◌else◌, Bool-cases}
use insta.Prelude.Dict.{Dict, get, put, pop, has_key, filter_values, none_of_has_key}

module _ {ℓ} {V : Type ℓ} where
  abbrev pub IsUnique : Dict V → Type 0
  IsUnique [] = Unit
  IsUnique ((k, v) ∷ d) = (has_key d k ≡ false) × IsUnique d

  has_key-put :
      (d : Dict V) (k j : String) (v : V) → has_key (put d k v) j ≡ (str_eq k j || has_key d j)
  unfolding has_key put
  has_key-put [] k j v = ground arith
  has_key-put ((i, w) ∷ d) k j v =
      ground (arith, eq_iff k j, eq_iff i k, eq_iff i j, has_key-put d k j v)

  pub put-IsUnique : (d : Dict V) (k : String) (v : V) → IsUnique d → IsUnique (put d k v)
  unfolding put has_key
  put-IsUnique [] k v h = (refl, tt)
  put-IsUnique ((i, w) ∷ d) k v h =
      ground (arith, has_key-put d k i v, put-IsUnique d k v, eq_iff k i, eq_iff i k)

  has_key-pop : (d : Dict V) (k j : String) → has_key d j ≡ false → has_key (pop d k) j ≡ false
  unfolding has_key pop
  has_key-pop [] k j h = refl
  has_key-pop ((i, w) ∷ d) k j h = ground (arith, has_key-pop d k j)

  pub pop-IsUnique : (d : Dict V) (k : String) → IsUnique d → IsUnique (pop d k)
  unfolding pop
  pop-IsUnique [] k h = tt
  pop-IsUnique ((i, w) ∷ d) k h = ground (arith, has_key-pop d k i, pop-IsUnique d k)

  module _ (p : V → Bool) where
    has_key-filter_values :
        (d : Dict V) (j : String) → has_key d j ≡ false → has_key (filter_values p d) j ≡ false
    unfolding has_key filter_values
    has_key-filter_values [] j h = refl
    has_key-filter_values ((i, w) ∷ d) j h = ground (arith, has_key-filter_values d j)

    pub filter_values-IsUnique : (d : Dict V) → IsUnique d → IsUnique (filter_values p d)
    unfolding filter_values
    filter_values-IsUnique [] h = tt
    filter_values-IsUnique ((i, w) ∷ d) h =
        ground (arith, has_key-filter_values d i, filter_values-IsUnique d)

    -- the value, if it passes the test
    abbrev pub passing : Option V → Option V
    passing none = none
    passing (some v) = if p v then some v else none

    pub get-filter_values :
        (d : Dict V) (j : String) → IsUnique d → get (filter_values p d) j ≡ passing (get d j)
    unfolding get filter_values
    get-filter_values [] j h = refl
    get-filter_values ((i, w) ∷ d) j h = elim (Bool-cases (str_eq i j)) [
      | inl e ↦ ground (arith, eq_iff i j, get-filter_values d j, none_of_has_key d i)
      | inr e ↦ ground (arith, get-filter_values d j)
    ]
