-- ===== src/Prelude/Dict.antt =====
-- Python's `dict` with text keys, as a list of entries in insertion order.
use Prim.Native.String.{String}
use mathlib.Core.Path.{◌≡◌, refl}
use mathlib.Core.Bool.{Bool, true, false}
use mathlib.Core.Option.{Option, none, some}
use mathlib.Core.List.{List, [], ◌∷◌, map}
use native.Mathlib.Omega.{arith}
use text.Mathlib.Text.{◌==◌ as str_eq}
use text.Mathlib.TextEquality.{eq_iff}
use insta.Prelude.Tests.{if◌then◌else◌}

abbrev pub Dict {ℓ} : Type ℓ → Type ℓ
Dict V = List (String × V)

module _ {ℓ} {V : Type ℓ} where
  -- `d.get(k)`
  unfoldable pub get : Dict V → String → Option V
  get [] k = none
  get ((j, v) ∷ d) k = if str_eq j k then some v else get d k

  -- `d[k] = v`
  unfoldable pub put : Dict V → String → V → Dict V
  put [] k v = (k, v) ∷ []
  put ((j, w) ∷ d) k v = if str_eq j k then (j, v) ∷ d else (j, w) ∷ put d k v

  -- `d.pop(k, None)`, `del d[k]`
  unfoldable pub pop : Dict V → String → Dict V
  pop [] k = []
  pop ((j, w) ∷ d) k = let rest = pop d k in if str_eq j k then rest else (j, w) ∷ rest

  -- `k in d`
  unfoldable pub has_key : Dict V → String → Bool
  has_key [] k = false
  has_key ((j, v) ∷ d) k = if str_eq j k then true else has_key d k

  pub get-put :
      (d : Dict V) (k j : String) (v : V)
      → get (put d k v) j ≡ (if str_eq k j then some v else get d j)
  unfolding get put
  get-put [] k j v = refl
  get-put ((i, w) ∷ d) k j v = ground (arith, eq_iff k j, eq_iff i k, eq_iff i j, get-put d k j v)

  pub get-pop :
      (d : Dict V) (k j : String) → get (pop d k) j ≡ (if str_eq k j then none else get d j)
  unfolding get pop
  get-pop [] k j = ground arith
  get-pop ((i, w) ∷ d) k j = ground (arith, eq_iff k j, eq_iff i k, eq_iff i j, get-pop d k j)

  pub has_key_of_none : (d : Dict V) (k : String) → get d k ≡ none → has_key d k ≡ false
  unfolding get has_key
  has_key_of_none [] k h = refl
  has_key_of_none ((j, v) ∷ d) k h = ground (arith, has_key_of_none d k)

  pub none_of_has_key : (d : Dict V) (k : String) → has_key d k ≡ false → get d k ≡ none
  unfolding get has_key
  none_of_has_key [] k h = refl
  none_of_has_key ((j, v) ∷ d) k h = ground (arith, none_of_has_key d k)

-- The entries whose value passes a test, `{k: v for k, v in d.items() if p(v)}`.
module _ {ℓ} {V : Type ℓ} where
  unfoldable pub filter_values : (V → Bool) → Dict V → Dict V
  filter_values p [] = []
  filter_values p ((j, v) ∷ d) =
      let rest = filter_values p d in elim (p v) [ true ↦ (j, v) ∷ rest | false ↦ rest ]

abbrev pub keys {ℓ} : {V : Type ℓ} → Dict V → List String
keys = map (λ e. e.0)
