-- ===== src/Base/Dict.antt =====
-- Go's `map[string]V`. A nil map is `none` where the code tells it from an empty one; the program
-- iterates over a map only in `RunFeatureScript`, whose order Go leaves open.
use Prim.Native.String.{String}
use mathlib.Core.Path.{◌≡◌, refl}
use mathlib.Core.Logic.{◌≢◌, inl, inr}
use mathlib.Core.Option.{Option, none, some}
use mathlib.Core.List.{List, [], ◌∷◌}
use native.Mathlib.Omega.{arith}
use text.Mathlib.Text.{◌==◌}
use text.Mathlib.TextEquality.{eq_iff}
use k4all_operator.Base.Tests.{if◌then◌else◌, Option-cases}

abbrev pub Dict {ℓ} : Type ℓ → Type ℓ
Dict V = List (String × V)

module _ {ℓ} {V : Type ℓ} where
  -- v, ok := d[k]
  unfoldable pub lookup : String → Dict V → Option V
  lookup k [] = none
  lookup k ((j, v) ∷ d) = if j == k then some v else lookup k d

  -- d[k] = v
  unfoldable pub insert : String → V → Dict V → Dict V
  insert k v [] = (k, v) ∷ []
  insert k v ((j, w) ∷ d) = if j == k then (k, v) ∷ d else (j, w) ∷ insert k v d

  pub lookup-nil : (k : String) → lookup k [] ≡ none
  unfolding lookup
  lookup-nil k = refl

  pub lookup-insert :
      (k j : String) (v : V) (d : Dict V)
      → lookup j (insert k v d) ≡ (if k == j then some v else lookup j d)
  unfolding lookup insert
  lookup-insert k j v [] = refl
  lookup-insert k j v ((i, w) ∷ d) =
      ground (arith, eq_iff k j, eq_iff i k, eq_iff i j, lookup-insert k j v d)

  pub lookup-insert_self : (k : String) (v : V) (d : Dict V) → lookup k (insert k v d) ≡ some v
  lookup-insert_self k v d = ground (arith, lookup-insert k k v d, eq_iff k k)

-- d[k] for a map of texts: the zero value, "", where the key is missing
unfoldable pub text_at : String → Dict String → String
text_at k d = elim (lookup k d) [ none ↦ "" | some v ↦ v ]

pub text_at-insert : (k v : String) (d : Dict String) → text_at k (insert k v d) ≡ v
unfolding text_at
text_at-insert k v d = rw (lookup-insert_self, text_at)

-- An entry that does not read as "" is there.
pub lookup-text_at :
    (k t : String) (d : Dict String) → text_at k d ≡ t → t ≢ "" → lookup k d ≡ some t
unfolding text_at
lookup-text_at k t d holds nonempty = elim (Option-cases (lookup k d)) [
  | inl absent ↦ absurd (nonempty (ground (arith, absent, holds)))
  | inr (v, found) ↦ ground (arith, found, holds)
]
