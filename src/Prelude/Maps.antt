-- ===== src/Prelude/Maps.antt =====
-- Maps with texts as keys, as the configuration has them: nil, or the entries in the order of an
-- iteration.
use Prim.Native.String.{String}
use mathlib.Core.Path.{◌≡◌, refl}
use mathlib.Core.Bool.{Bool, true, false, ◌||◌}
use mathlib.Core.Option.{Option, none, some}
use mathlib.Core.List.{List, [], ◌∷◌}
use mathlib.Core.Logic.{inl, inr}
use native.Mathlib.Omega.{arith}
use tpm_go.Prelude.Tests.{if◌then◌else◌, Bool-cases}
use tpm_go.Prelude.Lists.{All}
use tpm_go.Prelude.Text.{◌==◌, eq_iff}

module _ {ℓ} {A : Type ℓ} where
  abbrev pub lookup : String → List (String × A) → Option A
  lookup k [] = none
  lookup k ((j, v) ∷ es) = if k == j then some v else lookup k es

  -- `_, found := m[k]`
  abbrev pub has : String → List (String × A) → Bool
  has k [] = false
  has k ((j, v) ∷ es) = (k == j) || has k es

  -- m[k] = v
  abbrev pub insert : String → A → List (String × A) → List (String × A)
  insert k v [] = (k, v) ∷ []
  insert k v ((j, w) ∷ es) = if k == j then (k, v) ∷ es else (j, w) ∷ insert k v es

  abbrev pub entries : Option (List (String × A)) → List (String × A)
  entries none = []
  entries (some es) = es

  pub has-insert :
      (k j : String) (v : A) (es : List (String × A))
      → has k (insert j v es) ≡ ((k == j) || has k es)
  has-insert k j v [] = refl
  has-insert k j v ((i, w) ∷ es) =
      ground (arith, eq_iff j i, eq_iff k j, eq_iff k i, has-insert k j v es)

  pub lookup-has :
      (k : String) (es : List (String × A)) → has k es ≡ true → (v : A) × (lookup k es ≡ some v)
  lookup-has k [] h = cc
  lookup-has k ((j, v) ∷ es) h = elim (Bool-cases (k == j)) [
    | inl e ↦ (v, rw e refl)
    | inr e ↦ rw e (lookup-has k es (rw e at h))
  ]

  pub All-insert {κ} :
      (P : String × A → Type κ) (k : String) (v : A) (es : List (String × A))
      → P (k, v)
      → All P es
      → All P (insert k v es)
  All-insert P k v [] p h = (p, tt)
  All-insert P k v ((j, w) ∷ es) p h = elim (Bool-cases (k == j)) [
    | inl e ↦ rw e (p, h.1)
    | inr e ↦ rw e (h.0, All-insert P k v es p h.1)
  ]

  pub lookup-insert :
      (k j : String) (v : A) (es : List (String × A))
      → lookup k (insert j v es) ≡ (if k == j then some v else lookup k es)
  lookup-insert k j v [] = refl
  lookup-insert k j v ((i, w) ∷ es) =
      ground (arith, eq_iff j i, eq_iff k j, eq_iff k i, lookup-insert k j v es)

  pub has-lookup :
      (k : String) (v : A) (es : List (String × A)) → lookup k es ≡ some v → has k es ≡ true
  has-lookup k v [] h = cc
  has-lookup k v ((j, w) ∷ es) h = elim (Bool-cases (k == j)) [
    | inl e ↦ rw e refl
    | inr e ↦ rw (e, has-lookup k v es (rw e at h)) refl
  ]
