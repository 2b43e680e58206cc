-- ===== src/Prelude/Merge.antt =====
-- Merges of two lists: each keeps its order.
use mathlib.Core.Path.{◌≡◌, refl, ap, ◌∙◌}
use mathlib.Core.List.{List, [], ◌∷◌, ◌++◌}
use native.Mathlib.Omega.{arith}
use tpm_go.Prelude.Lists.{All}

pub data IsMerge {A : Type 0} : List A → List A → List A → Type 0 where
  done : IsMerge [] [] []
  left : {x : A} {xs ys zs : List A} → IsMerge xs ys zs → IsMerge (x ∷ xs) ys (x ∷ zs)
  right : {y : A} {xs ys zs : List A} → IsMerge xs ys zs → IsMerge xs (y ∷ ys) (y ∷ zs)

-- A merge of any number of lists.
pub data IsMerged {A : Type 0} : List (List A) → List A → Type 0 where
  none_left : IsMerged [] []
  one_more :
      {xs ys zs : List A} {xss : List (List A)}
      → IsMerged xss ys
      → IsMerge xs ys zs
      → IsMerged (xs ∷ xss) zs

module _ {A : Type 0} where
  pub append_left :
      (firsts : List A) {xs ys zs : List A}
      → IsMerge xs ys zs
      → IsMerge (firsts ++ xs) ys (firsts ++ zs)
  append_left [] m = m
  append_left (x ∷ firsts) m = left (append_left firsts m)

  pub append_right :
      (firsts : List A) {xs ys zs : List A}
      → IsMerge xs ys zs
      → IsMerge xs (firsts ++ ys) (firsts ++ zs)
  append_right [] m = m
  append_right (y ∷ firsts) m = right (append_right firsts m)

  pub left_only : {xs ys zs : List A} → IsMerge xs ys zs → ys ≡ [] → zs ≡ xs
  left_only done h = refl
  left_only (left {x} m) h = ap (λ l. x ∷ l) (left_only m h)
  left_only (right m) h = ground (h, arith)

  pub right_only : {xs ys zs : List A} → IsMerge xs ys zs → xs ≡ [] → zs ≡ ys
  right_only done h = refl
  right_only (left m) h = ground (h, arith)
  right_only (right {y} m) h = ap (λ l. y ∷ l) (right_only m h)

-- A function that maps each element to a list, in order, maps merges to merges.
module _ {A B : Type 0} (f : List A → List B) (f-nil : f [] ≡ [])
    (f-cons : (x : A) (xs : List A) → f (x ∷ xs) ≡ f (x ∷ []) ++ f xs) where
  pub IsMerge-image : {xs ys zs : List A} → IsMerge xs ys zs → IsMerge (f xs) (f ys) (f zs)
  IsMerge-image done = rw f-nil done
  IsMerge-image (left {x} {xs} {ys} {zs} m) =
      rw (f-cons x xs, f-cons x zs) (append_left (f (x ∷ [])) (IsMerge-image m))
  IsMerge-image (right {y} {xs} {ys} {zs} m) =
      rw (f-cons y ys, f-cons y zs) (append_right (f (y ∷ [])) (IsMerge-image m))

  -- Of lists without images.
  pub empty-merged :
      {xss : List (List A)} {zs : List A} → IsMerged xss zs → All (λ xs. f xs ≡ []) xss → f zs ≡ []
  empty-merged none_left h = f-nil
  empty-merged (one_more rest m) h = left_only (IsMerge-image m) (empty-merged rest h.1) ∙ h.0

  -- Of lists of which one has images.
  pub image-merged :
      (before : List (List A)) {own : List A} (after : List (List A)) {zs : List A}
      → IsMerged (before ++ own ∷ after) zs
      → All (λ xs. f xs ≡ []) before
      → All (λ xs. f xs ≡ []) after
      → f zs ≡ f own
  image-merged [] after (one_more rest m) h k = left_only (IsMerge-image m) (empty-merged rest k)
  image-merged (xs ∷ before) after (one_more rest m) h k =
      right_only (IsMerge-image m) h.0 ∙ image-merged before after rest h.1 k
