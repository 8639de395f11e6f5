-- ===== src/Prelude/Sets.antt =====
-- Python's sets as lists: only membership is read, so neither order nor repetition matters.
use mathlib.Core.Path.{◌≡◌, refl}
use mathlib.Core.Bool.{Bool, true, false, not, ◌&&◌, ◌||◌}
use mathlib.Core.List.{List, [], ◌∷◌, ◌++◌}
use native.Mathlib.Omega.{arith}
use nixbot.Prelude.Tests.{Eq, ◌==◌}
use nixbot.Prelude.Lists.{filter, all}

module _ {ℓ} {A : Type ℓ} ⦃e : Eq A⦄ where
  -- `a in xs`
  unfoldable pub elem : A → List A → Bool
  elem a [] = false
  elem a (x ∷ xs) = x == a || elem a xs

  -- `xs & ys`
  abbrev pub inter : List A → List A → List A
  inter xs ys = filter (λ x. elem x ys) xs

  -- `xs.discard(a)`, `xs - {a}`
  abbrev pub discard : A → List A → List A
  discard a = filter (λ x. not (x == a))

  -- no member twice
  unfoldable pub nodup : List A → Bool
  nodup [] = true
  nodup (x ∷ xs) = not (elem x xs) && nodup xs

  -- `xs <= ys`
  abbrev pub subset : List A → List A → Bool
  subset xs ys = all (λ x. elem x ys) xs

  pub elem-nil : (a : A) → elem a [] ≡ false
  unfolding elem
  elem-nil a = refl

  pub elem-cons : (a x : A) (xs : List A) → elem a (x ∷ xs) ≡ (x == a || elem a xs)
  unfolding elem
  elem-cons a x xs = refl

  pub elem-head : (a : A) (xs : List A) → elem a (a ∷ xs) ≡ true
  unfolding elem
  elem-head a xs = ground (arith, e.beq_iff a a)

  pub elem-append : (a : A) (xs ys : List A) → elem a (xs ++ ys) ≡ (elem a xs || elem a ys)
  unfolding elem
  elem-append a [] ys = refl
  elem-append a (x ∷ xs) ys = ground (arith, elem-append a xs ys)

  pub elem-filter : (a : A) (p : A → Bool) (xs : List A) → elem a (filter p xs) ≡ (p a && elem a xs)
  unfolding elem
  elem-filter a p [] = ground arith
  elem-filter a p (x ∷ xs) = ground (arith, e.beq_iff x a, elem-filter a p xs)
