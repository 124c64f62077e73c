-- ===== src/Prelude/Counts.antt =====
-- How many entries of a list pass a test, under maps, sorting and tests that agree.
use Prim.Native.Nat.{ℕ, ◌≤◌}
use mathlib.Core.Path.{◌≡◌, refl, ap}
use mathlib.Core.Logic.{inl, inr}
use mathlib.Core.Bool.{Bool, true, ◌&&◌}
use mathlib.Core.List.{List, [], ◌∷◌, map}
use native.Mathlib.Omega.{arith}
use vaulthook.Prelude.Tests.{Bool-cases}
use vaulthook.Prelude.Lists.{length, keep, All}
use vaulthook.Prelude.Sort.{insert_by, sort_by}

module _ {ℓ} {A : Type ℓ} where
  abbrev pub count : (A → Bool) → List A → ℕ
  count p xs = length (keep p xs)

  pub keep-ext : (p q : A → Bool) (xs : List A) → All (λ x. p x ≡ q x) xs → keep p xs ≡ keep q xs
  keep-ext p q [] h = refl
  keep-ext p q (x ∷ xs) h = rw (h.0, keep-ext p q xs h.1)

  pub keep-all : (p : A → Bool) (xs : List A) → All (λ x. p x ≡ true) xs → keep p xs ≡ xs
  keep-all p [] h = refl
  keep-all p (x ∷ xs) h = rw h.0 (ap (λ l. x ∷ l) (keep-all p xs h.1))

  pub keep-keep : (p q : A → Bool) (xs : List A) → keep (λ x. p x && q x) xs ≡ keep q (keep p xs)
  keep-keep p q [] = refl
  keep-keep p q (x ∷ xs) = elim (Bool-cases (p x)) [
    | inl e ↦ rw (e, keep-keep p q xs)
    | inr e ↦ rw (e, keep-keep p q xs)
  ]

  pub count-map :
      (p : A → Bool) (f : A → A) (xs : List A) → count p (map f xs) ≡ count (λ x. p (f x)) xs
  count-map p f [] = refl
  count-map p f (x ∷ xs) = ground (arith, count-map p f xs)

  pub count-map_le :
      (p : A → Bool) (f : A → A)
      → ((x : A) → p (f x) ≡ true → p x ≡ true)
      → (xs : List A) → count p (map f xs) ≤ count p xs
  count-map_le p f h [] = omega arith
  count-map_le p f h (x ∷ xs) = ground (arith, count-map_le p f h xs, h x)

  count-insert_by :
      (p : A → Bool) (before : A → A → Bool) (x : A) (ys : List A)
      → count p (insert_by before x ys) ≡ count p (x ∷ ys)
  unfolding insert_by
  count-insert_by p before x [] = refl
  count-insert_by p before x (y ∷ ys) = ground (arith, count-insert_by p before x ys)

  pub count-sort_by :
      (p : A → Bool) (before : A → A → Bool) (xs : List A)
      → count p (sort_by before xs) ≡ count p xs
  unfolding sort_by
  count-sort_by p before [] = refl
  count-sort_by p before (x ∷ xs) =
      ground (arith, count-insert_by p before x (sort_by before xs), count-sort_by p before xs)
