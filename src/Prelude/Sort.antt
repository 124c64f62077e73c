-- ===== src/Prelude/Sort.antt =====
-- ORDER BY: a stable insertion sort by a Boolean order, and what sorting, filtering and cutting keep.
use Prim.Native.Nat.{ℕ, zero, suc}
use mathlib.Core.Path.{◌≡◌, refl, ap, ◌∙◌}
use mathlib.Core.Logic.{inl, inr}
use mathlib.Core.Bool.{Bool, true, false≢true}
use mathlib.Core.List.{List, [], ◌∷◌, map, Memᴰ}
use vaulthook.Prelude.Tests.{if◌then◌else◌, Bool-cases}
use vaulthook.Prelude.Lists.{length, take, keep, any, All}

module _ {ℓ} {A : Type ℓ} where
  under_head :
      (a x : A) (ys zs : List A) → (Memᴰ a ys → Memᴰ a zs) → Memᴰ a (x ∷ ys) → Memᴰ a (x ∷ zs)
  under_head a x ys zs f (Memᴰ.head e) = Memᴰ.head e
  under_head a x ys zs f (Memᴰ.tail m) = Memᴰ.tail (f m)

  swap_front :
      (a x y : A) (ys : List A) {zs : List A}
      → (Memᴰ a zs → Memᴰ a (x ∷ ys))
      → Memᴰ a (y ∷ zs)
      → Memᴰ a (x ∷ y ∷ ys)
  swap_front a x y ys f (Memᴰ.head e) = Memᴰ.tail (Memᴰ.head e)
  swap_front a x y ys f (Memᴰ.tail m) = under_head a x ys (y ∷ ys) Memᴰ.tail (f m)

  kept_head :
      (p : A → Bool) (a x : A) (xs : List A) {ys : List A}
      → p x ≡ true
      → (Memᴰ a ys → Memᴰ a xs × (p a ≡ true))
      → Memᴰ a (x ∷ ys)
      → Memᴰ a (x ∷ xs) × (p a ≡ true)
  kept_head p a x xs h f (Memᴰ.head e) = (Memᴰ.head e, rw e h)
  kept_head p a x xs h f (Memᴰ.tail m) = let (n, q) = f m in (Memᴰ.tail n, q)

module _ {ℓ} {A : Type ℓ} (before : A → A → Bool) where
  unfoldable pub insert_by : A → List A → List A
  insert_by x [] = x ∷ []
  insert_by x (y ∷ ys) = if before y x then y ∷ insert_by x ys else x ∷ y ∷ ys

  unfoldable pub sort_by : List A → List A
  unfolding insert_by
  sort_by [] = []
  sort_by (x ∷ xs) = insert_by x (sort_by xs)

  insert_by-mem : (a x : A) (ys : List A) → Memᴰ a (insert_by x ys) → Memᴰ a (x ∷ ys)
  unfolding insert_by
  insert_by-mem a x [] m = m
  insert_by-mem a x (y ∷ ys) m = elim (Bool-cases (before y x)) [
    | inl e ↦ swap_front a x y ys (insert_by-mem a x ys) (rw e at m)
    | inr e ↦ rw e at m
  ]

  pub sort_by-mem : (a : A) (xs : List A) → Memᴰ a (sort_by xs) → Memᴰ a xs
  unfolding sort_by
  sort_by-mem a [] m = m
  sort_by-mem a (x ∷ xs) m =
      under_head a x (sort_by xs) xs (sort_by-mem a xs) (insert_by-mem a x (sort_by xs) m)

  length-insert_by : (x : A) (ys : List A) → length (insert_by x ys) ≡ suc (length ys)
  unfolding insert_by
  length-insert_by x [] = refl
  length-insert_by x (y ∷ ys) = elim (Bool-cases (before y x)) [
    | inl e ↦ rw e (ap suc (length-insert_by x ys))
    | inr e ↦ rw e
  ]

  pub length-sort_by : (xs : List A) → length (sort_by xs) ≡ length xs
  unfolding sort_by
  length-sort_by [] = refl
  length-sort_by (x ∷ xs) = length-insert_by x (sort_by xs) ∙ ap suc (length-sort_by xs)

module _ {ℓ} {A : Type ℓ} where
  pub keep-mem :
      (p : A → Bool) (a : A) (xs : List A) → Memᴰ a (keep p xs) → Memᴰ a xs × (p a ≡ true)
  keep-mem p a [] m = elim m [ ]
  keep-mem p a (x ∷ xs) m = elim (Bool-cases (p x)) [
    | inl e ↦ kept_head p a x xs e (keep-mem p a xs) (rw e at m)
    | inr e ↦ let (n, q) = keep-mem p a xs (rw e at m) in (Memᴰ.tail n, q)
  ]

  pub mem-keep : (p : A → Bool) (a : A) (xs : List A) → Memᴰ a xs → p a ≡ true → Memᴰ a (keep p xs)
  mem-keep p a [] m h = elim m [ ]
  mem-keep p a (x ∷ xs) (Memᴰ.head e) h = rw (← e, h) (Memᴰ.head refl)
  mem-keep p a (x ∷ xs) (Memᴰ.tail m) h = elim (Bool-cases (p x)) [
    | inl e ↦ rw e (Memᴰ.tail (mem-keep p a xs m h))
    | inr e ↦ rw e (mem-keep p a xs m h)
  ]

  pub take-mem : (n : ℕ) (a : A) (xs : List A) → Memᴰ a (take n xs) → Memᴰ a xs
  take-mem zero a xs m = elim m [ ]
  take-mem (suc n) a [] m = m
  take-mem (suc n) a (x ∷ xs) m = under_head a x (take n xs) xs (take-mem n a xs) m

  pub any-mem : (p : A → Bool) (xs : List A) → any p xs ≡ true → (a : A) × Memᴰ a xs × (p a ≡ true)
  any-mem p [] h = absurd (false≢true h)
  any-mem p (x ∷ xs) h = elim (Bool-cases (p x)) [
    | inl e ↦ (x, Memᴰ.head refl, e)
    | inr e ↦ let (a, m, q) = any-mem p xs (rw e at h) in (a, Memᴰ.tail m, q)
  ]

  pub mem-any : (p : A → Bool) (a : A) (xs : List A) → Memᴰ a xs → p a ≡ true → any p xs ≡ true
  mem-any p a [] m h = elim m [ ]
  mem-any p a (x ∷ xs) (Memᴰ.head e) h = rw (← e, h)
  mem-any p a (x ∷ xs) (Memᴰ.tail m) h = elim (Bool-cases (p x)) [
    | inl e ↦ rw e
    | inr e ↦ rw e (mem-any p a xs m h)
  ]

  pub All-mem {κ} : (P : A → Type κ) (a : A) (xs : List A) → All P xs → Memᴰ a xs → P a
  All-mem P a [] h m = elim m [ ]
  All-mem P a (x ∷ xs) h (Memᴰ.head e) = rw e h.0
  All-mem P a (x ∷ xs) h (Memᴰ.tail m) = All-mem P a xs h.1 m

-- Two lists agree entry by entry up to a relation.
abbrev pub Rows {ℓ} : {A : Type ℓ} → (A → A → Type 0) → List A → List A → Type 0
Rows R [] [] = Unit
Rows R [] (y ∷ ys) = ⊥
Rows R (x ∷ xs) [] = ⊥
Rows R (x ∷ xs) (y ∷ ys) = R x y × Rows R xs ys

module _ {ℓ} {A : Type ℓ} (R : A → A → Type 0) where
  pub Rows-map :
      (f : A → A) (xs : List A) → ((x : A) → Memᴰ x xs → R x (f x)) → Rows R xs (map f xs)
  Rows-map f [] h = tt
  Rows-map f (x ∷ xs) h = (h x (Memᴰ.head refl), Rows-map f xs (λ y m. h y (Memᴰ.tail m)))

  pub Rows-refl : (xs : List A) → ((x : A) → R x x) → Rows R xs xs
  Rows-refl [] h = tt
  Rows-refl (x ∷ xs) h = (h x, Rows-refl xs h)
