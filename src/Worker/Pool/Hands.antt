-- ===== src/Worker/Pool/Hands.antt =====
-- The batches in the workers' hands (worker/pool.go, worker/service.go): how one is taken away, and
-- when no two of them share an event.
use vaulthook.Prelude.{
  ℕ, zero, suc, ◌≤◌, ◌≡◌, ◌≢◌, refl, sym, subst, some, List, [], ◌∷◌, ◌++◌, arith, All, All-mem,
  Memᴰ, Option-cases, inl, inr,
}
use mathlib.Core.Option.{none-ne-some, some-injective}
use vaulthook.Model.{Webhook}
use vaulthook.Database.{UniqueIds}
use vaulthook.Worker.Repository.{Kind}
use vaulthook.Worker.Pool.{Held, busy, in_hand, pick}

-- No event of the one list has the id of an event of the other.
abbrev pub Apart : List Webhook → List Webhook → Type 0
Apart vs ws = All (λ v. All (λ w. w.id ≢ v.id) ws) vs

module _ {A : Type 0} (P : A → Type 0) where
  pub All-append : (xs ys : List A) → All P xs → All P ys → All P (xs ++ ys)
  All-append [] ys h k = k
  All-append (x ∷ xs) ys h k = (h.0, All-append xs ys h.1 k)

  pub All-left : (xs ys : List A) → All P (xs ++ ys) → All P xs
  All-left [] ys h = tt
  All-left (x ∷ xs) ys h = (h.0, All-left xs ys h.1)

  pub All-right : (xs ys : List A) → All P (xs ++ ys) → All P ys
  All-right [] ys h = h
  All-right (x ∷ xs) ys h = All-right xs ys h.1

  pub mem-All : (xs : List A) → ((x : A) → Memᴰ x xs → P x) → All P xs
  mem-All [] h = tt
  mem-All (x ∷ xs) h = (h x (Memᴰ.head refl), mem-All xs (λ y m. h y (Memᴰ.tail m)))

pub UniqueIds-append :
    (vs ws : List Webhook) → UniqueIds vs → UniqueIds ws → Apart vs ws → UniqueIds (vs ++ ws)
UniqueIds-append [] ws u k a = k
UniqueIds-append (v ∷ vs) ws u k a =
    (All-append (λ x. x.id ≢ v.id) vs ws u.0 a.0, UniqueIds-append vs ws u.1 k a.1)

pub UniqueIds-left : (vs ws : List Webhook) → UniqueIds (vs ++ ws) → UniqueIds vs
UniqueIds-left [] ws u = tt
UniqueIds-left (v ∷ vs) ws u = (All-left (λ x. x.id ≢ v.id) vs ws u.0, UniqueIds-left vs ws u.1)

pub UniqueIds-right : (vs ws : List Webhook) → UniqueIds (vs ++ ws) → UniqueIds ws
UniqueIds-right [] ws u = u
UniqueIds-right (v ∷ vs) ws u = UniqueIds-right vs ws u.1

pub UniqueIds-Apart : (vs ws : List Webhook) → UniqueIds (vs ++ ws) → Apart vs ws
UniqueIds-Apart [] ws u = tt
UniqueIds-Apart (v ∷ vs) ws u = (All-right (λ x. x.id ≢ v.id) vs ws u.0, UniqueIds-Apart vs ws u.1)

pub Apart-sym : (vs ws : List Webhook) → Apart vs ws → Apart ws vs
Apart-sym vs ws a =
    mem-All (λ w. All (λ v. v.id ≢ w.id) vs) ws
      (λ w m.
        mem-All (λ v. v.id ≢ w.id) vs
          (λ v k e.
            All-mem (λ x. x.id ≢ v.id) w ws (All-mem (λ x. All (λ y. y.id ≢ x.id) ws) v vs a k) m
              (sym e)))

pub Apart-append : (us vs ws : List Webhook) → Apart us vs → Apart us ws → Apart us (vs ++ ws)
Apart-append [] vs ws a b = tt
Apart-append (u ∷ us) vs ws a b =
    (All-append (λ x. x.id ≢ u.id) vs ws a.0 b.0, Apart-append us vs ws a.1 b.1)

-- A batch among those in hand, and the rest.
pub data Split (h : Held) : List Held → List Held → Type 0 where
  first : {hs : List Held} → Split h (h ∷ hs) hs
  later : {g : Held} {hs gs : List Held} → Split h hs gs → Split h (g ∷ hs) (g ∷ gs)

pub pick-Split :
    (n : ℕ) (hs : List Held) (h : Held) (gs : List Held) → pick n hs ≡ some (h, gs) → Split h hs gs
unfolding pick
pick-Split n [] h gs e = absurd (none-ne-some _ e)
pick-Split zero (g ∷ hs) h gs e =
    let same = some-injective _ _ e in
    subst (λ (r : Held × List Held). Split r.0 (g ∷ hs) r.1) same Split.first
pick-Split (suc n) (g ∷ hs) h gs e = elim (Option-cases (pick n hs)) [
  | inl bad ↦ absurd (none-ne-some _ (rw bad at e))
  | inr ((f, fs), good) ↦
      let same = some-injective _ _ (rw good at e) in
      subst (λ (r : Held × List Held). Split r.0 (g ∷ hs) r.1) same
        (Split.later (pick-Split n hs f fs good))
]

module _ {h : Held} where
  pub Split-All :
      (P : Held → Type 0) {hs gs : List Held} → Split h hs gs → All P hs → P h × All P gs
  Split-All P Split.first a = a
  Split-All P (Split.later s) a = let (p, q) = Split-All P s a.1 in (p, (a.0, q))

  pub Split-busy : (kind : Kind) {hs gs : List Held} → Split h hs gs → busy kind gs ≤ busy kind hs
  Split-busy kind (Split.first {hs}) = ground arith
  Split-busy kind (Split.later {g} s) = let rest = Split-busy kind s in ground (arith, rest)

  pub Split-in_hand :
      (P : Webhook → Type 0) {hs gs : List Held}
      → Split h hs gs
      → All P (in_hand hs)
      → All P h.hooks × All P (in_hand gs)
  Split-in_hand P (Split.first {hs}) a =
      (All-left P h.hooks (in_hand hs) a, All-right P h.hooks (in_hand hs) a)
  Split-in_hand P (Split.later {g} {hs} {gs} s) a =
      let (p, q) = Split-in_hand P s (All-right P g.hooks (in_hand hs) a) in
      (p, All-append P g.hooks (in_hand gs) (All-left P g.hooks (in_hand hs) a) q)

  Split-Apart :
      (vs : List Webhook) {hs gs : List Held}
      → Split h hs gs
      → Apart vs (in_hand hs)
      → Apart vs h.hooks × Apart vs (in_hand gs)
  Split-Apart [] s a = (tt, tt)
  Split-Apart (v ∷ vs) s a =
      let (p, q) = Split-in_hand (λ w. w.id ≢ v.id) s a.0 in
      let (ps, qs) = Split-Apart vs s a.1 in ((p, ps), (q, qs))

  -- The events of the others are unique, and apart from those of the batch.
  pub Split-UniqueIds :
      {hs gs : List Held}
      → Split h hs gs
      → UniqueIds (in_hand hs)
      → UniqueIds (in_hand gs) × Apart h.hooks (in_hand gs)
  Split-UniqueIds (Split.first {hs}) u =
      (UniqueIds-right h.hooks (in_hand hs) u, UniqueIds-Apart h.hooks (in_hand hs) u)
  Split-UniqueIds (Split.later {g} {hs} {gs} s) u =
      let (unique, apart) = Split-UniqueIds s (UniqueIds-right g.hooks (in_hand hs) u) in
      let (mine, theirs) = Split-Apart g.hooks s (UniqueIds-Apart g.hooks (in_hand hs) u) in
      (
        UniqueIds-append g.hooks (in_hand gs) (UniqueIds-left g.hooks (in_hand hs) u) unique theirs,
        Apart-append h.hooks g.hooks (in_hand gs) (Apart-sym g.hooks h.hooks mine) apart,
      )
