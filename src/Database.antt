-- ===== src/Database.antt =====
-- The PostgreSQL tables (migrations/) that the repositories read and write: the providers and the
-- events, with the clock that NOW() reads. The primary key and the unique index of the events table
-- are `UniqueIds` and `UniqueEvents`.
use vaulthook.Prelude.{
  ℕ, ◌≡◌, ◌≢◌, sym, ap, ◌∙◌, String, Bool, false, Option, none, some, List, [], ◌∷◌, ◌==◌, ◌&&◌,
  str_eq, All, All-mem, if◌then◌else◌,
}
use mathlib.Core.List.{Memᴰ}
use vaulthook.Model.{Provider, Webhook}

pub record Db : Type 0 where
  pub now : ℕ
  pub providers : List Provider
  pub events : List Webhook

-- No two rows share their id.
abbrev pub UniqueIds : List Webhook → Type 0
UniqueIds [] = Unit
UniqueIds (w ∷ ws) = All (λ v. v.id ≢ w.id) ws × UniqueIds ws

-- Two event ids collide in the unique index; NULL collides with nothing.
abbrev pub same_event_id : Option String → Option String → Bool
same_event_id (some a) (some b) = str_eq a b
same_event_id _ _ = false

abbrev pub same_event : Webhook → Webhook → Bool
same_event v w = v.provider_id == w.provider_id && same_event_id v.event_id w.event_id

-- No two rows share their provider and event id.
abbrev pub UniqueEvents : List Webhook → Type 0
UniqueEvents [] = Unit
UniqueEvents (w ∷ ws) = All (λ v. same_event w v ≡ false) ws × UniqueEvents ws

-- Rows of one id are one row.
pub UniqueIds-eq :
    (v w : Webhook) (ws : List Webhook) → UniqueIds ws → Memᴰ v ws → Memᴰ w ws → v.id ≡ w.id → v ≡ w
UniqueIds-eq v w [] u m n e = elim m [ ]
UniqueIds-eq v w (x ∷ xs) u (Memᴰ.head p) (Memᴰ.head q) e = p ∙ sym q
UniqueIds-eq v w (x ∷ xs) u (Memᴰ.head p) (Memᴰ.tail n) e =
    absurd (All-mem (λ a. a.id ≢ x.id) w xs u.0 n (sym e ∙ ap (λ (a : Webhook). a.id) p))
UniqueIds-eq v w (x ∷ xs) u (Memᴰ.tail m) (Memᴰ.head q) e =
    absurd (All-mem (λ a. a.id ≢ x.id) v xs u.0 m (e ∙ ap (λ (a : Webhook). a.id) q))
UniqueIds-eq v w (x ∷ xs) u (Memᴰ.tail m) (Memᴰ.tail n) e = UniqueIds-eq v w xs u.1 m n e

-- The row of an id, and the provider of one.
unfoldable pub find_event : ℕ → List Webhook → Option Webhook
find_event i [] = none
find_event i (w ∷ ws) = if w.id == i then some w else find_event i ws

unfoldable pub find_provider : ℕ → List Provider → Option Provider
find_provider i [] = none
find_provider i (p ∷ ps) = if p.id == i then some p else find_provider i ps
