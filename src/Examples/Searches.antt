-- ===== src/Examples/Searches.antt =====
-- The theorems on searches at concrete inputs.
use vaulthook.Prelude.{
  ℕ, suc, ◌≡◌, refl, ◌∷◌, [], ◌++◌, String, false, Option, none, some, pos, ◌≤◌, Bool, true, List,
  All, Bool-cases, inl, inr, arith, str_eq,
}
use vaulthook.Prelude.Sort.{insert_by, sort_by}
use vaulthook.Prelude.Counts.{count-sort_by}
use vaulthook.Model.{Result, ok, err, Webhook, queued}
use vaulthook.Events.Repository.{newest_first}
use vaulthook.Search.{SearchRequest, SearchType}
use vaulthook.Search.Query.{FilterOpts, LookupOpts, int, filter_builder, all_hold, arg_at}
use vaulthook.Search.Query.Meaning.{filter_matches, filter_builder-matches}
use vaulthook.Search.Pages.{search, filter}
use vaulthook.Search.Pages.Cover.{Searched, IsNewestFirst, Ordered, search-Searched}
use vaulthook.Examples.{noon, event, shop_db}

abbrev uuid_text : ℕ → String
uuid_text _ = "uuid"

abbrev no_time : String → Option ℕ
no_time _ = none

abbrev wanted : FilterOpts
wanted = record {
  providers = "Shopify" ∷ "Stripe" ∷ [];
  event_type = some "orders/create";
  delivery_statuses = "queued" ∷ [];
  response_code = none;
  from_time = some noon;
  to_time = none;
  payload_search = none;
  has_retries = false;
  has_error = false;
  offset = pos 0;
  limit = pos 26;
}

filter_builder-matches_example :
    let b = filter_builder wanted in
    (all_hold uuid_text str_eq
        (b.args ++ int (pos 26) ∷ int (pos 0) ∷ [])
        (event 11 "a" queued)
        b.conditions
      ≡ filter_matches uuid_text str_eq (event 11 "a" queued) wanted)
    × (arg_at (b.args ++ int (pos 26) ∷ int (pos 0) ∷ []) b.arg_idx ≡ some (int (pos 26)))
    × (arg_at (b.args ++ int (pos 26) ∷ int (pos 0) ∷ []) (suc b.arg_idx) ≡ some (int (pos 0)))
filter_builder-matches_example =
    filter_builder-matches uuid_text str_eq (event 11 "a" queued) wanted (int (pos 26))
      (int (pos 0))

abbrev looked_up : LookupOpts
looked_up = record { webhook_id = none; event_id = some "a"; offset = pos 0; limit = pos 26 }

abbrev request : SearchType → SearchRequest
request type = record {
  type = type;
  webhook_id = none;
  event_id = some "a";
  providers = "Shopify" ∷ [];
  event_type = none;
  delivery_statuses = "queued" ∷ [];
  response_code = none;
  from_time = none;
  to_time = none;
  payload_search = none;
  has_retries = false;
  has_error = false;
  offset = pos 1;
  limit = pos 1;
}

-- The database's sorting, for the tests: a stable one.
abbrev by_time : List Webhook → List Webhook
by_time ws = sort_by newest_first ws

All-insert_by :
    (P : Webhook → Type 0) (w : Webhook) (ws : List Webhook)
    → P w
    → All P ws
    → All P (insert_by newest_first w ws)
unfolding insert_by
All-insert_by P w [] h k = (h, tt)
All-insert_by P w (v ∷ vs) h k = elim (Bool-cases (newest_first v w)) [
  | inl e ↦ rw e (k.0, All-insert_by P w vs h k.1)
  | inr e ↦ rw e (h, k)
]

All-newer :
    (s t : ℕ) (ws : List Webhook)
    → s ≤ t
    → All (λ v. v.created_at ≤ s) ws
    → All (λ v. v.created_at ≤ t) ws
All-newer s t [] h k = tt
All-newer s t (w ∷ ws) h k = (omega (arith, h, k.0), All-newer s t ws h k.1)

insert_by-IsNewestFirst :
    (w : Webhook) (ws : List Webhook)
    → IsNewestFirst ws
    → IsNewestFirst (insert_by newest_first w ws)
unfolding insert_by
insert_by-IsNewestFirst w [] h = (tt, tt)
insert_by-IsNewestFirst w (v ∷ vs) h = elim (Bool-cases (newest_first v w)) [
  | inl e ↦ rw e (
    All-insert_by (λ x. x.created_at ≤ v.created_at) w vs (ground arith) h.0,
    insert_by-IsNewestFirst w vs h.1,
  )
  | inr e ↦
      let older : v.created_at ≤ w.created_at = ground arith in
      rw e ((older, All-newer v.created_at w.created_at vs older h.0), h)
]

sort_by-IsNewestFirst : (ws : List Webhook) → IsNewestFirst (by_time ws)
unfolding sort_by
sort_by-IsNewestFirst [] = tt
sort_by-IsNewestFirst (w ∷ ws) = insert_by-IsNewestFirst w (by_time ws) (sort_by-IsNewestFirst ws)

sorts : (ws : List Webhook) → Ordered ws (by_time ws)
sorts ws = record { same = λ q. count-sort_by q newest_first ws; newest = sort_by-IsNewestFirst ws }

search-Searched_example :
    Searched uuid_text str_eq by_time no_time
      (request SearchType.filter)
      1
      1
      shop_db
      (search uuid_text str_eq by_time no_time none (request SearchType.filter) shop_db)
search-Searched_example =
    search-Searched uuid_text str_eq by_time no_time sorts (request SearchType.filter) 1 shop_db
      refl (omega arith)

abbrev is_refused : {A : Type 0} → Result A → Bool
is_refused (ok a) = false
is_refused (err e) = true

-- The request with a status that the enum does not have.
abbrev misspelled : SearchRequest
misspelled = record (request SearchType.filter) { delivery_statuses = "done" ∷ [] }

misspelled_refused :
    is_refused (search uuid_text str_eq by_time no_time none misspelled shop_db) ≡ true
unfolding search filter filter_builder
misspelled_refused = refl

not_misspelled :
    is_refused (search uuid_text str_eq by_time no_time none (request SearchType.filter) shop_db)
    ≡ false
unfolding search filter filter_builder
not_misspelled = refl
