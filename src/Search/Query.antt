-- ===== src/Search/Query.antt =====
-- events/repository.go: `lookup` and `filter` assemble a WHERE clause with numbered placeholders and
-- the list of their arguments. The query is kept as data, with each condition's placeholder, and
-- read by `holds` as PostgreSQL reads the text.
pub mod Meaning
use vaulthook.Prelude.{
  ℕ, zero, suc, ◌+◌, ◌-◌, ℤ, pos, String, Bool, true, false, Option, none, some, List, [], ◌∷◌,
  ◌++◌, str_eq, ltb, leb, ◌==◌, ◌&&◌, ◌||◌, any, if◌then◌else◌,
}
use vaulthook.Model.{
  DeliveryStatus, queued, processing, delivered, retrying, failed, replaying, Webhook,
}
use vaulthook.Search.{is_empty}

-- `LookupOpts` and `FilterOpts`, with times that are parsed.
pub record LookupOpts : Type 0 where
  pub webhook_id : Option String
  pub event_id : Option String
  pub offset : ℤ
  pub limit : ℤ

pub record FilterOpts : Type 0 where
  pub providers : List String
  pub event_type : Option String
  pub delivery_statuses : List String
  pub response_code : Option ℤ
  pub from_time : Option ℕ
  pub to_time : Option ℕ
  pub payload_search : Option String
  pub has_retries : Bool
  pub has_error : Bool
  pub offset : ℤ
  pub limit : ℤ

pub data Arg : Type 0 where
  text : String → Arg
  texts : List String → Arg
  int : ℤ → Arg
  time : ℕ → Arg

-- The conditions' texts, with the number of the placeholder.
pub data Condition : Type 0 where
  id_is event_id_is provider_any event_type_is status_any : ℕ → Condition
  response_code_is created_from created_to payload_like : ℕ → Condition
  some_retries some_error : Condition

pub record Builder : Type 0 where
  pub conditions : List Condition
  pub args : List Arg
  pub arg_idx : ℕ

abbrev pub new_builder : Builder
new_builder = record { conditions = []; args = []; arg_idx = 1 }

-- `conditions = append(…, fmt.Sprintf(…, argIdx)); args = append(args, a); argIdx++`
unfoldable pub add : (ℕ → Condition) → Arg → Builder → Builder
add c a b = record {
  conditions = b.conditions ++ c b.arg_idx ∷ [];
  args = b.args ++ a ∷ [];
  arg_idx = b.arg_idx + 1;
}

unfoldable pub add_plain : Condition → Builder → Builder
add_plain c b = record b { conditions = b.conditions ++ c ∷ [] }

-- A text that is set and not empty
unfoldable pub add_text : (ℕ → Condition) → Option String → Builder → Builder
unfolding add
add_text c none b = b
add_text c (some s) b = if str_eq s "" then b else add c (text s) b

unfoldable pub add_texts : (ℕ → Condition) → List String → Builder → Builder
unfolding add
add_texts c [] b = b
add_texts c (s ∷ ss) b = add c (texts (s ∷ ss)) b

unfoldable pub add_code : Option ℤ → Builder → Builder
unfolding add
add_code none b = b
add_code (some i) b = add response_code_is (int i) b

-- Both times, or neither.
unfoldable pub add_span : Option ℕ → Option ℕ → Builder → Builder
unfolding add
add_span (some f) (some t) b = add created_to (time t) (add created_from (time f) b)
add_span _ _ b = b

unfoldable pub add_flag : Condition → Bool → Builder → Builder
unfolding add_plain
add_flag c true b = add_plain c b
add_flag c false b = b

unfoldable pub lookup_builder : LookupOpts → Builder
unfolding add_text
lookup_builder o = add_text event_id_is o.event_id (add_text id_is o.webhook_id new_builder)

unfoldable pub filter_builder : FilterOpts → Builder
unfolding add_text add_texts add_code add_span add_flag
filter_builder o = add_flag some_error o.has_error (
    add_flag some_retries o.has_retries (
      add_text payload_like o.payload_search (
        add_span o.from_time o.to_time (
          add_code o.response_code (
            add_texts status_any o.delivery_statuses (
              add_text event_type_is o.event_type
                (add_texts provider_any o.providers new_builder)))))))

-- `$n` in a list of arguments, counted from 1
abbrev pub arg_at : List Arg → ℕ → Option Arg
arg_at [] n = none
arg_at (a ∷ as') zero = none
arg_at (a ∷ as') (suc zero) = some a
arg_at (a ∷ as') (suc (suc n)) = arg_at as' (suc n)

abbrev pub status_text : DeliveryStatus → String
status_text queued = "queued"
status_text processing = "processing"
status_text delivered = "delivered"
status_text retrying = "retrying"
status_text failed = "failed"
status_text replaying = "replaying"

-- NULL equals nothing.
abbrev pub option_is : Option String → String → Bool
option_is none s = false
option_is (some t) s = str_eq t s

abbrev pub code_is : Option ℕ → ℤ → Bool
code_is (some n) (pos m) = n == m
code_is _ _ = false

abbrev pub is_set {ℓ} : {A : Type ℓ} → Option A → Bool
is_set none = false
is_set (some a) = true

-- What a condition says of a row, at its argument; `id::text` and ILIKE are PostgreSQL's.
module _ (uuid_text : ℕ → String) (ilike : String → String → Bool) where
  unfoldable pub at_text : (String → Bool) → Option Arg → Bool
  at_text p (some (text s)) = p s
  at_text p _ = false

  unfoldable pub at_texts : (String → Bool) → Option Arg → Bool
  at_texts p (some (texts ss)) = any p ss
  at_texts p _ = false

  unfoldable pub at_int : (ℤ → Bool) → Option Arg → Bool
  at_int p (some (int i)) = p i
  at_int p _ = false

  unfoldable pub at_time : (ℕ → Bool) → Option Arg → Bool
  at_time p (some (time t)) = p t
  at_time p _ = false

  unfoldable pub holds : List Arg → Webhook → Condition → Bool
  unfolding at_text at_texts at_int at_time
  holds args w (id_is n) = at_text (str_eq (uuid_text w.id)) (arg_at args n)
  holds args w (event_id_is n) = at_text (option_is w.event_id) (arg_at args n)
  holds args w (provider_any n) = at_texts (str_eq w.provider) (arg_at args n)
  holds args w (event_type_is n) = at_text (str_eq w.event_type) (arg_at args n)
  holds args w (status_any n) = at_texts (str_eq (status_text w.delivery_status)) (arg_at args n)
  holds args w (response_code_is n) = at_int (code_is w.response_code) (arg_at args n)
  holds args w (created_from n) = at_time (λ t. leb t w.created_at) (arg_at args n)
  holds args w (created_to n) = at_time (λ t. leb w.created_at t) (arg_at args n)
  holds args w (payload_like n) = at_text (ilike w.payload) (arg_at args n)
  holds args w some_retries = ltb 0 w.retry_count
  holds args w some_error = is_set w.last_error

  -- The conditions joined by AND, and by OR.
  unfoldable pub all_hold : List Arg → Webhook → List Condition → Bool
  unfolding holds
  all_hold args w [] = true
  all_hold args w (c ∷ cs) = holds args w c && all_hold args w cs

  unfoldable pub any_holds : List Arg → Webhook → List Condition → Bool
  unfolding holds
  any_holds args w [] = false
  any_holds args w (c ∷ cs) = holds args w c || any_holds args w cs
