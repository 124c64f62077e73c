-- ===== src/Search.antt =====
-- The search of events: its requests and their validation (internal/model/search.go), and in the
-- modules below the SQL that they become (internal/events/repository.go) and its pages
-- (internal/events/service.go). time.Parse is the parameter `parse_time`.
pub mod Query
pub mod Pages
use vaulthook.Prelude.{
  ℕ, ℤ, is_below, is_above, String, Bool, true, false, Option, none, some, List, [], ◌∷◌, codes,
  trim_space, ltb, ◌&&◌, ◌||◌, length, if◌then◌else◌,
}

pub data SearchType : Type 0 where
  lookup filter : SearchType
  other : String → SearchType

pub record SearchRequest : Type 0 where
  pub type : SearchType
  pub webhook_id : Option String
  pub event_id : Option String
  pub providers : List String
  pub event_type : Option String
  pub delivery_statuses : List String
  pub response_code : Option ℤ
  pub from_time : Option String
  pub to_time : Option String
  pub payload_search : Option String
  pub has_retries : Bool
  pub has_error : Bool
  pub offset : ℤ
  pub limit : ℤ

pub data SearchError : Type 0 where
  missing_type missing_lookup id_too_long no_providers no_statuses response_code_range : SearchError
  date_pair_required invalid_time date_order search_too_long event_type_too_long : SearchError

abbrev pub max_string_search_length : ℕ
max_string_search_length = 255

-- `derefStr`
abbrev pub deref_str : Option String → String
deref_str none = ""
deref_str (some s) = s

abbrev pub is_empty {ℓ} : {A : Type ℓ} → List A → Bool
is_empty [] = true
is_empty (x ∷ xs) = false

-- The texts' code points are counted, as utf8.RuneCountInString does.
unfoldable pub validate_lookup : SearchRequest → Option SearchError
validate_lookup p =
    let id = trim_space (codes (deref_str p.webhook_id)) in
    let ev_id = trim_space (codes (deref_str p.event_id)) in
    if is_empty id && is_empty ev_id
    then some missing_lookup
    else if ltb 255 (length id) || ltb 255 (length ev_id)
    then some id_too_long
    else none

-- The checks of `validateFilter`, in their order; each passes with `none`.
unfoldable pub check_lists : SearchRequest → Option SearchError
check_lists p =
    if is_empty p.providers
    then some no_providers
    else if is_empty p.delivery_statuses
    then some no_statuses
    else none

unfoldable pub check_code : Option ℤ → Option SearchError
check_code none = none
check_code (some c) = if is_below c 100 || is_above c 511 then some response_code_range else none

unfoldable pub check_length : SearchError → Option String → Option SearchError
check_length e none = none
check_length e (some s) = if ltb max_string_search_length (length (codes s)) then some e else none

-- The first error of two checks.
infixr 30 ◌then_check◌
abbrev pub ◌then_check◌ : Option SearchError → Option SearchError → Option SearchError
(some e) then_check r = some e
none then_check r = r

module _ (parse_time : String → Option ℕ) where
  abbrev pub check_order : Option ℕ → Option ℕ → Option SearchError
  check_order none _ = some invalid_time
  check_order (some a) none = some invalid_time
  check_order (some a) (some b) = if ltb a b then none else some date_order

  unfoldable pub check_dates : Option String → Option String → Option SearchError
  check_dates none none = none
  check_dates none (some t) = some date_pair_required
  check_dates (some f) none = some date_pair_required
  check_dates (some f) (some t) = check_order (parse_time f) (parse_time t)

  unfoldable pub validate_filter : SearchRequest → Option SearchError
  unfolding check_lists check_code check_dates check_length
  validate_filter p =
      check_lists p
      then_check check_code p.response_code
      then_check check_dates p.from_time p.to_time
      then_check check_length search_too_long p.payload_search
      then_check check_length event_type_too_long p.event_type

  abbrev pub validate_as : SearchType → SearchRequest → Option SearchError
  validate_as lookup p = validate_lookup p
  validate_as filter p = validate_filter p
  validate_as (other t) p = some missing_type

  -- `Validate`
  unfoldable pub validate : SearchRequest → Option SearchError
  unfolding validate_lookup validate_filter
  validate p = validate_as p.type p
