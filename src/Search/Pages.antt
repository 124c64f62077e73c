-- ===== src/Search/Pages.antt =====
-- events/service.go: `Search` asks the repository for one row more than a page has, and so learns
-- whether there is another page.
pub mod Cover
use vaulthook.Prelude.{
  ℕ, ◌+◌, ◌-◌, ◌^◌, ℤ, pos, negsuc, String, Bool, true, false, Option, none, some, List, [], ◌∷◌,
  ◌++◌, ltb, ◌==◌, length, take, drop, keep, any, not, ◌||◌, str_eq, if◌then◌else◌,
}
use vaulthook.Model.{Fault, Result, ok, err, pg_error, ◌>>=◌, Webhook}
use vaulthook.Database.{Db}
use vaulthook.Search.{SearchType, SearchRequest, is_empty}
use vaulthook.Search.Query.{
  LookupOpts, FilterOpts, Arg, int, Builder, lookup_builder, filter_builder, all_hold, any_holds,
}

pub record SearchResponse : Type 0 where
  pub events : List Webhook
  pub has_more : Bool

-- ORDER BY created_at DESC LIMIT … OFFSET …, where a negative number is an error. `order_by` is the
-- database's sorting: nothing in the query says how rows of one creation time are ordered.
abbrev pub rows_between :
    (List Webhook → List Webhook) → ℤ → ℤ → List Webhook → Result (List Webhook)
rows_between order_by (pos limit) (pos offset) ws = ok (take limit (drop offset (order_by ws)))
rows_between order_by (negsuc limit) offset ws = err (pg_error "LIMIT must not be negative")
rows_between order_by (pos limit) (negsuc offset) ws = err (pg_error "OFFSET must not be negative")

-- `if opts.Limit <= 0 { opts.Limit = 25 }`
abbrev pub page_size : ℤ → ℕ
page_size (pos n) = if n == 0 then 25 else n
page_size (negsuc n) = 25

-- `opts.Limit + 1`, which wraps at the largest int64
abbrev pub one_more : ℕ → ℤ
one_more n = if n == 2 ^ 63 - 1 then negsuc (2 ^ 63 - 1) else pos (n + 1)

-- `hasMore` and the cut to a page
unfoldable pub cut_page : ℕ → List Webhook → SearchResponse
cut_page n found =
    let has_more = ltb n (length found) in
    record { events = if has_more then take n found else found; has_more = has_more }

-- The values of `convTime`: a text that is no time gives the zero time.
abbrev pub conv_time : (String → Option ℕ) → Option String → Option ℕ
conv_time parse_time none = none
conv_time parse_time (some s) = elim (parse_time s) [ none ↦ some 0 | some t ↦ some t ]

abbrev pub lookup_opts : SearchRequest → ℤ → LookupOpts
lookup_opts p limit = record {
  webhook_id = p.webhook_id;
  event_id = p.event_id;
  offset = p.offset;
  limit = limit;
}

abbrev pub filter_opts : (String → Option ℕ) → SearchRequest → ℤ → FilterOpts
filter_opts parse_time p limit = record {
  providers = p.providers;
  event_type = p.event_type;
  delivery_statuses = p.delivery_statuses;
  response_code = p.response_code;
  from_time = conv_time parse_time p.from_time;
  to_time = conv_time parse_time p.to_time;
  payload_search = p.payload_search;
  has_retries = p.has_retries;
  has_error = p.has_error;
  offset = p.offset;
  limit = limit;
}

-- The labels of the enum delivery_status.
abbrev pub is_label : String → Bool
is_label s =
    str_eq s "queued"
    || str_eq s "processing"
    || str_eq s "delivered"
    || str_eq s "retrying"
    || str_eq s "failed"
    || str_eq s "replaying"

abbrev pub has_unknown_label : List String → Bool
has_unknown_label labels = any (λ s. not (is_label s)) labels

-- Without a condition, nothing stands between WHERE and ORDER BY.
abbrev pub no_condition : Fault
no_condition = pg_error "syntax error at or near \"ORDER\""

abbrev pub unknown_label : Fault
unknown_label = pg_error "invalid input value for enum delivery_status"

module _ (uuid_text : ℕ → String) (ilike : String → String → Bool)
    (order_by : List Webhook → List Webhook) where
  -- `EventRepo.lookup` and `EventRepo.filter`
  unfoldable pub lookup : Option Fault → LookupOpts → Db → Result (List Webhook)
  lookup (some e) o db = err e
  lookup none o db =
      let b = lookup_builder o in
      let args = b.args ++ int o.limit ∷ int o.offset ∷ [] in
      if is_empty b.conditions
      then err no_condition
      else rows_between order_by o.limit o.offset
          (keep (λ w. any_holds uuid_text ilike args w b.conditions) db.events)

  unfoldable pub filter : Option Fault → FilterOpts → Db → Result (List Webhook)
  filter (some e) o db = err e
  filter none o db =
      let b = filter_builder o in
      let args = b.args ++ int o.limit ∷ int o.offset ∷ [] in
      if is_empty b.conditions
      then err no_condition
      else if has_unknown_label o.delivery_statuses
      then err unknown_label
      else rows_between order_by o.limit o.offset
          (keep (λ w. all_hold uuid_text ilike args w b.conditions) db.events)

  abbrev pub search_as :
      (String → Option ℕ)
      → SearchType
      → Option Fault
      → SearchRequest
      → ℤ
      → Db
      → Result (List Webhook)
  search_as parse_time SearchType.lookup fault p limit db = lookup fault (lookup_opts p limit) db
  search_as parse_time SearchType.filter fault p limit db =
      filter fault (filter_opts parse_time p limit) db
  search_as parse_time (SearchType.other t) fault p limit db = ok []

  -- `Service.Search`
  unfoldable pub search :
      (String → Option ℕ) → Option Fault → SearchRequest → Db → Result SearchResponse
  unfolding lookup filter cut_page
  search parse_time fault p db =
      let n = page_size p.limit in
      search_as parse_time p.type fault p (one_more n) db >>= λ found. ok (cut_page n found)
