-- ===== src/Search/Pages/Cover.antt =====
-- The pages of a search (events/service.go, Search).
use vaulthook.Prelude.{
  ℕ, zero, suc, ◌+◌, ◌-◌, ◌^◌, ◌≤◌, ◌<◌, ◌≡◌, refl, sym, ap, ◌∙◌, ℤ, pos, String, Bool, true, false,
  Option, none, List, [], ◌∷◌, ◌++◌, arith, ltb, length, take, drop, keep, length-take, length-drop,
  count, All, subst, ◌||◌, fun_ext, Bool-cases, inl, inr,
}
use native.Mathlib.Numerals.{add-one}
use vaulthook.Model.{Fault, Result, ok, err, ◌>>=◌, Webhook}
use vaulthook.Database.{Db}
use vaulthook.Search.{SearchType, SearchRequest, is_empty}
use vaulthook.Search.Query.{Condition, int, filter_builder, lookup_builder, all_hold, any_holds}
use vaulthook.Search.Query.Meaning.{
  filter_matches, lookup_matches, filter_builder-matches, lookup_builder-matches,
}
use vaulthook.Search.Pages.{
  SearchResponse, rows_between, has_unknown_label, no_condition, unknown_label, page_size, one_more,
  cut_page, lookup_opts, filter_opts, lookup, filter, search, search_as,
}

module _ {A : Type 0} where
  pub take-take : (n : ℕ) (xs : List A) → take n (take (suc n) xs) ≡ take n xs
  take-take zero xs = refl
  take-take (suc n) [] = refl
  take-take (suc n) (x ∷ xs) = ap (λ l. x ∷ l) (take-take n xs)

  pub take_all : (n : ℕ) (xs : List A) → length xs ≤ n → take n xs ≡ xs
  take_all zero [] h = refl
  take_all zero (x ∷ xs) h = absurd (omega arith)
  take_all (suc n) [] h = refl
  take_all (suc n) (x ∷ xs) h = ap (λ l. x ∷ l) (take_all n xs (omega arith))

  drop-nil : (n : ℕ) → ◌≡◌ {A = List A} (drop n []) []
  drop-nil zero = refl
  drop-nil (suc n) = refl

  take-nil : (n : ℕ) → ◌≡◌ {A = List A} (take n []) []
  take-nil zero = refl
  take-nil (suc n) = refl

-- A page of n rows from offset k of a list, and whether the list goes on.
abbrev pub page : ℕ → ℕ → List Webhook → SearchResponse
page n k rows = record { events = take n (drop k rows); has_more = ltb (k + n) (length rows) }

cut_page-page :
    (n k : ℕ) (rows : List Webhook) → cut_page n (take (n + 1) (drop k rows)) ≡ page n k rows
unfolding cut_page
cut_page-page n k rows =
    let xs = drop k rows in
    let len = length-drop k rows in
    elim (Bool-cases (ltb (k + n) (length rows))) [
      | inl more ↦
          let more' : ltb n (length (take (n + 1) xs)) ≡ true =
            ground (arith, len, length-take (n + 1) xs) in
          let cut : take n (take (n + 1) xs) ≡ take n xs = rw add-one (take-take n xs) in
          rw (more, more', cut)
      | inr last ↦
          let last' : ltb n (length (take (n + 1) xs)) ≡ false =
            ground (arith, len, length-take (n + 1) xs) in
          let short : length xs ≤ n = ground (arith, len) in
          rw (last, last', take_all (n + 1) xs (omega arith), take_all n xs short)
    ]

keep_none : (ws : List Webhook) → keep (λ _. false) ws ≡ []
keep_none [] = refl
keep_none (w ∷ ws) = keep_none ws

one_more-eq : (n : ℕ) → n < 2 ^ 63 - 1 → one_more n ≡ pos (n + 1)
one_more-eq n h = ground arith

-- Each row is at most as new as those before it.
abbrev pub IsNewestFirst : List Webhook → Type 0
IsNewestFirst [] = Unit
IsNewestFirst (w ∷ ws) = All (λ v. v.created_at ≤ w.created_at) ws × IsNewestFirst ws

-- The same rows, each as often, and the newest first; rows of one creation time are in any order.
pub record Ordered (ws rows : List Webhook) : Type 0 where
  pub same : (q : Webhook → Bool) → count q rows ≡ count q ws
  pub newest : IsNewestFirst rows

module _ (uuid_text : ℕ → String) (ilike : String → String → Bool)
    (order_by : List Webhook → List Webhook) (parse_time : String → Option ℕ) where
  -- What the database answers with an error: a query without a condition, and a status that it does
  -- not know.
  abbrev pub malformed : SearchType → SearchRequest → Bool
  malformed SearchType.lookup p = is_empty (lookup_builder (lookup_opts p (pos 0))).conditions
  malformed SearchType.filter p =
      is_empty (filter_builder (filter_opts parse_time p (pos 0))).conditions
      || has_unknown_label p.delivery_statuses
  malformed (SearchType.other t) p = false

  -- The matches of a search.
  abbrev pub matches : SearchType → SearchRequest → Webhook → Bool
  matches SearchType.lookup p w = lookup_matches uuid_text ilike w (lookup_opts p (pos 0))
  matches SearchType.filter p w =
      filter_matches uuid_text ilike w (filter_opts parse_time p (pos 0))
  matches (SearchType.other t) p w = false

  -- The rows that a query gets, up to one more than a page has, or its error.
  data RowsOf (p : SearchRequest) (n k : ℕ) (db : Db) (type : SearchType)
      : Result (List Webhook) → Type 0 where
    rejected : (e : Fault) → malformed type p ≡ true → RowsOf p n k db type (err e)
    found :
        (rows : List Webhook)
        → malformed type p ≡ false
        → Ordered (keep (matches type p) db.events) rows
        → RowsOf p n k db type (ok (take (n + 1) (drop k rows)))

  -- The reply to a search.
  pub data Searched (p : SearchRequest) (n k : ℕ) (db : Db) : Result SearchResponse → Type 0 where
    refused : (e : Fault) → malformed p.type p ≡ true → Searched p n k db (err e)
    paged :
        (rows : List Webhook)
        → malformed p.type p ≡ false
        → Ordered (keep (matches p.type p) db.events) rows
        → Searched p n k db (ok (page n k rows))

  lookup-keep :
      (p : SearchRequest) (limit offset : ℤ)
      → let b = lookup_builder (lookup_opts p limit) in
        ◌≡◌ {A = Webhook → Bool}
          (λ w. any_holds uuid_text ilike (b.args ++ int limit ∷ int offset ∷ []) w b.conditions)
          (λ w. lookup_matches uuid_text ilike w (lookup_opts p (pos 0)))
  unfolding lookup_matches
  lookup-keep p limit offset =
      fun_ext
        λ w. lookup_builder-matches uuid_text ilike w (lookup_opts p limit) (int limit) (int offset)

  filter-keep :
      (p : SearchRequest) (limit offset : ℤ)
      → let b = filter_builder (filter_opts parse_time p limit) in
        ◌≡◌ {A = Webhook → Bool}
          (λ w. all_hold uuid_text ilike (b.args ++ int limit ∷ int offset ∷ []) w b.conditions)
          (λ w. filter_matches uuid_text ilike w (filter_opts parse_time p (pos 0)))
  unfolding filter_matches
  filter-keep p limit offset = fun_ext λ w.
      (filter_builder-matches uuid_text ilike w (filter_opts parse_time p limit) (int limit)
        (int offset)).0

  same_lookup :
      (p : SearchRequest) (limit : ℤ)
      → (lookup_builder (lookup_opts p limit)).conditions
        ≡ (lookup_builder (lookup_opts p (pos 0))).conditions
  unfolding lookup_builder
  same_lookup p limit = refl

  same_filter :
      (p : SearchRequest) (limit : ℤ)
      → (filter_builder (filter_opts parse_time p limit)).conditions
        ≡ (filter_builder (filter_opts parse_time p (pos 0))).conditions
  unfolding filter_builder
  same_filter p limit = refl

  or_false : (a b : Bool) → a ≡ false → b ≡ false → (a || b) ≡ false
  or_false a b h k = ground arith

  module _ (order : (ws : List Webhook) → Ordered ws (order_by ws)) (p : SearchRequest) (k : ℕ)
      (db : Db) (at_k : p.offset ≡ pos k) where
    sorted_page :
        (n : ℕ) (q r : Webhook → Bool)
        → q ≡ r
        → rows_between order_by (pos (n + 1)) p.offset (keep q db.events)
          ≡ ok (take (n + 1) (drop k (order_by (keep r db.events))))
    sorted_page n q r h =
        ap (λ s. rows_between order_by (pos (n + 1)) p.offset (keep s db.events)) h
        ∙ ap (λ (o : ℤ). rows_between order_by (pos (n + 1)) o (keep r db.events)) at_k

    search_as-RowsOf :
        (type : SearchType) (n : ℕ)
        → RowsOf p n k db type
            (search_as uuid_text ilike order_by parse_time type none p (pos (n + 1)) db)
    unfolding lookup filter
    search_as-RowsOf SearchType.lookup n =
        let same = ap (λ (cs : List Condition). is_empty cs) (same_lookup p (pos (n + 1))) in
        elim (Bool-cases (malformed SearchType.lookup p)) [
          | inl bad ↦ simp (same, bad) (rejected no_condition bad)
          | inr good ↦
              simp (same, good)
                (subst (RowsOf p n k db SearchType.lookup)
                  (sym (sorted_page n _ _ (lookup-keep p (pos (n + 1)) p.offset)))
                  (found _ good (order _)))
        ]
    search_as-RowsOf SearchType.filter n =
        let same = ap (λ (cs : List Condition). is_empty cs) (same_filter p (pos (n + 1))) in
        let none_set = is_empty (filter_builder (filter_opts parse_time p (pos 0))).conditions in
        elim (Bool-cases none_set) [
          | inl bad ↦ simp (same, bad) (rejected no_condition (rw bad))
          | inr set ↦ elim (Bool-cases (has_unknown_label p.delivery_statuses)) [
            | inl bad ↦ simp (same, set, bad) (rejected unknown_label (rw (set, bad)))
            | inr known ↦
                simp (same, set, known)
                  (subst (RowsOf p n k db SearchType.filter)
                    (sym (sorted_page n _ _ (filter-keep p (pos (n + 1)) p.offset)))
                    (found _ (or_false _ _ set known) (order _)))
          ]
        ]
    search_as-RowsOf (SearchType.other t) n =
        subst (λ xs. RowsOf p n k db (SearchType.other t) (ok xs))
          (ap (take (n + 1)) (drop-nil k) ∙ take-nil (n + 1))
          (found [] refl
            (record { same = λ q. ap (count q) (sym (keep_none db.events)); newest = tt }))

    -- A search without a fault, from an offset that is not negative and with pages smaller than the
    -- largest int64: a lookup or a filter without any condition and a filter with a status that the
    -- enum does not have are errors of the database. Any other search returns a page of all rows that
    -- match, sorted with the newest first, at that offset, and says whether there are rows after it.
    -- Nothing is said of the order of rows with one creation time, which may differ from search to
    -- search; that the database's ORDER BY sorts is assumed.
    pub search-Searched :
        page_size p.limit < 2 ^ 63 - 1
        → Searched p (page_size p.limit) k db (search uuid_text ilike order_by parse_time none p db)
    unfolding search
    search-Searched small =
        let n = page_size p.limit in
        rw (one_more-eq n small) (
          cut (search_as uuid_text ilike order_by parse_time p.type none p (pos (n + 1)) db)
            (search_as-RowsOf p.type n))
      where
        cut :
            (x : Result (List Webhook))
            → RowsOf p (page_size p.limit) k db p.type x
            → Searched p
                (page_size p.limit)
                k
                db
                (x >>= λ rows. ok (cut_page (page_size p.limit) rows))
        cut _ (rejected e bad) = refused e bad
        cut _ (found rows good o) =
            rw (cut_page-page (page_size p.limit) k rows) (paged rows good o)
