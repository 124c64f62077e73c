-- ===== src/Search/Query/Meaning.antt =====
-- The assembled WHERE clause and what the options ask for (events/repository.go, lookup and filter).
use mathlib.Core.List.{append_assoc}
use vaulthook.Prelude.{
  ℕ, suc, ◌≡◌, ◌≢◌, refl, sym, ap₂, ◌∙◌, subst, length-append, ℤ, String, Bool, true, false, Option,
  none, some, List, [], ◌∷◌, ◌++◌, arith, str_eq, eq_iff, ltb, leb, ◌&&◌, ◌||◌, any, length, codes,
  trim_space, trim_space-nil, Bool-cases, inl, inr, if◌then◌else◌, false≢true,
}
use vaulthook.Model.{Webhook}
use vaulthook.Search.{SearchRequest, deref_str, is_empty, validate_lookup}
use vaulthook.Search.Query.{
  LookupOpts, FilterOpts, Arg, text, texts, int, time, Condition, provider_any, event_type_is,
  status_any, response_code_is, created_from, created_to, payload_like, some_retries, some_error,
  Builder, new_builder, add, add_plain, add_text, add_texts, add_code, add_span, add_flag,
  lookup_builder, filter_builder, arg_at, status_text, option_is, code_is, is_set, holds, all_hold,
  any_holds,
}

arg_at-append :
    (args : List Arg) (a : Arg) (extra : List Arg)
    → arg_at (args ++ a ∷ extra) (suc (length args)) ≡ some a
arg_at-append [] a extra = refl
arg_at-append (b ∷ args) a extra = arg_at-append args a extra

arg_at-append_next :
    (args : List Arg) (a b : Arg) → arg_at (args ++ a ∷ b ∷ []) (suc (suc (length args))) ≡ some b
arg_at-append_next [] a b = refl
arg_at-append_next (c ∷ args) a b = arg_at-append_next args a b

-- An optional criterion, which holds where it is not asked for.
abbrev pub if_set {ℓ} : {A : Type ℓ} → (A → Bool) → Option A → Bool
if_set p none = true
if_set p (some a) = p a

abbrev pub if_text : (String → Bool) → Option String → Bool
if_text p none = true
if_text p (some s) = if str_eq s "" then true else p s

abbrev pub if_texts : (String → Bool) → List String → Bool
if_texts p [] = true
if_texts p (s ∷ ss) = any p (s ∷ ss)

abbrev pub if_span : (ℕ → ℕ → Bool) → Option ℕ → Option ℕ → Bool
if_span p (some f) (some t) = p f t
if_span p _ _ = true

abbrev pub if_flag : Bool → Bool → Bool
if_flag true p = p
if_flag false p = true

-- A criterion that only what is given can meet.
abbrev pub given : (String → Bool) → Option String → Bool
given p none = false
given p (some s) = if str_eq s "" then false else p s

module _ (uuid_text : ℕ → String) (ilike : String → String → Bool) (w : Webhook) where
  -- What a filter asks of a row.
  unfoldable pub filter_matches : FilterOpts → Bool
  filter_matches o =
      if_texts (str_eq w.provider) o.providers
      && if_text (str_eq w.event_type) o.event_type
      && if_texts (str_eq (status_text w.delivery_status)) o.delivery_statuses
      && if_set (code_is w.response_code) o.response_code
      && if_span (λ f t. leb f w.created_at && leb w.created_at t) o.from_time o.to_time
      && if_text (ilike w.payload) o.payload_search
      && if_flag o.has_retries (ltb 0 w.retry_count)
      && if_flag o.has_error (is_set w.last_error)

  -- The conditions so far mean `p`, also when more arguments follow, and the next number is free.
  record Means (b : Builder) (p : Bool) : Type 0 where
    next : b.arg_idx ≡ suc (length b.args)
    says : (extra : List Arg) → all_hold uuid_text ilike (b.args ++ extra) w b.conditions ≡ p

  all_hold-append :
      (args : List Arg) (cs : List Condition) (c : Condition)
      → all_hold uuid_text ilike args w (cs ++ c ∷ [])
        ≡ (all_hold uuid_text ilike args w cs && holds uuid_text ilike args w c)
  unfolding all_hold
  all_hold-append args [] c = ground arith
  all_hold-append args (d ∷ cs) c = ground (arith, all_hold-append args cs c)

  add-Means :
      (c : ℕ → Condition) (a : Arg) (b : Builder) (p q : Bool)
      → ((args : List Arg) (n : ℕ)
          → arg_at args n ≡ some a
          → holds uuid_text ilike args w (c n) ≡ q)
      → Means b p
      → Means (add c a b) (p && q)
  unfolding add
  add-Means c a b p q reads m = record {
    next = omega (arith, m.next, length-append b.args (a ∷ []));
    says = λ extra.
        let at = arg_at-append b.args a extra in
        rw append_assoc (
          all_hold-append (b.args ++ a ∷ extra) b.conditions (c b.arg_idx)
          ∙ ap₂ ◌&&◌ (m.says (a ∷ extra)) (reads _ b.arg_idx (rw m.next at)));
  }

  add_plain-Means :
      (c : Condition) (b : Builder) (p q : Bool)
      → ((args : List Arg) → holds uuid_text ilike args w c ≡ q)
      → Means b p
      → Means (add_plain c b) (p && q)
  unfolding add_plain
  add_plain-Means c b p q reads m = record {
    next = m.next;
    says = λ extra.
        all_hold-append (b.args ++ extra) b.conditions c ∙ ap₂ ◌&&◌ (m.says extra) (reads _);
  }

  and_true : (p : Bool) → p ≡ (p && true)
  and_true p = ground arith

  and_assoc : (p q r : Bool) → ((p && q) && r) ≡ (p && (q && r))
  and_assoc p q r = ground arith

  add_text-Means :
      (c : ℕ → Condition) (f : String → Bool) (o : Option String) (b : Builder) (p : Bool)
      → ((s : String) (args : List Arg) (n : ℕ)
          → arg_at args n ≡ some (text s)
          → holds uuid_text ilike args w (c n) ≡ f s)
      → Means b p
      → Means (add_text c o b) (p && if_text f o)
  unfolding add_text
  add_text-Means c f none b p reads m = subst (Means b) (and_true p) m
  add_text-Means c f (some s) b p reads m = elim (Bool-cases (str_eq s "")) [
    | inl e ↦ rw e (subst (Means b) (and_true p) m)
    | inr e ↦ rw e (add-Means c (text s) b p (f s) (reads s) m)
  ]

  add_texts-Means :
      (c : ℕ → Condition) (f : String → Bool) (ss : List String) (b : Builder) (p : Bool)
      → ((ts : List String) (args : List Arg) (n : ℕ)
          → arg_at args n ≡ some (texts ts)
          → holds uuid_text ilike args w (c n) ≡ any f ts)
      → Means b p
      → Means (add_texts c ss b) (p && if_texts f ss)
  unfolding add_texts
  add_texts-Means c f [] b p reads m = subst (Means b) (and_true p) m
  add_texts-Means c f (s ∷ ss) b p reads m =
      add-Means c (texts (s ∷ ss)) b p (any f (s ∷ ss)) (reads (s ∷ ss)) m

  add_flag-Means :
      (c : Condition) (flag : Bool) (q : Bool) (b : Builder) (p : Bool)
      → ((args : List Arg) → holds uuid_text ilike args w c ≡ q)
      → Means b p
      → Means (add_flag c flag b) (p && if_flag flag q)
  unfolding add_flag
  add_flag-Means c true q b p reads m = add_plain-Means c b p q reads m
  add_flag-Means c false q b p reads m = subst (Means b) (and_true p) m

  add_code-Means :
      (o : Option ℤ) (b : Builder) (p : Bool)
      → Means b p
      → Means (add_code o b) (p && if_set (code_is w.response_code) o)
  unfolding add_code holds
  add_code-Means none b p m = subst (Means b) (and_true p) m
  add_code-Means (some i) b p m = add-Means response_code_is (int i) b p _ (λ args n e. rw e) m

  add_span-Means :
      (f t : Option ℕ) (b : Builder) (p : Bool)
      → Means b p
      → Means (add_span f t b) (p && if_span (λ f t. leb f w.created_at && leb w.created_at t) f t)
  unfolding add_span holds
  add_span-Means (some f) (some t) b p m =
      subst (Means (add_span (some f) (some t) b))
        (and_assoc p (leb f w.created_at) (leb w.created_at t))
        (add-Means created_to (time t) (add created_from (time f) b) _ _ (λ args n e. rw e)
          (add-Means created_from (time f) b p _ (λ args n e. rw e) m))
  add_span-Means none t b p m = subst (Means b) (and_true p) m
  add_span-Means (some f) none b p m = subst (Means b) (and_true p) m

  new_builder-Means : Means new_builder true
  unfolding all_hold
  new_builder-Means = record { next = refl; says = λ extra. refl }

  filter_builder-Means : (o : FilterOpts) → Means (filter_builder o) (filter_matches o)
  unfolding filter_builder filter_matches holds
  filter_builder-Means o =
      add_flag-Means some_error o.has_error _ _ _ (λ args. refl)
        (add_flag-Means some_retries o.has_retries _ _ _ (λ args. refl)
          (add_text-Means payload_like (ilike w.payload) o.payload_search _ _ (λ s args n e. rw e)
            (add_span-Means o.from_time o.to_time _ _ (
              add_code-Means o.response_code _ _ (
                add_texts-Means status_any (str_eq (status_text w.delivery_status))
                  o.delivery_statuses _ _ (λ s args n e. rw e)
                  (add_text-Means event_type_is (str_eq w.event_type) o.event_type _ _
                    (λ s args n e. rw e)
                    (add_texts-Means provider_any (str_eq w.provider) o.providers _ _
                      (λ s args n e. rw e) new_builder-Means)))))))

  -- The WHERE clause of a filter, read with its arguments and then those of LIMIT and OFFSET, holds of
  -- a row exactly if the row meets every criterion that the options set; and the numbers of LIMIT and
  -- OFFSET are the next two.
  pub filter_builder-matches :
      (o : FilterOpts) (limit offset : Arg)
      → let b = filter_builder o in
        (all_hold uuid_text ilike (b.args ++ limit ∷ offset ∷ []) w b.conditions ≡ filter_matches o)
        × (arg_at (b.args ++ limit ∷ offset ∷ []) b.arg_idx ≡ some limit)
        × (arg_at (b.args ++ limit ∷ offset ∷ []) (suc b.arg_idx) ≡ some offset)
  filter_builder-matches o limit offset =
      let m = filter_builder-Means o in
      (
        m.says (limit ∷ offset ∷ []),
        rw m.next (arg_at-append (filter_builder o).args limit (offset ∷ [])),
        rw m.next (arg_at-append_next (filter_builder o).args limit offset),
      )

  -- What a lookup asks of a row: one of the ids that are given.
  unfoldable pub lookup_matches : LookupOpts → Bool
  lookup_matches o =
      given (str_eq (uuid_text w.id)) o.webhook_id || given (option_is w.event_id) o.event_id

  -- The WHERE clause of a lookup holds of a row exactly if one of the given ids is the row's.
  pub lookup_builder-matches :
      (o : LookupOpts) (limit offset : Arg)
      → let b = lookup_builder o in
        any_holds uuid_text ilike (b.args ++ limit ∷ offset ∷ []) w b.conditions ≡ lookup_matches o
  unfolding lookup_builder add_text add any_holds holds lookup_matches
  lookup_builder-matches o limit offset = ground arith

-- An id that makes no condition is empty when it is trimmed.
unset_is_empty :
    (o : Option String)
    → given (λ _. true) o ≡ false
    → is_empty (trim_space (codes (deref_str o))) ≡ true
unset_is_empty none h = rw trim_space-nil
unset_is_empty (some s) h = elim (Bool-cases (str_eq s "")) [
  | inl e ↦ rw ((eq_iff s "").0 e, trim_space-nil)
  | inr e ↦ absurd (false≢true (sym (rw e at h)))
]

-- A lookup that passed the validation has a condition, so that its WHERE clause is not empty.
lookup_builder-not_empty :
    (p : SearchRequest) (offset limit : ℤ)
    → validate_lookup p ≡ none
    → (lookup_builder (record {
      webhook_id = p.webhook_id;
      event_id = p.event_id;
      offset = offset;
      limit = limit;
    })).conditions
      ≢ []
unfolding lookup_builder add_text add validate_lookup
lookup_builder-not_empty p offset limit h =
    ground (arith, unset_is_empty p.webhook_id, unset_is_empty p.event_id)
