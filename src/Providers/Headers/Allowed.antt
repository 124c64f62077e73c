-- ===== src/Providers/Headers/Allowed.antt =====
-- The headers that SetForwardHeaders of providers/*/service.go adds to a request.
use vaulthook.Prelude.{
  ◌≡◌, refl, subst, String, true, List, [], ◌∷◌, ◌++◌, Memᴰ, Text, text_eq, canonical_header_key,
  any, All, Bool-cases, inl, inr,
}
use vaulthook.Model.{Result, ok}
use vaulthook.Providers.Headers.{
  Header, Parsed, add_values, is_allowed, add_allowed, set_forward_headers,
}

-- Every name in the header is in the list.
abbrev pub IsForwarded : List Text → Header → Type 0
IsForwarded allowed h = All (λ kv. any (text_eq kv.0) allowed ≡ true) h

append-All :
    (allowed : List Text) (h : Header) (k : Text) (v : String)
    → IsForwarded allowed h
    → any (text_eq k) allowed ≡ true
    → IsForwarded allowed (h ++ (k, v) ∷ [])
append-All allowed [] k v f a = (a, tt)
append-All allowed (x ∷ h) k v f a = (f.0, append-All allowed h k v f.1 a)

add_values-IsForwarded :
    (allowed : List Text) (k : Text) (vs : List String) (h : Header)
    → is_allowed allowed k ≡ true
    → IsForwarded allowed h
    → IsForwarded allowed (add_values k vs h)
unfolding add_values
add_values-IsForwarded allowed k [] h a f = f
add_values-IsForwarded allowed k (v ∷ vs) h a f =
    add_values-IsForwarded allowed k vs (h ++ (canonical_header_key k, v) ∷ []) a
      (append-All allowed h (canonical_header_key k) v f a)

add_allowed-IsForwarded :
    (allowed : List Text) (parsed : Parsed) (h : Header)
    → IsForwarded allowed h
    → IsForwarded allowed (add_allowed allowed parsed h)
unfolding add_allowed
add_allowed-IsForwarded allowed [] h f = f
add_allowed-IsForwarded allowed ((k, vals) ∷ parsed) h f =
    elim (Bool-cases (is_allowed allowed k)) [
      | inl a ↦ rw a (
          add_allowed-IsForwarded allowed parsed (add_values k vals h)
            (add_values-IsForwarded allowed k vals h a f))
      | inr a ↦ rw a (add_allowed-IsForwarded allowed parsed h f)
    ]

module _ (x : Text × String) where
  mem-append_one : (h : Header) (y : Text × String) → Memᴰ x h → Memᴰ x (h ++ y ∷ [])
  mem-append_one [] y m = elim m [ ]
  mem-append_one (z ∷ h) y (Memᴰ.head e) = Memᴰ.head e
  mem-append_one (z ∷ h) y (Memᴰ.tail m) = Memᴰ.tail (mem-append_one h y m)

  mem-last : (h : Header) → Memᴰ x (h ++ x ∷ [])
  mem-last [] = Memᴰ.head refl
  mem-last (z ∷ h) = Memᴰ.tail (mem-last h)

  mem-add_values :
      (k : Text) (vs : List String) (h : Header) → Memᴰ x h → Memᴰ x (add_values k vs h)
  unfolding add_values
  mem-add_values k [] h m = m
  mem-add_values k (v ∷ vs) h m = mem-add_values k vs _ (mem-append_one h _ m)

  mem-add_allowed :
      (allowed : List Text) (parsed : Parsed) (h : Header)
      → Memᴰ x h
      → Memᴰ x (add_allowed allowed parsed h)
  unfolding add_allowed
  mem-add_allowed allowed [] h m = m
  mem-add_allowed allowed ((k, vals) ∷ parsed) h m = elim (Bool-cases (is_allowed allowed k)) [
    | inl a ↦ rw a (mem-add_allowed allowed parsed _ (mem-add_values k vals h m))
    | inr a ↦ rw a (mem-add_allowed allowed parsed h m)
  ]

add_values-mem :
    (k : Text) (v : String) (vs : List String) (h : Header)
    → Memᴰ v vs
    → Memᴰ (canonical_header_key k, v) (add_values k vs h)
unfolding add_values
add_values-mem k v [] h m = elim m [ ]
add_values-mem k v (w ∷ vs) h (Memᴰ.head e) =
    mem-add_values (canonical_header_key k, v) k vs _
      (subst (λ u. Memᴰ (canonical_header_key k, v) (h ++ (canonical_header_key k, u) ∷ [])) e
        (mem-last (canonical_header_key k, v) h))
add_values-mem k v (w ∷ vs) h (Memᴰ.tail m) = add_values-mem k v vs _ m

add_allowed-mem :
    (allowed : List Text) (k : Text) (v : String) (vals : List String) (parsed : Parsed)
    (h : Header)
    → is_allowed allowed k ≡ true
    → Memᴰ (k, vals) parsed
    → Memᴰ v vals
    → Memᴰ (canonical_header_key k, v) (add_allowed allowed parsed h)
unfolding add_allowed
add_allowed-mem allowed k v vals [] h a m n = elim m [ ]
add_allowed-mem allowed k v vals ((j, ws) ∷ parsed) h a (Memᴰ.head e) n =
    subst (λ p. Memᴰ (canonical_header_key k, v) (add_allowed allowed (p ∷ parsed) h)) e
      (rw a (
        mem-add_allowed (canonical_header_key k, v) allowed parsed _ (add_values-mem k v vals h n)))
add_allowed-mem allowed k v vals ((j, ws) ∷ parsed) h a (Memᴰ.tail m) n =
    add_allowed-mem allowed k v vals parsed _ a m n

module _ (unmarshal : String → Result Parsed) (headers : String) (parsed : Parsed)
    (read : unmarshal headers ≡ ok parsed) where
  -- From headers that can be read, only names of the provider's list are forwarded.
  pub set_forward_headers-IsForwarded :
      (allowed : List Text)
      → (h : Header) × (set_forward_headers unmarshal allowed headers [] ≡ ok h)
        × IsForwarded allowed h
  unfolding set_forward_headers
  set_forward_headers-IsForwarded allowed =
      (add_allowed allowed parsed [], rw read, add_allowed-IsForwarded allowed parsed [] tt)

  -- From headers that can be read, every value of a header whose canonical name is in the provider's
  -- list is forwarded under that name.
  pub set_forward_headers-mem :
      (allowed : List Text) (k : Text) (v : String) (vals : List String)
      → is_allowed allowed k ≡ true
      → Memᴰ (k, vals) parsed
      → Memᴰ v vals
      → (h : Header) × (set_forward_headers unmarshal allowed headers [] ≡ ok h)
        × Memᴰ (canonical_header_key k, v) h
  unfolding set_forward_headers
  set_forward_headers-mem allowed k v vals a m n =
      (add_allowed allowed parsed [], rw read, add_allowed-mem allowed k v vals parsed [] a m n)
