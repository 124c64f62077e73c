-- ===== src/Worker/Cleanup/Retention.antt =====
-- What is left after a purge (worker/cleanup.go).
use vaulthook.Prelude.{
  ℕ, suc, ◌+◌, ◌-◌, ◌≤◌, ◌≡◌, refl, ◌∙◌, ap, Bool, true, none, List, [], ◌∷◌, ◌++◌, Memᴰ, arith,
  not, leb, leb→le, ==_iff, length, take, drop, keep, All, All-keep, length-sort_by, length-take,
  take-append-drop, mem-any, Bool-cases, inl, inr,
}
use vaulthook.Prelude.Sort.{sort_by, insert_by}
use vaulthook.Model.{Webhook}
use vaulthook.Database.{Db}
use vaulthook.Worker.Repository.{has_id}
use vaulthook.Worker.Cleanup.{Faults, is_old, retention, oldest_first, evict, run_cleanup}

module _ {A : Type 0} (p : A → Bool) where
  -- A filter and its complement share out the list.
  length-keep-not :
      (xs : List A) → length (keep (λ x. not (p x)) xs) + length (keep p xs) ≡ length xs
  length-keep-not [] = omega arith
  length-keep-not (x ∷ xs) = ground (arith, length-keep-not xs)

  length-keep-append :
      (xs ys : List A) → length (keep p (xs ++ ys)) ≡ length (keep p xs) + length (keep p ys)
  length-keep-append [] ys = omega arith
  length-keep-append (x ∷ xs) ys = ground (arith, length-keep-append xs ys)

  length-keep-whole : (xs : List A) → All (λ x. p x ≡ true) xs → length (keep p xs) ≡ length xs
  length-keep-whole [] h = refl
  length-keep-whole (x ∷ xs) h = rw h.0 (ap suc (length-keep-whole xs h.1))

module _ {A : Type 0} (before : A → A → Bool) (p : A → Bool) where
  length-keep-insert_by :
      (x : A) (ys : List A) → length (keep p (insert_by before x ys)) ≡ length (keep p (x ∷ ys))
  unfolding insert_by
  length-keep-insert_by x [] = refl
  length-keep-insert_by x (y ∷ ys) = ground (arith, length-keep-insert_by x ys)

  -- Sorting changes no count.
  length-keep-sort_by : (xs : List A) → length (keep p (sort_by before xs)) ≡ length (keep p xs)
  unfolding sort_by
  length-keep-sort_by [] = refl
  length-keep-sort_by (x ∷ xs) =
      length-keep-insert_by x (sort_by before xs) ∙ ground (arith, length-keep-sort_by xs)

All-of-mem :
    (P : Webhook → Type 0) (xs : List Webhook) → ((x : Webhook) → Memᴰ x xs → P x) → All P xs
All-of-mem P [] h = tt
All-of-mem P (x ∷ xs) h = (h x (Memᴰ.head refl), All-of-mem P xs (λ y m. h y (Memᴰ.tail m)))

-- At least the rows that the subselect lists are deleted.
length-evict :
    (excess : ℕ) (ws : List Webhook)
    → excess ≤ length ws
    → length (evict excess ws) + excess ≤ length ws
unfolding evict
length-evict excess ws h =
    let sorted = sort_by oldest_first ws in
    let doomed = take excess sorted in
    let p = λ (w : Webhook). has_id w.id doomed in
    let listed =
      All-of-mem (λ w. p w ≡ true) doomed (λ w m. mem-any _ w doomed m ((==_iff _ _).1 refl)) in
    omega (
      arith,
      length-keep-not p ws,
      length-keep-sort_by oldest_first p ws,
      ap (λ (l : List Webhook). length (keep p l)) (take-append-drop excess sorted),
      length-keep-append p doomed (drop excess sorted),
      length-keep-whole p doomed listed,
      length-take excess sorted,
      length-sort_by oldest_first ws,
    )

abbrev pub no_faults : Faults
no_faults = record { age = none; count = none; evict = none }

-- After a purge without faults, at most the allowed number of events is left.
run_cleanup-max_rows :
    (max_rows : ℕ) (db : Db) → length (run_cleanup max_rows no_faults db).events ≤ max_rows
unfolding run_cleanup
run_cleanup-max_rows max_rows db =
    let young = keep (λ w. not (is_old db.now w)) db.events in
    elim (Bool-cases (leb (length young) max_rows)) [
      | inl few ↦ rw few (leb→le _ _ few)
      | inr many ↦ rw many (ground (arith, length-evict (length young - max_rows) young))
    ]

-- What the age purge keeps was received within the last seven days.
keep-young :
    (now : ℕ) (ws : List Webhook)
    → All (λ w. now ≤ w.received_at + retention) (keep (λ w. not (is_old now w)) ws)
keep-young now [] = tt
keep-young now (w ∷ ws) = elim (Bool-cases (not (is_old now w))) [
  | inl e ↦ rw e (ground arith, keep-young now ws)
  | inr e ↦ rw e (keep-young now ws)
]

-- After a purge without faults, every event that is left was received within the last seven days.
run_cleanup-young :
    (max_rows : ℕ) (db : Db)
    → All (λ w. db.now ≤ w.received_at + retention) (run_cleanup max_rows no_faults db).events
unfolding run_cleanup evict
run_cleanup-young max_rows db =
    let young = keep-young db.now db.events in
    elim (Bool-cases (leb (length (keep (λ w. not (is_old db.now w)) db.events)) max_rows)) [
      | inl few ↦ rw few young
      | inr many ↦ rw many (All-keep _ _ _ young)
    ]

-- After a purge without faults, at most the allowed number of events is left, and each of them was
-- received within the last seven days.
pub run_cleanup-limits :
    (max_rows : ℕ) (db : Db)
    → (length (run_cleanup max_rows no_faults db).events ≤ max_rows)
      × All (λ w. db.now ≤ w.received_at + retention) (run_cleanup max_rows no_faults db).events
run_cleanup-limits max_rows db = (run_cleanup-max_rows max_rows db, run_cleanup-young max_rows db)
