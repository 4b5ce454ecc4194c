-- ===== src/Logs/Service/Retention.antt =====
-- What a call of `prune_expired` deletes.
use skybeat.Base.{
  ℕ, zero, suc, ◌-◌, ◌≡◌, ◌≢◌, refl, sym, ◌∙◌, ap, subst, Bool, true, false, not, ◌&&◌, List, [],
  ◌∷◌, some, leb, ◌==◌, ==_iff, ==_refl, arith, any, any-false, find?, select, take, length,
  length-select, count, All, All-map, All-zip, All-take, All-select-holds,
}
use skybeat.Base.Distinct.{Distinct, Distinct-select, Distinct-sort, All-sort}
use skybeat.Base.Keyed.{by_key, find?-unique, All-select-found}
use skybeat.Base.Order.{sort}
use skybeat.Base.Sorting.{count-sort}
use skybeat.Store.{Db, ok, value_error}
use skybeat.Store.Rows.{Time, DeviceLogEntry}
use skybeat.Store.Yields.{kept, Yields-ensure, Yields-of}
use skybeat.Logs.Service.{is_stale, is_older, prune_expired}

module _ {A : Type 0} where
  count-ext : (p q : A → Bool) (xs : List A) → All (λ x. p x ≡ q x) xs → count p xs ≡ count q xs
  unfolding count
  count-ext p q [] h = refl
  count-ext p q (x ∷ xs) h = ground (arith, h.0, count-ext p q xs h.1)

  count-select_swap : (p q : A → Bool) (xs : List A) → count p (select q xs) ≡ count q (select p xs)
  unfolding count select
  count-select_swap p q [] = refl
  count-select_swap p q (x ∷ xs) = ground (arith, count-select_swap p q xs)

  count_everything : (xs : List A) → count (λ _. true) xs ≡ length xs
  unfolding count
  count_everything [] = refl
  count_everything (x ∷ xs) = omega (arith, count_everything xs)

  select-within :
      (p q : A → Bool) (xs : List A)
      → All (λ x. p x ≡ true → q x ≡ true) xs
      → select p (select q xs) ≡ select p xs
  unfolding select
  select-within p q [] h = refl
  select-within p q (x ∷ xs) h = ground (arith, h.0, select-within p q xs h.1)

  -- A relation between all rows of two lists, from the other list's side.
  All-swap :
      {B : Type 0} (R : A → B → Type 0) (xs : List A) (ys : List B)
      → All (λ x. All (R x) ys) xs
      → All (λ y. All (λ x. R x y) xs) ys
  All-swap R xs [] h = tt
  All-swap R xs (y ∷ ys) h = (
    All-map (λ x. R x y × All (R x) ys) (λ x. R x y) (λ x r. r.0) xs h,
    All-swap R xs ys (All-map (λ x. R x y × All (R x) ys) (λ x. All (R x) ys) (λ x r. r.1) xs h),
  )

abbrev id_of : DeviceLogEntry → ℕ
id_of e = e.id

abbrev is_among : List DeviceLogEntry → DeviceLogEntry → Bool
is_among old e = any (λ (x : DeviceLogEntry). x.id == e.id) old

-- The rows that are not among the first so many.
count_rest :
    (n : ℕ) (xs : List DeviceLogEntry)
    → Distinct id_of xs
    → count (λ e. not (is_among (take n xs) e)) xs ≡ length xs - n
unfolding count any
count_rest zero xs h = omega (arith, count_everything xs)
count_rest (suc n) [] h = omega arith
count_rest (suc n) (x ∷ xs) h = rw (==_refl x.id) (
    omega (
      arith,
      count-ext (λ e. not (is_among (x ∷ take n xs) e)) (λ e. not (is_among (take n xs) e)) xs
            (All-map (λ y. y.id ≢ x.id) _ (λ y ne. ground (arith, ne, ==_iff x.id y.id)) xs h.0)
          ∙ count_rest n xs h.1,
    ))

module _ (stale : DeviceLogEntry → Bool) (es : List DeviceLogEntry) (h : Distinct id_of es) where
  abbrev oldest : ℕ → List DeviceLogEntry
  oldest n = take n (sort is_older (select stale es))

  -- Every row with the id of one of the stale rows is stale.
  stale_ids :
      (n : ℕ)
      → All
          (λ (y : DeviceLogEntry). All (λ (x : DeviceLogEntry). x.id ≡ y.id → stale x ≡ true) es)
          (oldest n)
  stale_ids n = All-take P n (sort is_older (select stale es)) (
      All-sort id_of P is_older (select stale es) (
        All-map (λ y. (stale y ≡ true) × (find? (by_key id_of y.id) es ≡ some y)) P
          (λ y facts.
            All-map (λ x. x.id ≡ y.id → x ≡ y) (λ x. x.id ≡ y.id → stale x ≡ true)
              (λ x only e. subst (λ z. stale z ≡ true) (sym (only e)) facts.0) es
              (find?-unique id_of y.id es h facts.1))
          (select stale es)
          (All-zip (λ y. stale y ≡ true) (λ y. find? (by_key id_of y.id) es ≡ some y)
            (select stale es) (All-select-holds stale es) (All-select-found id_of stale es h))))
    where
      P : DeviceLogEntry → Type 0
      P y = All (λ (x : DeviceLogEntry). x.id ≡ y.id → stale x ≡ true) es

  fresh_stay :
      (n : ℕ)
      → select (λ e. not (stale e)) (select (λ e. not (is_among (oldest n) e)) es)
        ≡ select (λ e. not (stale e)) es
  fresh_stay n =
      select-within (λ e. not (stale e)) (λ e. not (is_among (oldest n) e)) es
        (All-map
          (λ (x : DeviceLogEntry).
            All (λ (y : DeviceLogEntry). x.id ≡ y.id → stale x ≡ true) (oldest n))
          _
          (λ x all fresh. ap not (
            any-false (λ y. y.id == x.id) (oldest n)
              (All-map (λ y. x.id ≡ y.id → stale x ≡ true) (λ y. (y.id == x.id) ≡ false)
                (λ y old. ground (arith, old, fresh, ==_iff y.id x.id)) (oldest n) all)))
          es (All-swap (λ y x. x.id ≡ y.id → stale x ≡ true) (oldest n) es (stale_ids n)))

  stale_go :
      (n : ℕ) → count stale (select (λ e. not (is_among (oldest n) e)) es) ≡ count stale es - n
  stale_go n =
      count-select_swap stale (λ e. not (is_among (oldest n) e)) es
      ∙ sym (count-sort (λ e. not (is_among (oldest n) e)) is_older (select stale es))
      ∙ count_rest n (sort is_older (select stale es))
          (Distinct-sort id_of is_older (select stale es) (Distinct-select id_of stale es h))
      ∙ ap (λ k. k - n)
          (sym (count_everything (sort is_older (select stale es)))
            ∙ count-sort (λ _. true) is_older (select stale es)
            ∙ count_everything (select stale es)
            ∙ length-select stale es)

-- On log entries with distinct ids, a call that succeeds deletes no entry that is within the days
-- of retention, and of the others 500, or all if they are fewer: repeated, it comes to an end.
pub prune_expired-deletes :
    (retention_days : ℕ) (now : Time) (db db1 : Db) (deleted : ℕ × ℕ)
    → Distinct (λ (e : DeviceLogEntry). e.id) db.log_entries
    → prune_expired retention_days now db ≡ ok (deleted, db1)
    → (select
          (λ (e : DeviceLogEntry). not (is_stale retention_days now e.received_at))
          db1.log_entries
        ≡ select (λ e. not (is_stale retention_days now e.received_at)) db.log_entries)
      × (count (λ (e : DeviceLogEntry). is_stale retention_days now e.received_at) db1.log_entries
          ≡ count (λ e. is_stale retention_days now e.received_at) db.log_entries - 500)
unfolding prune_expired
prune_expired-deletes retention_days now db db1 deleted h done =
    Yields-of Deletes
      (Yields-ensure Deletes value_error (leb 1 retention_days && leb retention_days 365) _
        (λ _. kept _ (fresh_stay stale db.log_entries h 500, stale_go stale db.log_entries h 500)))
      done
  where
    stale : DeviceLogEntry → Bool
    stale e = is_stale retention_days now e.received_at

    Deletes : (ℕ × ℕ) × Db → Type 0
    Deletes r =
        (select (λ (e : DeviceLogEntry). not (is_stale retention_days now e.received_at))
            r.1.log_entries
          ≡ select (λ e. not (is_stale retention_days now e.received_at)) db.log_entries)
        × (count (λ (e : DeviceLogEntry). is_stale retention_days now e.received_at) r.1.log_entries
            ≡ count (λ e. is_stale retention_days now e.received_at) db.log_entries - 500)
