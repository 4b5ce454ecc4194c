-- ===== src/Base/Sorting.antt =====
-- What sorting keeps, and the row at a place of a list in descending order.
use Prim.Native.Nat.{ℕ, zero, suc, ◌+◌, ◌≤◌, ◌<◌}
use mathlib.Core.Bool.{Bool, not}
use mathlib.Core.List.{List, [], ◌∷◌}
use mathlib.Core.Logic.{◌≢◌, inl, inr}
use mathlib.Core.Option.{Option, none, some}
use mathlib.Core.Path.{◌≡◌, refl, ◌∙◌}
use native.Mathlib.Omega.{arith}
use skybeat.Base.Tests.{ltb, Bool-cases}
use skybeat.Base.Lists.{All, All-map, count, length}
use skybeat.Base.Order.{insert, sort}
use skybeat.Base.Distinct.{Distinct, All-insert, All-sort}

module _ {A : Type 0} (p : A → Bool) (le : A → A → Bool) where
  count-insert : (x : A) (xs : List A) → count p (insert le x xs) ≡ count p (x ∷ xs)
  unfolding count insert
  count-insert x [] = refl
  count-insert x (y ∷ xs) = ground (arith, count-insert x xs)

  pub count-sort : (xs : List A) → count p (sort le xs) ≡ count p xs
  unfolding count sort
  count-sort [] = refl
  count-sort (x ∷ xs) = count-insert x (sort le xs) ∙ ground (arith, count-sort xs)

-- `OFFSET n LIMIT 1`.
abbrev pub row_at {ℓ} : {A : Type ℓ} → ℕ → List A → Option A
row_at n [] = none
row_at zero (x ∷ xs) = some x
row_at (suc n) (x ∷ xs) = row_at n xs

module _ {A : Type 0} (key : A → ℕ) where
  -- Every row has a larger key than those after it.
  abbrev pub Descending : List A → Type 0
  Descending [] = Unit
  Descending (x ∷ xs) = All (λ y. key y < key x) xs × Descending xs

  abbrev pub is_larger : A → A → Bool
  is_larger a b = ltb (key b) (key a)

  insert-Descending :
      (x : A) (xs : List A)
      → All (λ y. key y ≢ key x) xs
      → Descending xs
      → Descending (insert is_larger x xs)
  unfolding insert
  insert-Descending x [] ne h = (tt, tt)
  insert-Descending x (y ∷ xs) ne h = elim (Bool-cases (ltb (key y) (key x))) [
    | inl lt ↦ rw lt (
      (
        ground (arith, lt),
        All-map (λ z. key z < key y) (λ z. key z < key x) (λ z le. ground (arith, lt)) xs h.0,
      ),
      h,
    )
    | inr ge ↦ rw ge (
      All-insert key (λ z. key z < key y) is_larger x xs (ground (arith, ge, ne.0)) h.0,
      insert-Descending x xs ne.1 h.1,
    )
  ]

  pub sort-Descending : (xs : List A) → Distinct key xs → Descending (sort is_larger xs)
  unfolding sort
  sort-Descending [] h = tt
  sort-Descending (x ∷ xs) h =
      insert-Descending x (sort is_larger xs) (All-sort key (λ y. key y ≢ key x) is_larger xs h.0)
        (sort-Descending xs h.1)

  none_reach :
      (k : ℕ) (xs : List A) → All (λ y. key y < k) xs → count (λ y. not (ltb (key y) k)) xs ≡ 0
  unfolding count
  none_reach k [] h = refl
  none_reach k (x ∷ xs) h = ground (arith, h.0, none_reach k xs h.1)

  -- In descending order, the keys from that of the row at a place on are those up to the place.
  pub count-row_at :
      (n : ℕ) (xs : List A) {x : A}
      → Descending xs
      → row_at n xs ≡ some x
      → count (λ y. not (ltb (key y) (key x))) xs ≤ n + 1
  unfolding count
  count-row_at n [] h e = cc
  count-row_at zero (y ∷ xs) {x} h e = ground (arith, e, h.0, none_reach (key y) xs h.0)
  count-row_at (suc n) (y ∷ xs) {x} h e = ground (arith, count-row_at n xs {x = x} h.1 e)

-- A list that has no row at a place is no longer.
pub length-row_at {ℓ} : {A : Type ℓ} (n : ℕ) (xs : List A) → row_at n xs ≡ none → length xs ≤ n
length-row_at n [] e = omega arith
length-row_at zero (x ∷ xs) e = cc
length-row_at (suc n) (x ∷ xs) e = omega (arith, length-row_at n xs e)
