-- ===== src/Base/Keyed.antt =====
-- The row with a key, in a table whose keys are distinct.
use Prim.Native.Nat.{ℕ}
use mathlib.Core.Bool.{Bool, true, false}
use mathlib.Core.List.{List, [], ◌∷◌, ◌++◌}
use mathlib.Core.Logic.{◌≢◌, inl, inr}
use mathlib.Core.Option
use mathlib.Core.Option.{Option, none, some, some-injective}
use mathlib.Core.Path.{◌≡◌, refl}
use native.Mathlib.Omega.{arith}
use skybeat.Base.Distinct.{Distinct}
use skybeat.Base.Lists.{All, All-map, All-zip, All-select, find?, select, update_where}
use skybeat.Base.Tests.{◌==◌, ==_iff, if◌then◌else◌, Bool-cases}

module _ {ℓ} {A : Type ℓ} (key : A → ℕ) where
  abbrev pub by_key : ℕ → A → Bool
  by_key k x = key x == k

  -- What a write does to the row with a key.
  pub find?-update_where :
      (p : A → Bool) (f : A → A)
      → ((x : A) → key (f x) ≡ key x)
      → (k : ℕ) (xs : List A)
      → find? (by_key k) (update_where p f xs)
        ≡ Option.map (λ x. if p x then f x else x) (find? (by_key k) xs)
  unfolding find? update_where
  find?-update_where p f same k [] = refl
  find?-update_where p f same k (x ∷ xs) = ground (arith, same x, find?-update_where p f same k xs)

  pub find?-append :
      (k : ℕ) (xs ys : List A) {x : A}
      → find? (by_key k) xs ≡ some x
      → find? (by_key k) (xs ++ ys) ≡ some x
  unfolding find?
  find?-append k [] ys h = cc
  find?-append k (y ∷ xs) ys {x} h = ground (arith, find?-append k xs ys {x = x})

  -- No other row has the key of the row that is found.
  pub find?-unique :
      (k : ℕ) (xs : List A) {x : A}
      → Distinct key xs
      → find? (by_key k) xs ≡ some x
      → All (λ y. key y ≡ k → y ≡ x) xs
  unfolding find?
  find?-unique k [] d h = tt
  find?-unique k (y ∷ xs) {x} d h = elim (Bool-cases (key y == k)) [
    | inl hit ↦ (
      (λ _. ground arith),
      All-map (λ z. key z ≢ key y) (λ z. key z ≡ k → z ≡ x)
          (λ z ne e. absurd (ground (arith, ne, ==_iff (key y) k))) xs d.0,
    )
    | inr miss ↦ ((λ e. ground arith), find?-unique k xs d.1 (ground arith))
  ]

  -- Every row of a selection is the one that its key finds.
  pub All-select-found :
      (p : A → Bool) (xs : List A)
      → Distinct key xs
      → All (λ x. find? (by_key (key x)) xs ≡ some x) (select p xs)
  unfolding select
  All-select-found p [] d = tt
  All-select-found p (x ∷ xs) d = split (p x) (later (All-select-found p xs d.1))
    where
      head_found : find? (by_key (key x)) (x ∷ xs) ≡ some x
      head_found = unfold find? in ground arith

      later :
          All (λ z. find? (by_key (key z)) xs ≡ some z) (select p xs)
          → All (λ z. find? (by_key (key z)) (x ∷ xs) ≡ some z) (select p xs)
      later rest =
          All-map (λ z. (key z ≢ key x) × (find? (by_key (key z)) xs ≡ some z))
            (λ z. find? (by_key (key z)) (x ∷ xs) ≡ some z)
            (λ z facts. unfold find? in ground (arith, facts.0, facts.1)) (select p xs)
            (All-zip (λ z. key z ≢ key x) (λ z. find? (by_key (key z)) xs ≡ some z) (select p xs)
              (All-select _ p xs d.0) rest)

      split :
          (b : Bool)
          → All (λ z. find? (by_key (key z)) (x ∷ xs) ≡ some z) (select p xs)
          → All
              (λ z. find? (by_key (key z)) (x ∷ xs) ≡ some z)
              (if b then x ∷ select p xs else select p xs)
      split true rest = (head_found, rest)
      split false rest = rest
