-- ===== src/Base/Lists.antt =====
-- Tables as lists of rows: the first match, the matches, changing the rows that match.
use Prim.Native.Nat.{ℕ, zero, suc, ◌+◌, ◌≤◌}
use mathlib.Core.Bool.{Bool, true, false, ◌||◌, ◌&&◌}
use mathlib.Core.List.{List, [], ◌∷◌, ◌++◌}
use mathlib.Core.Logic.{inl, inr}
use mathlib.Core.Option.{Option, none, some, some-injective}
use mathlib.Core.Path.{◌≡◌, refl, subst}
use native.Mathlib.Omega.{arith}
use skybeat.Base.Tests.{if◌then◌else◌, Bool-cases}

module _ {ℓ} {A : Type ℓ} where
  abbrev pub length : List A → ℕ
  length [] = 0
  length (x ∷ xs) = suc (length xs)

  abbrev pub take : ℕ → List A → List A
  take zero xs = []
  take (suc n) [] = []
  take (suc n) (x ∷ xs) = x ∷ take n xs

  unfoldable pub find? : (A → Bool) → List A → Option A
  find? p [] = none
  find? p (x ∷ xs) = if p x then some x else find? p xs

  unfoldable pub any : (A → Bool) → List A → Bool
  any p [] = false
  any p (x ∷ xs) = p x || any p xs

  -- The rows that match, in order.
  unfoldable pub select : (A → Bool) → List A → List A
  select p [] = []
  select p (x ∷ xs) = let rest = select p xs in if p x then x ∷ rest else rest

  -- The same rows, those that match changed.
  unfoldable pub update_where : (A → Bool) → (A → A) → List A → List A
  update_where p f [] = []
  update_where p f (x ∷ xs) = (if p x then f x else x) ∷ update_where p f xs

  unfoldable pub count : (A → Bool) → List A → ℕ
  count p [] = 0
  count p (x ∷ xs) = (if p x then 1 else 0) + count p xs

  abbrev pub All {κ} : (A → Type κ) → List A → Type κ
  All P [] = Unit
  All P (x ∷ xs) = P x × All P xs

module _ {ℓ κ} {A : Type ℓ} (P : A → Type κ) where
  pub All-append : (xs ys : List A) → All P xs → All P ys → All P (xs ++ ys)
  All-append [] ys hx hy = hy
  All-append (x ∷ xs) ys hx hy = (hx.0, All-append xs ys hx.1 hy)

  pub All-update_where :
      (p : A → Bool) (f : A → A)
      → ((x : A) → p x ≡ true → P x → P (f x))
      → (xs : List A) → All P xs
      → All P (update_where p f xs)
  unfolding update_where
  All-update_where p f keep [] h = tt
  All-update_where p f keep (x ∷ xs) h = (here (p x) refl, All-update_where p f keep xs h.1)
    where
      here : (b : Bool) → p x ≡ b → P (if b then f x else x)
      here true e = keep x e h.0
      here false e = h.0

  pub All-select : (p : A → Bool) (xs : List A) → All P xs → All P (select p xs)
  unfolding select
  All-select p [] h = tt
  All-select p (x ∷ xs) h = elim (Bool-cases (p x)) [
    | inl hit ↦ rw hit (h.0, All-select p xs h.1)
    | inr miss ↦ rw miss (All-select p xs h.1)
  ]

  pub All-take : (n : ℕ) (xs : List A) → All P xs → All P (take n xs)
  All-take zero xs h = tt
  All-take (suc n) [] h = tt
  All-take (suc n) (x ∷ xs) h = (h.0, All-take n xs h.1)

  pub All-find? : (p : A → Bool) (xs : List A) {x : A} → All P xs → find? p xs ≡ some x → P x
  unfolding find?
  All-find? p [] h e = cc
  All-find? p (y ∷ xs) {x} h e = elim (Bool-cases (p y)) [
    | inl hit ↦ subst P (some-injective _ _ (rw hit at e)) h.0
    | inr miss ↦ All-find? p xs h.1 (rw miss at e)
  ]

module _ {ℓ κ μ} {A : Type ℓ} (P : A → Type κ) (Q : A → Type μ) where
  pub All-map : ((x : A) → P x → Q x) → (xs : List A) → All P xs → All Q xs
  All-map f [] h = tt
  All-map f (x ∷ xs) h = (f x h.0, All-map f xs h.1)

  pub All-zip : (xs : List A) → All P xs → All Q xs → All (λ x. P x × Q x) xs
  All-zip [] p q = tt
  All-zip (x ∷ xs) p q = ((p.0, q.0), All-zip xs p.1 q.1)

module _ {ℓ} {A : Type ℓ} (p : A → Bool) where
  pub All-select-holds : (xs : List A) → All (λ x. p x ≡ true) (select p xs)
  unfolding select
  All-select-holds [] = tt
  All-select-holds (x ∷ xs) = elim (Bool-cases (p x)) [
    | inl hit ↦ rw hit (hit, All-select-holds xs)
    | inr miss ↦ rw miss (All-select-holds xs)
  ]

  -- The first match matches.
  pub find?-holds : (xs : List A) {x : A} → find? p xs ≡ some x → p x ≡ true
  unfolding find?
  find?-holds [] e = cc
  find?-holds (y ∷ xs) {x} e = elim (Bool-cases (p y)) [
    | inl hit ↦ subst (λ z. p z ≡ true) (some-injective _ _ (rw hit at e)) hit
    | inr miss ↦ find?-holds xs (rw miss at e)
  ]

  -- Nothing is found exactly where no row counts.
  pub find?-none_of_count : (xs : List A) → count p xs ≡ 0 → find? p xs ≡ none
  unfolding find? count
  find?-none_of_count [] h = refl
  find?-none_of_count (y ∷ xs) h = ground (arith, find?-none_of_count xs)

  pub count_of_find?-none : (xs : List A) → find? p xs ≡ none → count p xs ≡ 0
  unfolding find? count
  count_of_find?-none [] h = refl
  count_of_find?-none (y ∷ xs) h = ground (arith, count_of_find?-none xs)

  pub count-append : (xs ys : List A) → count p (xs ++ ys) ≡ count p xs + count p ys
  unfolding count
  count-append [] ys = omega arith
  count-append (x ∷ xs) ys = ground (arith, count-append xs ys)

module _ {ℓ} {A : Type ℓ} where
  pub length-select : (p : A → Bool) (xs : List A) → length (select p xs) ≡ count p xs
  unfolding select count
  length-select p [] = refl
  length-select p (x ∷ xs) = ground (arith, length-select p xs)

  -- A write after which fewer rows count than did before.
  pub count-update-le :
      (p q r : A → Bool) (f : A → A)
      → ((x : A) → r x ≡ true → p (f x) ≡ true → q x ≡ true)
      → ((x : A) → p x ≡ true → q x ≡ true)
      → (xs : List A) → count p (update_where r f xs) ≤ count q xs
  unfolding count update_where
  count-update-le p q r f h k [] = omega arith
  count-update-le p q r f h k (x ∷ xs) = ground (arith, h x, k x, count-update-le p q r f h k xs)

module _ {ℓ} {A : Type ℓ} (p : A → Bool) where
  -- A row at the end is found where no other matches.
  pub find?-appended :
      (x : A) (xs : List A) → any p xs ≡ false → p x ≡ true → find? p (xs ++ x ∷ []) ≡ some x
  unfolding any find?
  find?-appended x [] h e = ground (arith, e)
  find?-appended x (y ∷ xs) h e = ground (arith, find?-appended x xs)

  pub any-false : (xs : List A) → All (λ x. p x ≡ false) xs → any p xs ≡ false
  unfolding any
  any-false [] h = refl
  any-false (x ∷ xs) h = ground (arith, h.0, any-false xs h.1)

  -- No row matches more than one does not.
  pub any-false_and :
      (q : A → Bool) (xs : List A) → any p xs ≡ false → any (λ x. p x && q x) xs ≡ false
  unfolding any
  any-false_and q [] h = refl
  any-false_and q (x ∷ xs) h = ground (arith, any-false_and q xs)
