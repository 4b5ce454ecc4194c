-- ===== src/Base/Distinct.antt =====
-- Tables whose rows have distinct keys, as a primary key makes them.
use skybeat.Base.Tests.{◌==◌, ==_iff, if◌then◌else◌, Bool-cases}
use skybeat.Base.Lists.{
  All, All-append, All-select, All-update_where, All-take, select, update_where, take,
}
use skybeat.Base.Order.{insert, sort}
use Prim.Native.Nat.{ℕ, zero, suc, ◌<◌}
use mathlib.Core.Bool.{Bool, true, false}
use mathlib.Core.List.{List, [], ◌∷◌, ◌++◌}
use mathlib.Core.Logic.{◌≢◌, ◌⊎◌, inl, inr}
use mathlib.Core.Path.{◌≡◌, refl, sym, subst}
use native.Mathlib.Omega.{arith}

module _ {ℓ} {A : Type ℓ} (key : A → ℕ) where
  abbrev pub Distinct : List A → Type 0
  Distinct [] = Unit
  Distinct (x ∷ xs) = All (λ y. key y ≢ key x) xs × Distinct xs

  pub Distinct-select : (p : A → Bool) (xs : List A) → Distinct xs → Distinct (select p xs)
  unfolding select
  Distinct-select p [] h = tt
  Distinct-select p (x ∷ xs) h = elim (Bool-cases (p x)) [
    | inl hit ↦ rw hit (All-select _ p xs h.0, Distinct-select p xs h.1)
    | inr miss ↦ rw miss (Distinct-select p xs h.1)
  ]

  pub Distinct-take : (n : ℕ) (xs : List A) → Distinct xs → Distinct (take n xs)
  Distinct-take zero xs h = tt
  Distinct-take (suc n) [] h = tt
  Distinct-take (suc n) (x ∷ xs) h = (All-take _ n xs h.0, Distinct-take n xs h.1)

  pub All-insert {κ} :
      (P : A → Type κ) (b : A → A → Bool) (x : A) (xs : List A)
      → P x
      → All P xs
      → All P (insert b x xs)
  unfolding insert
  All-insert P b x [] hx h = (hx, tt)
  All-insert P b x (y ∷ xs) hx h = elim (Bool-cases (b x y)) [
    | inl e ↦ rw e (hx, h)
    | inr e ↦ rw e (h.0, All-insert P b x xs hx h.1)
  ]

  pub All-sort {κ} :
      (P : A → Type κ) (b : A → A → Bool) (xs : List A) → All P xs → All P (sort b xs)
  unfolding sort
  All-sort P b [] h = tt
  All-sort P b (x ∷ xs) h = All-insert P b x (sort b xs) h.0 (All-sort P b xs h.1)

  Distinct-insert :
      (b : A → A → Bool) (x : A) (xs : List A)
      → All (λ y. key y ≢ key x) xs
      → Distinct xs
      → Distinct (insert b x xs)
  unfolding insert
  Distinct-insert b x [] hx h = (tt, tt)
  Distinct-insert b x (y ∷ xs) hx h = elim (Bool-cases (b x y)) [
    | inl e ↦ rw e (hx, h)
    | inr e ↦ rw e (
      All-insert (λ z. key z ≢ key y) b x xs (λ q. hx.0 (sym q)) h.0,
      Distinct-insert b x xs hx.1 h.1,
    )
  ]

  pub Distinct-sort : (b : A → A → Bool) (xs : List A) → Distinct xs → Distinct (sort b xs)
  unfolding sort
  Distinct-sort b [] h = tt
  Distinct-sort b (x ∷ xs) h =
      Distinct-insert b x (sort b xs) (All-sort (λ y. key y ≢ key x) b xs h.0)
        (Distinct-sort b xs h.1)

  -- A write that leaves the keys alone.
  pub All-key-update_where :
      (P : ℕ → Type 0) (p : A → Bool) (f : A → A)
      → ((x : A) → key (f x) ≡ key x)
      → (xs : List A) → All (λ x. P (key x)) xs
      → All (λ x. P (key x)) (update_where p f xs)
  All-key-update_where P p f same xs h =
      All-update_where (λ x. P (key x)) p f (λ x _ hx. subst P (sym (same x)) hx) xs h

  pub Distinct-update_where :
      (p : A → Bool) (f : A → A)
      → ((x : A) → key (f x) ≡ key x)
      → (xs : List A) → Distinct xs
      → Distinct (update_where p f xs)
  unfolding update_where
  Distinct-update_where p f same [] h = tt
  Distinct-update_where p f same (x ∷ xs) h = (
    subst (λ k. All (λ y. key y ≢ k) (update_where p f xs)) (head_key (Bool-cases (p x)))
        (All-key-update_where (λ k. k ≢ key x) p f same xs h.0),
    Distinct-update_where p f same xs h.1,
  )
    where
      head_key : (p x ≡ true) ⊎ (p x ≡ false) → key x ≡ key (if p x then f x else x)
      head_key (inl e) = rw e (sym (same x))
      head_key (inr e) = rw e refl

  -- A row whose key is new can be added.
  pub Distinct-append_one :
      (xs : List A) (x : A) → All (λ y. key y < key x) xs → Distinct xs → Distinct (xs ++ x ∷ [])
  Distinct-append_one [] x b h = (tt, tt)
  Distinct-append_one (y ∷ xs) x b h = (
    All-append _ xs (x ∷ []) h.0 ((λ e. absurd (omega (arith, e, b.0))), tt),
    Distinct-append_one xs x b.1 h.1,
  )

-- Replacing the row with a key by another row of that key.
module _ {ℓ} {A : Type ℓ} (key : A → ℕ) (d : A) where
  All-ne-replace :
      (k : ℕ) (rows : List A)
      → All (λ x. key x ≢ k) rows
      → All (λ x. key x ≢ k) (update_where (λ x. key x == key d) (λ _. d) rows)
  unfolding update_where
  All-ne-replace k [] h = tt
  All-ne-replace k (x ∷ rows) h =
      (ground (arith, ==_iff (key x) (key d), h.0), All-ne-replace k rows h.1)

  pub Distinct-replace :
      (rows : List A)
      → Distinct key rows
      → Distinct key (update_where (λ x. key x == key d) (λ _. d) rows)
  unfolding update_where
  Distinct-replace [] h = tt
  Distinct-replace (x ∷ rows) h = elim (Bool-cases (key x == key d)) [
    | inl e ↦ rw e (
      subst (λ n. All (λ y. key y ≢ n) (update_where (λ z. key z == key d) (λ _. d) rows))
          (ground (arith, ==_iff (key x) (key d))) (All-ne-replace (key x) rows h.0),
      Distinct-replace rows h.1,
    )
    | inr e ↦ rw e (All-ne-replace (key x) rows h.0, Distinct-replace rows h.1)
  ]

-- A row with a key that no other has.
pub Distinct-append_fresh :
    {A : Type 0} (key : A → ℕ) (xs : List A) (x : A)
    → All (λ y. key y ≢ key x) xs
    → Distinct key xs
    → Distinct key (xs ++ x ∷ [])
Distinct-append_fresh key [] x f h = (tt, tt)
Distinct-append_fresh key (y ∷ xs) x f h = (
  All-append _ xs (x ∷ []) h.0 ((λ e. absurd (f.0 (sym e))), tt),
  Distinct-append_fresh key xs x f.1 h.1,
)
