-- ===== src/Base/Selections.antt =====
-- What writes, additions and selections do to the rows that match a test.
use Prim.Native.Nat.{◌≤◌}
use mathlib.Core.Bool.{Bool, true, false, ◌||◌}
use mathlib.Core.List.{List, [], ◌∷◌, ◌++◌}
use mathlib.Core.Logic.{inl, inr}
use mathlib.Core.Option.{some}
use mathlib.Core.Path.{◌≡◌, refl, sym, subst}
use native.Mathlib.Omega.{arith}
use skybeat.Base.Lists.{
  All, All-find?, find?, find?-holds, any, select, update_where, count, count-append,
}
use skybeat.Base.Tests.{if◌then◌else◌, Bool-cases}

module _ {ℓ} {A : Type ℓ} (p : A → Bool) where
  pub none_match {κ} :
      (P : A → Type κ) (xs : List A) → count p xs ≡ 0 → All (λ x. p x ≡ true → P x) xs
  unfolding count
  none_match P [] h = tt
  none_match P (x ∷ xs) h = ((λ e. absurd (ground (arith, e))), none_match P xs (ground arith))

  -- Where one row at most matches, the row that is found by a test that is no weaker is that row.
  pub only_match :
      (r : A → Bool)
      → ((x : A) → r x ≡ true → p x ≡ true)
      → (xs : List A) {c : A} → count p xs ≤ 1
      → find? r xs ≡ some c
      → All (λ x. p x ≡ true → x ≡ c) xs
  unfolding count find?
  only_match r stronger [] few found = tt
  only_match r stronger (x ∷ xs) {c} few found = elim (Bool-cases (p x)) [
    | inl hit ↦
        let no_more : count p xs ≡ 0 = ground arith in
        ((λ _. first_is hit no_more (r x) refl), none_match (λ z. z ≡ c) xs no_more)
    | inr miss ↦ (
      (λ e. absurd (ground (arith, e))),
      only_match r stronger xs {c = c} (ground arith) (ground (arith, stronger x)),
    )
  ]
    where
      first_is : p x ≡ true → count p xs ≡ 0 → (b : Bool) → r x ≡ b → x ≡ c
      first_is hit no_more true e = ground (arith, hit, e)
      first_is hit no_more false e =
          let later : find? r xs ≡ some c = ground (arith, hit, e) in
          absurd (
            All-find? (λ z. p z ≡ true → ⊥) r xs (none_match (λ _. ⊥) xs no_more) later
              (stronger c (find?-holds r xs later)))

module _ {ℓ} {A : Type ℓ} where
  -- A write to rows that the selection leaves out, before and after.
  pub select-update_where :
      (p r : A → Bool) (f : A → A) (xs : List A)
      → All (λ x. r x ≡ true → (p x ≡ false) × (p (f x) ≡ false)) xs
      → select p (update_where r f xs) ≡ select p xs
  unfolding select update_where
  select-update_where p r f [] h = refl
  select-update_where p r f (x ∷ xs) h = rw (select-update_where p r f xs h.1) (by_test (r x) refl)
    where
      by_test :
          (b : Bool)
          → r x ≡ b
          → (let y = if b then f x else x in if p y then y ∷ select p xs else select p xs)
            ≡ (if p x then x ∷ select p xs else select p xs)
      by_test true e = rw ((h.0 e).0, (h.0 e).1) refl
      by_test false e = refl

  pub select-append :
      (p : A → Bool) (xs ys : List A) → select p (xs ++ ys) ≡ select p xs ++ select p ys
  unfolding select
  select-append p [] ys = refl
  select-append p (x ∷ xs) ys = ground (arith, select-append p xs ys)

  pub any-count : (p : A → Bool) (xs : List A) → any p xs ≡ false → count p xs ≡ 0
  unfolding any count
  any-count p [] h = refl
  any-count p (x ∷ xs) h = ground (arith, any-count p xs)

  -- One more row keeps at most one match, where there was none if it matches.
  pub count-grown :
      (p : A → Bool) (xs : List A) (x : A)
      → count p xs ≤ 1
      → (p x ≡ true → count p xs ≡ 0)
      → count p (xs ++ x ∷ []) ≤ 1
  unfolding count
  count-grown p xs x h alone =
      subst (λ n. n ≤ 1) (sym (count-append p xs (x ∷ []))) (ground (arith, h, alone))

  -- A write that reaches every match leaves each with the property that it gives.
  pub All-update_where-covered {κ} :
      (p r : A → Bool) (f : A → A) (Q : A → Type κ) (xs : List A)
      → All (λ x. p x ≡ true → r x ≡ true) xs
      → ((x : A) → Q (f x))
      → All (λ x. p x ≡ true → Q x) (update_where r f xs)
  unfolding update_where
  All-update_where-covered p r f Q [] h good = tt
  All-update_where-covered p r f Q (x ∷ xs) h good =
      (by_test (r x) refl, All-update_where-covered p r f Q xs h.1 good)
    where
      by_test : (b : Bool) → r x ≡ b → (p (if b then f x else x) ≡ true → Q (if b then f x else x))
      by_test true e = λ _. good x
      by_test false e = λ hit. absurd (ground (arith, e, h.0 hit))

  pub any-update_where :
      (p r : A → Bool) (f : A → A)
      → ((x : A) → p (f x) ≡ p x)
      → (xs : List A) → any p (update_where r f xs) ≡ any p xs
  unfolding any update_where
  any-update_where p r f same [] = refl
  any-update_where p r f same (x ∷ xs) = ground (arith, same x, any-update_where p r f same xs)

  pub any-append : (p : A → Bool) (xs ys : List A) → any p xs ≡ true → any p (xs ++ ys) ≡ true
  unfolding any
  any-append p [] ys h = cc
  any-append p (x ∷ xs) ys h = ground (arith, any-append p xs ys)

  pub any-or_left :
      (p q : A → Bool) (xs : List A) → any (λ x. p x || q x) xs ≡ false → any p xs ≡ false
  unfolding any
  any-or_left p q [] h = refl
  any-or_left p q (x ∷ xs) h = ground (arith, any-or_left p q xs)

  -- The first match is there.
  pub any-find? : (p : A → Bool) (xs : List A) {x : A} → find? p xs ≡ some x → any p xs ≡ true
  unfolding any find?
  any-find? p [] h = cc
  any-find? p (y ∷ xs) {x} h = ground (arith, any-find? p xs {x = x})
