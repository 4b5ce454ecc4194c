-- ===== src/Alerts/Incidents/Counts.antt =====
-- How many incidents of a kind a device has, as incidents are opened, closed and changed.
use skybeat.Base.{
  ℕ, ◌≤◌, ◌≡◌, ◌≢◌, refl, Bool, false, List, [], ◌∷◌, some, arith, All, count, find?, ap, All-find?,
  update_where, ◌==◌, ==_iff, Bool-cases, inl, inr,
}
use skybeat.Base.Distinct.{Distinct}
use skybeat.Base.Keyed.{by_key}

module _ {ℓ} {A : Type ℓ} (key : A → ℕ) (p : A → Bool) where
  -- The first match is the row of its key.
  pub find?-by_key :
      (xs : List A) {x : A}
      → Distinct key xs
      → find? p xs ≡ some x
      → find? (by_key key (key x)) xs ≡ some x
  unfolding find?
  find?-by_key [] d h = cc
  find?-by_key (y ∷ xs) {x} d h = elim (Bool-cases (p y)) [
    | inl hit ↦
        let same : y ≡ x = ground arith in
        let same_key : key y ≡ key x = ap key same in ground (arith, same_key)
    | inr miss ↦
        let found : find? p xs ≡ some x = ground arith in
        let other : key x ≢ key y = All-find? (λ z. key z ≢ key y) p xs d.0 found in
        ground (arith, other, ==_iff (key y) (key x), find?-by_key xs {x = x} d.1 found)
  ]

  count-update_zero :
      (q : A → Bool) (f : A → A)
      → ((x : A) → p (f x) ≡ false)
      → (xs : List A) → count p xs ≡ 0
      → count p (update_where q f xs) ≡ 0
  unfolding count update_where
  count-update_zero q f off [] h = refl
  count-update_zero q f off (x ∷ xs) h = ground (arith, off x, count-update_zero q f off xs)

  -- Where one row at most matches, switching it off by its key leaves none.
  pub count-switch_off :
      (f : A → A)
      → ((x : A) → p (f x) ≡ false)
      → (xs : List A) {x : A} → count p xs ≤ 1
      → find? p xs ≡ some x
      → count p (update_where (λ y. key y == key x) f xs) ≡ 0
  unfolding count update_where find?
  count-switch_off f off [] h e = cc
  count-switch_off f off (y ∷ xs) {x} h e = elim (Bool-cases (p y)) [
    | inl hit ↦
        let none_left : count p xs ≡ 0 = ground arith in
        let same : y ≡ x = ground arith in
        let same_key : key y ≡ key x = ap key same in
        ground (arith, off y, same_key, count-update_zero (λ z. key z == key x) f off xs none_left)
    | inr miss ↦
        let found : find? p xs ≡ some x = ground arith in
        let few : count p xs ≤ 1 = ground arith in
        ground (arith, off y, miss, count-switch_off f off xs {x = x} few found)
  ]

  -- Rows with the key of no match may change to other rows that do not match.
  pub count-update_other :
      (k : ℕ) (f : A → A)
      → ((x : A) → p x ≡ false → p (f x) ≡ false)
      → (xs : List A) → All (λ x. key x ≡ k → p x ≡ false) xs
      → count p (update_where (λ x. key x == k) f xs) ≡ count p xs
  unfolding count update_where
  count-update_other k f off [] h = refl
  count-update_other k f off (x ∷ xs) h =
      ground (arith, ==_iff (key x) k, h.0, off x, count-update_other k f off xs h.1)
