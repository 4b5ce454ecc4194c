-- ===== src/Notifications/Delivery/Evolution.antt =====
-- The table of deliveries over time: sound rows, none lost, each advanced, new ones at the end.
use skybeat.Base.{
  ◌≡◌, Bool, true, List, [], ◌∷◌, ◌++◌, All, update_where, Bool-cases, inl, inr, All-update_where,
}
use skybeat.Store.Rows.{Delivery}
use skybeat.Notifications.Delivery.Lifecycle.{IsSound, Advances, Advances-refl, Advances-trans}

-- Row by row `Advances`; rows may be added behind.
abbrev pub Evolves : List Delivery → List Delivery → Type 0
Evolves [] ys = Unit
Evolves (x ∷ xs) [] = ⊥
Evolves (x ∷ xs) (y ∷ ys) = Advances x y × Evolves xs ys

pub Evolves-refl : (xs : List Delivery) → Evolves xs xs
Evolves-refl [] = tt
Evolves-refl (x ∷ xs) = (Advances-refl x, Evolves-refl xs)

pub Evolves-trans : (xs ys zs : List Delivery) → Evolves xs ys → Evolves ys zs → Evolves xs zs
Evolves-trans [] ys zs p q = tt
Evolves-trans (x ∷ xs) [] zs p q = absurd p
Evolves-trans (x ∷ xs) (y ∷ ys) [] p q = absurd q
Evolves-trans (x ∷ xs) (y ∷ ys) (z ∷ zs) p q =
    (Advances-trans p.0 q.0, Evolves-trans xs ys zs p.1 q.1)

pub Evolves-append : (xs new : List Delivery) → Evolves xs (xs ++ new)
Evolves-append [] new = tt
Evolves-append (x ∷ xs) new = (Advances-refl x, Evolves-append xs new)

-- A table of sound deliveries, and how one transaction may change it.
pub record Progress (xs ys : List Delivery) : Type 0 where
  pub evolves : Evolves xs ys
  pub sound : All IsSound ys

pub Progress-trans : {xs ys zs : List Delivery} → Progress xs ys → Progress ys zs → Progress xs zs
Progress-trans {xs} {ys} {zs} p q = record {
  evolves = Evolves-trans xs ys zs p.evolves q.evolves;
  sound = q.sound;
}

pub Progress-refl : {xs : List Delivery} → All IsSound xs → Progress xs xs
Progress-refl {xs} h = record { evolves = Evolves-refl xs; sound = h }

-- A write to the rows that match, where it advances each sound row that matches.
module _ (p : Delivery → Bool) (f : Delivery → Delivery)
    (advances : (d : Delivery) → p d ≡ true → IsSound d → Advances d (f d))
    (keeps : (d : Delivery) → p d ≡ true → IsSound d → IsSound (f d)) where
  Evolves-update_where : (xs : List Delivery) → All IsSound xs → Evolves xs (update_where p f xs)
  unfolding update_where
  Evolves-update_where [] h = tt
  Evolves-update_where (x ∷ xs) h = elim (Bool-cases (p x)) [
    | inl hit ↦ rw hit (advances x hit h.0, Evolves-update_where xs h.1)
    | inr miss ↦ rw miss (Advances-refl x, Evolves-update_where xs h.1)
  ]

  pub Progress-update_where :
      (xs : List Delivery) → All IsSound xs → Progress xs (update_where p f xs)
  Progress-update_where xs h = record {
    evolves = Evolves-update_where xs h;
    sound = All-update_where IsSound p f keeps xs h;
  }
