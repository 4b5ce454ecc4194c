-- ===== src/Notifications/Delivery/Batch.antt =====
-- A loop that writes one row after another, each found by its id: what each write keeps for the
-- rows that are still to come.
use skybeat.Base.{
  ℕ, ◌≡◌, ◌≢◌, Bool, true, List, [], ◌∷◌, All, All-update_where, update_where, ◌==◌, ==_iff,
  Bool-cases, inl, inr, arith,
}
use skybeat.Store.Rows.{Delivery}
use skybeat.Notifications.Delivery.Lifecycle.{IsSound, Advances, Advances-refl}
use skybeat.Notifications.Delivery.Evolution.{Evolves, Progress}

-- Every row with that id passes the test by which the row was chosen.
abbrev pub ReadyAt : (Delivery → Bool) → List Delivery → ℕ → Type 0
ReadyAt p rows id = All (λ d. d.id ≡ id → p d ≡ true) rows

module _ (p : Delivery → Bool) (f : Delivery → Delivery)
    (same_id : (d : Delivery) → (f d).id ≡ d.id) where
  -- Other rows stay ready.
  pub ReadyAt-update_where :
      (id k : ℕ) (rows : List Delivery)
      → k ≢ id
      → ReadyAt p rows k
      → ReadyAt p (update_where (λ d. d.id == id) f rows) k
  ReadyAt-update_where id k rows ne h =
      All-update_where (λ d. d.id ≡ k → p d ≡ true) (λ d. d.id == id) f
        (λ d hit _ e. absurd (ground (arith, ==_iff d.id id, same_id d))) rows h

  module _ (advances : (d : Delivery) → p d ≡ true → IsSound d → Advances d (f d))
      (keeps : (d : Delivery) → p d ≡ true → IsSound d → IsSound (f d)) where
    Evolves-write :
        (id : ℕ) (rows : List Delivery)
        → All IsSound rows
        → ReadyAt p rows id
        → Evolves rows (update_where (λ d. d.id == id) f rows)
    unfolding update_where
    Evolves-write id [] h r = tt
    Evolves-write id (x ∷ xs) h r = elim (Bool-cases (x.id == id)) [
      | inl hit ↦
          rw hit (advances x (r.0 ((==_iff x.id id).0 hit)) h.0, Evolves-write id xs h.1 r.1)
      | inr miss ↦ rw miss (Advances-refl x, Evolves-write id xs h.1 r.1)
    ]

    IsSound-write :
        (id : ℕ) (rows : List Delivery)
        → All IsSound rows
        → ReadyAt p rows id
        → All IsSound (update_where (λ d. d.id == id) f rows)
    unfolding update_where
    IsSound-write id [] h r = tt
    IsSound-write id (x ∷ xs) h r = elim (Bool-cases (x.id == id)) [
      | inl hit ↦ rw hit (keeps x (r.0 ((==_iff x.id id).0 hit)) h.0, IsSound-write id xs h.1 r.1)
      | inr miss ↦ rw miss (h.0, IsSound-write id xs h.1 r.1)
    ]

    pub Progress-write :
        (id : ℕ) (rows : List Delivery)
        → All IsSound rows
        → ReadyAt p rows id
        → Progress rows (update_where (λ d. d.id == id) f rows)
    Progress-write id rows h r = record {
      evolves = Evolves-write id rows h r;
      sound = IsSound-write id rows h r;
    }
