-- ===== src/Users/Accounts/Roles.antt =====
-- Which accounts a change through the dashboard can touch.
use skybeat.Base.{
  ◌≡◌, refl, sym, subst, String, Bool, true, false, not, ◌&&◌, List, [], ◌∷◌, ◌++◌, Option, none,
  some, ◌==◌, any, find?, only_match, select, select-append, select-update_where, str_eq,
  update_where, arith, All, All-map,
}
use mathlib.Core.List.{append-nil}
use skybeat.Store.{Db, Env, ok, value_error, integrity_error, user_conflict, require}
use skybeat.Store.Audit.{add_audit}
use skybeat.Store.Kinds.{UserRole}
use skybeat.Store.Rows.{Time, ApplicationUser}
use skybeat.Store.Yields.{Yields, kept, Yields-bind, Yields-ensure, Yields-of, require-found}
use skybeat.Users.Email.{normalize_email}
use skybeat.Users.Accounts.{
  authorize, new_user, insert_user, create_user, changed_user, update_user, given,
}
use skybeat.Users.Accounts.Owner.{
  administers, is_administrator, within, authorize-passed, IsAccounts, protected, Change, bootstrap,
  create, update, perform,
}

insert_user-adds :
    (u : ApplicationUser) (db : Db)
    → Yields (λ db1. db1.users ≡ db.users ++ u ∷ []) (insert_user u db)
unfolding insert_user
insert_user-adds u db =
    Yields-ensure _ integrity_error
      (not (any (λ (x : ApplicationUser). str_eq x.email u.email) db.users)) _ (λ _. kept _ refl)

-- A change that `create_user` or `update_user` makes, not the local bootstrap.
abbrev pub is_dashboard : Change → Bool
is_dashboard (bootstrap email) = false
is_dashboard _ = true

module _ (env : Env) (actor : String) (actor_role : Option UserRole) (now : Time) where
  administers-given :
      (role : Option UserRole) (x : UserRole)
      → (is_administrator actor_role && within actor_role (some x) && within actor_role role) ≡ true
      → administers actor_role (given role x) ≡ true
  administers-given none x h = ground (arith, h)
  administers-given (some r) x h = ground (arith, h)

  appended :
      (u : ApplicationUser) (us : List ApplicationUser)
      → administers actor_role u.role ≡ true
      → select (λ x. not (administers actor_role x.role)) (us ++ u ∷ [])
        ≡ select (λ x. not (administers actor_role x.role)) us
  unfolding select
  appended u us h =
      rw (select-append (λ x. not (administers actor_role x.role)) us (u ∷ []), h) (append-nil _)

  perform-Keeps :
      (change : Change) (db : Db)
      → is_dashboard change ≡ true
      → IsAccounts db.users db.next_user
      → Yields
          (λ db1. protected actor_role db1 ≡ protected actor_role db)
          (perform env actor actor_role now change db)
  unfolding perform create_user update_user add_audit
  perform-Keeps (bootstrap email) db local h = cc
  perform-Keeps (create email display_name role) db _ h =
      Yields-bind _ (create_user env actor actor_role now email display_name role db) _ (λ r e.
        kept _ (
          Yields-of
            (λ (r : ApplicationUser × Db). protected actor_role r.1 ≡ protected actor_role db)
            (Yields-bind _ (authorize actor_role none (some role)) _ (λ _ allowed.
              Yields-bind _ (require value_error (normalize_email env email)) _ (λ normalized _.
                let u = new_user db.next_user normalized display_name role now in
                Yields-bind _ (insert_user u db) _ (λ db1 inserted. kept _ (
                  subst
                    (λ us.
                      select (λ x. not (administers actor_role x.role)) us
                      ≡ protected actor_role db)
                    (sym (
                      Yields-of (λ db1. db1.users ≡ db.users ++ u ∷ []) (insert_user-adds u db)
                        inserted))
                    (appended u db.users
                      (ground (arith, authorize-passed actor_role none (some role) allowed))))))))
            e))
  perform-Keeps (update user_id display_name role is_active) db _ h =
      Yields-bind _ (update_user actor actor_role now user_id display_name role is_active db) _
        (λ r e. kept _ (
          Yields-of
            (λ (r : ApplicationUser × Db). protected actor_role r.1 ≡ protected actor_role db)
            (Yields-bind _
              (require user_conflict (find? (λ (x : ApplicationUser). x.id == user_id) db.users)) _
              (λ u found. Yields-bind _ (authorize actor_role (some u.role) role) _ (λ _ allowed.
                kept _ (
                  by_row u (authorize-passed actor_role (some u.role) role allowed) (
                    only_match (λ (x : ApplicationUser). x.id == user_id) (λ x. x.id == user_id)
                      (λ x e. e) db.users (h.ids user_id) (require-found user_conflict _ found))))))
            e))
    where
      by_row :
          (u : ApplicationUser)
          → (is_administrator actor_role
              && within actor_role (some u.role)
              && within actor_role role)
            ≡ true
          → All (λ (x : ApplicationUser). (x.id == user_id) ≡ true → x ≡ u) db.users
          → select
              (λ x. not (administers actor_role x.role))
              (update_where
                (λ x. x.id == user_id)
                (changed_user display_name role is_active now)
                db.users)
            ≡ protected actor_role db
      by_row u allowed only =
          select-update_where (λ x. not (administers actor_role x.role)) (λ x. x.id == user_id)
            (changed_user display_name role is_active now) db.users
            (All-map (λ x. (x.id == user_id) ≡ true → x ≡ u) _
              (λ x same hit.
                subst
                  (λ (z : ApplicationUser).
                    (not (administers actor_role z.role) ≡ false)
                    × (not (administers actor_role (given role z.role)) ≡ false))
                  (sym (same hit))
                  (ground (arith, allowed), ground (arith, administers-given role u.role allowed)))
              db.users only)

  -- Through the dashboard, and on well-formed accounts, a role changes only the accounts that it
  -- administers: those of administrators and users for the owner, those of users for an
  -- administrator, and none for others. All others stay as they are, and no account comes to be
  -- among them.
  pub perform-protected :
      (change : Change) (db db1 : Db)
      → is_dashboard change ≡ true
      → IsAccounts db.users db.next_user
      → perform env actor actor_role now change db ≡ ok db1
      → protected actor_role db1 ≡ protected actor_role db
  perform-protected change db db1 asked h done =
      Yields-of (λ db1. protected actor_role db1 ≡ protected actor_role db)
        (perform-Keeps change db asked h) done
