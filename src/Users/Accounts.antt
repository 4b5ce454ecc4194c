-- ===== src/Users/Accounts.antt =====
-- `authorize_user_change` and `UserService` of server/app/users/service.py. A method is a transaction
-- at `now`; `actor` and `actor_role` are the service's.
pub mod Owner
pub mod Roles
use skybeat.Base.{
  ℕ, ◌+◌, String, Bool, true, false, not, List, [], ◌∷◌, ◌++◌, Option, none, some, ◌==◌, any, find?,
  str_eq, update_where,
}
use skybeat.Store.{
  Db, Env, Result, ok, raise, value_error, integrity_error, user_denied, user_conflict,
  owner_configured, ◌>>=◌, require, ensure,
}
use skybeat.Store.Audit.{add_audit}
use skybeat.Store.Kinds.{UserRole, owner, admin, user, is_owner}
use skybeat.Store.Rows.{Time, ApplicationUser, UserDetails, user_details}
use skybeat.Users.Email.{normalize_email}

-- `authorize_user_change`: the guards in their order.
unfoldable pub authorize_user_change :
    UserRole → Option UserRole → Option UserRole → Result {0} Unit
authorize_user_change actor_role (some owner) requested_role = raise user_denied
authorize_user_change actor_role target_role (some owner) = raise user_denied
authorize_user_change owner target_role requested_role = ok tt
authorize_user_change admin none none = ok tt
authorize_user_change admin none (some user) = ok tt
authorize_user_change admin (some user) none = ok tt
authorize_user_change admin (some user) (some user) = ok tt
authorize_user_change actor_role target_role requested_role = raise user_denied

-- `_authorize`.
unfoldable pub authorize : Option UserRole → Option UserRole → Option UserRole → Result {0} Unit
unfolding authorize_user_change
authorize none target_role requested_role = raise user_denied
authorize (some actor_role) target_role requested_role =
    authorize_user_change actor_role target_role requested_role

-- An account without a Google identity.
abbrev pub new_user : ℕ → String → Option String → UserRole → Time → ApplicationUser
new_user id email display_name role now = record {
  id = id;
  email = email;
  display_name = display_name;
  google_sub = none;
  role = role;
  is_active = true;
  created_at = now;
  updated_at = now;
}

-- The insertion, by the unique key on the e-mail address.
unfoldable pub insert_user : ApplicationUser → Db → Result Db
insert_user u db =
    ensure integrity_error (not (any (λ (x : ApplicationUser). str_eq x.email u.email) db.users))
      (ok (record db { users = db.users ++ u ∷ []; next_user = db.next_user + 1 }))

abbrev pub created_details : ApplicationUser → UserDetails
created_details u = record {
  affected_email = u.email;
  previous_role = none;
  new_role = u.role;
  previous_active = none;
  new_active = true;
}

abbrev pub audit_user : String → String → Time → UserDetails → Db → Db
audit_user actor action now details = add_audit actor action none none now (user_details details)

pub record OwnerBootstrapResult : Type 0 where
  pub user : ApplicationUser
  pub already_configured : Bool

-- Where `bootstrap_owner` finds the owner, and where it does not.
unfoldable pub bootstrap_from :
    String → Time → String → Option ApplicationUser → Db → Result (OwnerBootstrapResult × Db)
unfolding insert_user add_audit
bootstrap_from actor now normalized (some u) db =
    ensure owner_configured (str_eq u.email normalized)
      (ok (record { user = u; already_configured = true }, db))
bootstrap_from actor now normalized none db =
    let u = new_user db.next_user normalized none owner now in
    do
      db1 ← insert_user u db
      ok (
        record { user = u; already_configured = false },
        audit_user actor "user.owner_bootstrapped" now (created_details u) db1,
      )

unfoldable pub bootstrap_owner :
    Env → String → Time → String → Db → Result (OwnerBootstrapResult × Db)
unfolding bootstrap_from normalize_email
bootstrap_owner env actor now email db = do
  normalized ← require value_error (normalize_email env email)
  bootstrap_from actor now normalized (find? (λ u. is_owner u.role) db.users) db

unfoldable pub create_user :
    Env
    → String
    → Option UserRole
    → Time
    → String
    → Option String
    → UserRole
    → Db
    → Result (ApplicationUser × Db)
unfolding authorize insert_user normalize_email add_audit
create_user env actor actor_role now email display_name role db = do
  _ ← authorize actor_role none (some role)
  normalized ← require value_error (normalize_email env email)
  let u = new_user db.next_user normalized display_name role now in
      do db1 ← insert_user u db; ok (u, audit_user actor "user.created" now (created_details u) db1)

-- `if value is not None: field = value`.
abbrev pub given {ℓ} : {A : Type ℓ} → Option A → A → A
given none a = a
given (some value) a = value

abbrev pub given_some {ℓ} : {A : Type ℓ} → Option A → Option A → Option A
given_some none a = a
given_some (some value) a = some value

abbrev pub changed_user :
    Option String → Option UserRole → Option Bool → Time → ApplicationUser → ApplicationUser
changed_user display_name role is_active now u = record u {
  display_name = given_some display_name u.display_name;
  role = given role u.role;
  is_active = given is_active u.is_active;
  updated_at = now;
}

unfoldable pub update_user :
    String
    → Option UserRole
    → Time
    → ℕ
    → Option String
    → Option UserRole
    → Option Bool
    → Db
    → Result (ApplicationUser × Db)
unfolding authorize add_audit
update_user actor actor_role now user_id display_name role is_active db = do
  u ← require user_conflict (find? (λ (x : ApplicationUser). x.id == user_id) db.users)
  _ ← authorize actor_role (some u.role) role
  let changed = changed_user display_name role is_active now u in
      ok (
        changed,
        audit_user actor "user.updated" now
            (record {
              affected_email = changed.email;
              previous_role = some u.role;
              new_role = changed.role;
              previous_active = some u.is_active;
              new_active = changed.is_active;
            })
            (record db {
              users =
                  update_where (λ x. x.id == user_id) (changed_user display_name role is_active now)
                    db.users;
            }),
      )
