-- ===== src/Users/Accounts/Owner.antt =====
-- Who can change which account, and how many owners there are.
use skybeat.Base.{
  ℕ, ◌+◌, ◌≤◌, ◌<◌, ◌≡◌, refl, sym, ◌∙◌, subst, String, Bool, true, false, not, ◌&&◌, List, [], ◌∷◌,
  ◌++◌, Option, none, some, ◌==◌, ==_iff, any, any-count, find?, count_of_find?-none, count,
  count-update-le, count-grown, eq_iff, select, str_eq, update_where, arith, All, All-map,
  All-append, All-update_where,
}
use skybeat.Store.{
  Db, Env, Result, ok, value_error, integrity_error, user_denied, user_conflict, owner_configured,
  ◌>>=◌, require, ensure,
}
use skybeat.Store.Audit.{add_audit}
use skybeat.Store.Kinds.{UserRole, owner, admin, user, is_owner}
use skybeat.Store.Rows.{Time, ApplicationUser}
use skybeat.Store.Yields.{Yields, kept, Yields-bind, Yields-ensure, Yields-of}
use skybeat.Users.Email.{normalize_email}
use skybeat.Users.Accounts.{
  authorize_user_change, authorize, new_user, insert_user, OwnerBootstrapResult, bootstrap_from,
  bootstrap_owner, create_user, changed_user, update_user, given,
}

-- The accounts that a role administers: the owner those of administrators and users, an
-- administrator those of users, and a user, or nobody, none.
abbrev pub administers : Option UserRole → UserRole → Bool
administers (some owner) owner = false
administers (some owner) role = true
administers (some admin) user = true
administers actor_role role = false

-- What `authorize` lets pass: both roles, where they are given, are administered by the actor's.
abbrev pub within : Option UserRole → Option UserRole → Bool
within actor_role none = true
within actor_role (some role) = administers actor_role role

abbrev pub is_administrator : Option UserRole → Bool
is_administrator none = false
is_administrator (some user) = false
is_administrator (some role) = true

-- The guards let a change pass exactly where the actor is the owner or an administrator and
-- administers the role that the account has and the role that is asked for, where these are given.
pub authorize_matrix :
    (actor_role target_role requested_role : Option UserRole)
    → authorize actor_role target_role requested_role
      ≡ ensure user_denied
          (is_administrator actor_role
            && within actor_role target_role
            && within actor_role requested_role)
          (ok tt)
unfolding authorize authorize_user_change
authorize_matrix none t r = refl
authorize_matrix (some owner) none none = refl
authorize_matrix (some owner) none (some owner) = refl
authorize_matrix (some owner) none (some admin) = refl
authorize_matrix (some owner) none (some user) = refl
authorize_matrix (some owner) (some owner) r = refl
authorize_matrix (some owner) (some admin) none = refl
authorize_matrix (some owner) (some admin) (some owner) = refl
authorize_matrix (some owner) (some admin) (some admin) = refl
authorize_matrix (some owner) (some admin) (some user) = refl
authorize_matrix (some owner) (some user) none = refl
authorize_matrix (some owner) (some user) (some owner) = refl
authorize_matrix (some owner) (some user) (some admin) = refl
authorize_matrix (some owner) (some user) (some user) = refl
authorize_matrix (some admin) none none = refl
authorize_matrix (some admin) none (some owner) = refl
authorize_matrix (some admin) none (some admin) = refl
authorize_matrix (some admin) none (some user) = refl
authorize_matrix (some admin) (some owner) r = refl
authorize_matrix (some admin) (some admin) none = refl
authorize_matrix (some admin) (some admin) (some owner) = refl
authorize_matrix (some admin) (some admin) (some admin) = refl
authorize_matrix (some admin) (some admin) (some user) = refl
authorize_matrix (some admin) (some user) none = refl
authorize_matrix (some admin) (some user) (some owner) = refl
authorize_matrix (some admin) (some user) (some admin) = refl
authorize_matrix (some admin) (some user) (some user) = refl
authorize_matrix (some user) none none = refl
authorize_matrix (some user) none (some owner) = refl
authorize_matrix (some user) none (some admin) = refl
authorize_matrix (some user) none (some user) = refl
authorize_matrix (some user) (some owner) r = refl
authorize_matrix (some user) (some admin) none = refl
authorize_matrix (some user) (some admin) (some owner) = refl
authorize_matrix (some user) (some admin) (some admin) = refl
authorize_matrix (some user) (some admin) (some user) = refl
authorize_matrix (some user) (some user) none = refl
authorize_matrix (some user) (some user) (some owner) = refl
authorize_matrix (some user) (some user) (some admin) = refl
authorize_matrix (some user) (some user) (some user) = refl

pub authorize-passed :
    (a t r : Option UserRole)
    → authorize a t r ≡ ok tt
    → (is_administrator a && within a t && within a r) ≡ true
authorize-passed a t r h =
    by_test (is_administrator a && within a t && within a r) (sym (authorize_matrix a t r) ∙ h)
  where
    by_test : (b : Bool) → ensure {0} user_denied b (ok (tt {0})) ≡ ok tt → b ≡ true
    by_test true e = refl
    by_test false e = cc

-- Ids and e-mail addresses are unique, ids are numbered below the counter, and there is one owner
-- at most.
pub record IsAccounts (users : List ApplicationUser) (next_user : ℕ) : Type 0 where
  pub owners : count (λ u. is_owner u.role) users ≤ 1
  pub ids : (k : ℕ) → count (λ (u : ApplicationUser). u.id == k) users ≤ 1
  pub below : All (λ (u : ApplicationUser). u.id < next_user) users
  pub emails : (e : String) → count (λ (u : ApplicationUser). str_eq u.email e) users ≤ 1

-- The accounts that the role does not administer, as they are.
abbrev pub protected : Option UserRole → Db → List ApplicationUser
protected actor_role db = select (λ u. not (administers actor_role u.role)) db.users

none_below :
    (k : ℕ) (us : List ApplicationUser)
    → All (λ (u : ApplicationUser). u.id < k) us
    → count (λ (u : ApplicationUser). u.id == k) us ≡ 0
unfolding count
none_below k [] h = refl
none_below k (u ∷ us) h = ground (arith, h.0, ==_iff u.id k, none_below k us h.1)

grown :
    (u : ApplicationUser) (us : List ApplicationUser) (next : ℕ)
    → u.id ≡ next
    → (is_owner u.role ≡ true → count (λ x. is_owner x.role) us ≡ 0)
    → any (λ (x : ApplicationUser). str_eq x.email u.email) us ≡ false
    → IsAccounts us next
    → IsAccounts (us ++ u ∷ []) (next + 1)
grown u us next numbered alone fresh h = record {
  owners = count-grown (λ x. is_owner x.role) us u h.owners alone;
  ids = λ k.
      count-grown (λ x. x.id == k) us u (h.ids k)
        (λ e.
          subst (λ n. count (λ (x : ApplicationUser). x.id == n) us ≡ 0)
            (ground (arith, e, numbered)) (none_below next us h.below));
  below =
      All-append (λ x. x.id < next + 1) us _
        (All-map (λ x. x.id < next) (λ x. x.id < next + 1) (λ x le. omega arith) us h.below)
        (omega (arith, numbered), tt);
  emails = λ e.
      count-grown (λ x. str_eq x.email e) us u (h.emails e)
        (λ same.
          subst (λ t. count (λ (x : ApplicationUser). str_eq x.email t) us ≡ 0)
            ((eq_iff u.email e).0 same) (any-count (λ x. str_eq x.email u.email) us fresh));
}

pub insert_user-Keeps :
    (u : ApplicationUser) (db : Db)
    → u.id ≡ db.next_user
    → (is_owner u.role ≡ true → count (λ x. is_owner x.role) db.users ≡ 0)
    → IsAccounts db.users db.next_user
    → Yields (λ db1. IsAccounts db1.users db1.next_user) (insert_user u db)
unfolding insert_user
insert_user-Keeps u db numbered alone h =
    Yields-ensure _ integrity_error
      (not (any (λ (x : ApplicationUser). str_eq x.email u.email) db.users)) _
      (λ fresh. kept _ (grown u db.users db.next_user numbered alone (ground (arith, fresh)) h))

-- The rows with an id after a change that leaves ids and addresses, and makes nobody an owner.
changed :
    (k : ℕ) (f : ApplicationUser → ApplicationUser) (us : List ApplicationUser) (next : ℕ)
    → ((x : ApplicationUser) → (f x).id ≡ x.id)
    → ((x : ApplicationUser) → (f x).email ≡ x.email)
    → ((x : ApplicationUser) → is_owner (f x).role ≡ true → is_owner x.role ≡ true)
    → IsAccounts us next
    → IsAccounts (update_where (λ x. x.id == k) f us) next
changed k f us next same_id same_email no_owner h = record {
  owners = omega (
    arith,
    h.owners,
    count-update-le (λ x. is_owner x.role) (λ x. is_owner x.role) (λ x. x.id == k) f
        (λ x _ e. no_owner x e) (λ x e. e) us,
  );
  ids = λ j. omega (
    arith,
    h.ids j,
    count-update-le (λ x. x.id == j) (λ x. x.id == j) (λ x. x.id == k) f
        (λ x _ e. subst (λ n. (n == j) ≡ true) (same_id x) e) (λ x e. e) us,
  );
  below =
      All-update_where (λ x. x.id < next) (λ x. x.id == k) f (λ x _ le. omega (arith, same_id x)) us
        h.below;
  emails = λ e. omega (
    arith,
    h.emails e,
    count-update-le (λ x. str_eq x.email e) (λ x. str_eq x.email e) (λ x. x.id == k) f
        (λ x _ t. subst (λ n. str_eq n e ≡ true) (same_email x) t) (λ x t. t) us,
  );
}

-- What the dashboard and the local bootstrap ask of the service.
pub data Change : Type 0 where
  bootstrap : String → Change
  create : String → Option String → UserRole → Change
  update : ℕ → Option String → Option UserRole → Option Bool → Change

unfoldable pub perform : Env → String → Option UserRole → Time → Change → Db → Result Db
unfolding bootstrap_owner create_user update_user
perform env actor actor_role now (bootstrap email) db = do
  r ← bootstrap_owner env actor now email db
  ok r.1
perform env actor actor_role now (create email display_name role) db = do
  r ← create_user env actor actor_role now email display_name role db
  ok r.1
perform env actor actor_role now (update user_id display_name role is_active) db = do
  r ← update_user actor actor_role now user_id display_name role is_active db
  ok r.1

module _ (env : Env) (actor : String) (actor_role : Option UserRole) (now : Time) where
  no_new_owner :
      (target_role role : Option UserRole) (x : UserRole)
      → (is_administrator actor_role && within actor_role target_role && within actor_role role)
        ≡ true
      → is_owner (given role x) ≡ true
      → is_owner x ≡ true
  no_new_owner target_role none x h e = e
  no_new_owner target_role (some owner) x h e = absurd (ground (arith, h, nobody actor_role))
    where
      nobody : (a : Option UserRole) → administers a owner ≡ false
      nobody none = refl
      nobody (some owner) = refl
      nobody (some admin) = refl
      nobody (some user) = refl
  no_new_owner target_role (some admin) x h e = cc
  no_new_owner target_role (some user) x h e = cc

  perform-Accounts :
      (change : Change) (db : Db)
      → IsAccounts db.users db.next_user
      → Yields
          (λ db1. IsAccounts db1.users db1.next_user)
          (perform env actor actor_role now change db)
  unfolding perform bootstrap_owner bootstrap_from create_user update_user add_audit
  perform-Accounts (bootstrap email) db h =
      Yields-bind _ (bootstrap_owner env actor now email db) _ (λ r e. kept _ (
        Yields-of (λ (r : OwnerBootstrapResult × Db). IsAccounts r.1.users r.1.next_user)
          (Yields-bind _ (require value_error (normalize_email env email)) _
            (λ normalized _. from normalized (find? (λ u. is_owner u.role) db.users) refl))
          e))
    where
      from :
          (normalized : String) (found : Option ApplicationUser)
          → find? (λ (u : ApplicationUser). is_owner u.role) db.users ≡ found
          → Yields
              (λ (r : OwnerBootstrapResult × Db). IsAccounts r.1.users r.1.next_user)
              (bootstrap_from actor now normalized found db)
      from normalized (some u) e =
          Yields-ensure _ owner_configured (str_eq u.email normalized) _ (λ _. kept _ h)
      from normalized none e =
          let u = new_user db.next_user normalized none owner now in
          Yields-bind _ (insert_user u db) _ (λ db1 inserted. kept _ (
            Yields-of (λ db1. IsAccounts db1.users db1.next_user)
              (insert_user-Keeps u db refl
                (λ _. count_of_find?-none (λ x. is_owner x.role) db.users e) h)
              inserted))
  perform-Accounts (create email display_name role) db h =
      Yields-bind _ (create_user env actor actor_role now email display_name role db) _ (λ r e.
        kept _ (
          Yields-of (λ (r : ApplicationUser × Db). IsAccounts r.1.users r.1.next_user)
            (Yields-bind _ (authorize actor_role none (some role)) _ (λ _ allowed.
              Yields-bind _ (require value_error (normalize_email env email)) _ (λ normalized _.
                let u = new_user db.next_user normalized display_name role now in
                Yields-bind _ (insert_user u db) _ (λ db1 inserted. kept _ (
                  Yields-of (λ db1. IsAccounts db1.users db1.next_user)
                    (insert_user-Keeps u db refl
                      (λ boss. absurd (
                        ground (
                          arith,
                          no_new_owner none (some role) user
                              (authorize-passed actor_role none (some role) allowed) boss,
                        )))
                      h)
                    inserted)))))
            e))
  perform-Accounts (update user_id display_name role is_active) db h =
      Yields-bind _ (update_user actor actor_role now user_id display_name role is_active db) _
        (λ r e. kept _ (
          Yields-of (λ (r : ApplicationUser × Db). IsAccounts r.1.users r.1.next_user)
            (Yields-bind _
              (require user_conflict (find? (λ (x : ApplicationUser). x.id == user_id) db.users)) _
              (λ u found. Yields-bind _ (authorize actor_role (some u.role) role) _ (λ _ allowed.
                kept _ (
                  changed user_id (changed_user display_name role is_active now) db.users
                    db.next_user (λ x. refl) (λ x. refl)
                    (λ x boss.
                      no_new_owner (some u.role) role x.role
                        (authorize-passed actor_role (some u.role) role allowed) boss)
                    h))))
            e))

  -- On well-formed accounts, every operation of the service that succeeds, whoever asks for it,
  -- keeps them well-formed: ids and e-mail addresses stay unique, and there is never more than one
  -- owner.
  pub perform-IsAccounts :
      (change : Change) (db db1 : Db)
      → IsAccounts db.users db.next_user
      → perform env actor actor_role now change db ≡ ok db1
      → IsAccounts db1.users db1.next_user
  perform-IsAccounts change db db1 h done =
      Yields-of (λ db1. IsAccounts db1.users db1.next_user) (perform-Accounts change db h) done
