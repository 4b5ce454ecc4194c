-- ===== src/Store/Yields.antt =====
-- What holds of the result of a transaction, if it has one: the rules by which a proof follows the
-- transaction's statements.
use skybeat.Base.{◌≡◌, refl, subst, Bool, true, false, Option, none, some}
use skybeat.Store.{Error, Result, ok, raise, ◌>>=◌, require, ensure}

-- An exception, which rolls back, or a result with the property.
pub data Yields {A : Type 0} (P : A → Type 0) : Result A → Type 0 where
  raised : (e : Error) → Yields P (raise e)
  kept : (a : A) → P a → Yields P (ok a)

pub Yields-bind :
    {A B : Type 0} (P : B → Type 0) (r : Result A) (f : A → Result B)
    → ((a : A) → r ≡ ok a → Yields P (f a))
    → Yields P (r >>= f)
Yields-bind P (raise e) f h = raised e
Yields-bind P (ok a) f h = h a refl

pub Yields-ensure :
    {A : Type 0} (P : A → Type 0) (e : Error) (b : Bool) (r : Result A)
    → (b ≡ true → Yields P r)
    → Yields P (ensure e b r)
Yields-ensure P e false r h = raised e
Yields-ensure P e true r h = h refl

pub Yields-map :
    {A : Type 0} (P Q : A → Type 0) {r : Result A} → ((a : A) → P a → Q a) → Yields P r → Yields Q r
Yields-map P Q h (raised e) = raised e
Yields-map P Q h (kept a p) = kept a (h a p)

pub Yields-at : {A : Type 0} (P : A → Type 0) {a : A} → Yields P (ok a) → P a
Yields-at P (kept a p) = p

pub Yields-of : {A : Type 0} (P : A → Type 0) {r : Result A} {a : A} → Yields P r → r ≡ ok a → P a
Yields-of P y h = Yields-at P (subst (Yields P) h y)

pub Yields-require :
    {A : Type 0} (P : A → Type 0) (e : Error) (x : Option A)
    → ((a : A) → x ≡ some a → P a)
    → Yields P (require e x)
Yields-require P e none h = raised e
Yields-require P e (some a) h = kept a (h a refl)

pub require-found :
    {A : Type 0} (e : Error) (x : Option A) {a : A} → require e x ≡ ok a → x ≡ some a
require-found e none h = cc
require-found e (some b) h = cc

pub ensure-passed :
    {A : Type 0} (e : Error) (b : Bool) (r : Result A) {a : A} → ensure e b r ≡ ok a → r ≡ ok a
ensure-passed e false r h = cc
ensure-passed e true r h = h

-- No other exception than the one.
abbrev pub OnlyRaises : Error → {A : Type 0} → Result A → Type 0
OnlyRaises e (ok a) = Unit
OnlyRaises e (raise e1) = e1 ≡ e

pub bind-refused :
    {A B : Type 0} (e : Error) (r : Result A) (f : A → Result B)
    → OnlyRaises e r
    → ((a : A) → r ≡ ok a → f a ≡ raise e)
    → (r >>= f) ≡ raise e
bind-refused e (ok a) f h refused = refused a refl
bind-refused e (raise e1) f h refused = cc

pub ensure-refused :
    {A : Type 0} (e : Error) (b : Bool) (r : Result A)
    → (b ≡ true → r ≡ raise e)
    → ensure e b r ≡ raise e
ensure-refused e false r h = refl
ensure-refused e true r h = h refl

pub ensure-held :
    {A : Type 0} (e : Error) (b : Bool) (r : Result A) {a : A} → ensure e b r ≡ ok a → b ≡ true
ensure-held e false r h = cc
ensure-held e true r h = refl
