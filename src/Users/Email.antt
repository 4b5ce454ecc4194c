-- ===== src/Users/Email.antt =====
-- `normalize_email` of server/app/users/service.py.
use Prim.Native.Char.{code}
use Prim.Native.String.{[], ◌∷◌}
use skybeat.Base.{
  ℕ, ◌+◌, String, Bool, false, ◌&&◌, ◌||◌, Option, none, some, leb, ◌==◌, if◌then◌else◌,
}
use skybeat.Store.{Env}

-- `[^\s@\r\n]{1,255}` up to the end of the text, `n` characters of it read.
unfoldable pub scan_domain : Env → ℕ → String → Bool
scan_domain env n [] = leb 1 n && leb n 255
scan_domain env n (c ∷ s) =
    let rest = scan_domain env (n + 1) s in if code c == b'@' || env.is_space c then false else rest

-- `[^\s@\r\n]{1,64}@` and the domain. The classes leave out the `@`, so it ends the first part.
unfoldable pub scan_local : Env → ℕ → String → Bool
unfolding scan_domain
scan_local env n [] = false
scan_local env n (c ∷ s) =
    let rest = scan_local env (n + 1) s in
    if code c == b'@'
    then leb 1 n && leb n 64 && scan_domain env 0 s
    else if env.is_space c
    then false
    else rest

-- `none` is the `ValueError`.
unfoldable pub normalize_email : Env → String → Option String
unfolding scan_local
normalize_email env value =
    let normalized = env.strip_lower value in
    if scan_local env 0 normalized then some normalized else none
