-- ===== src/Environment.antt =====
-- src/env.c, `hm_env_get`: one pass over `environ` that picks hacman's settings. An entry is the
-- bytes in front of its NUL.
pub mod Getenv
use hacman.Base.{
  ℕ, Bool, true, false, not, ◌&&◌, Option, none, some, List, [], ◌∷◌, ◌==◌, if◌then◌else◌, get_or,
  drop, Bytes, codes,
}

-- `hm_env`
pub record Env : Type 0 where
  pub options : Option Bytes
  pub debug : Option Bytes
  pub cache : Option Bytes
  pub home : Option Bytes

-- `strncmp(name, lit, n) == 0` with the length of `lit`.
unfoldable pub has_prefix : Bytes → Bytes → Bool
has_prefix [] s = true
has_prefix (x ∷ lit) [] = false
has_prefix (x ∷ lit) (c ∷ s) = c == x && has_prefix lit s

-- `== NULL`
abbrev pub is_null : Option Bytes → Bool
is_null none = true
is_null (some s) = false

-- Behind `HACMAN`.
unfoldable pub hacman_entry : Env → Bytes → Env
hacman_entry e suffix =
    if get_or suffix 0 0 == b'=' && is_null e.options
    then record e { options = some (drop 1 suffix) }
    else if has_prefix (codes "_DEBUG=") suffix && is_null e.debug
    then record e { debug = some (drop 7 suffix) }
    else if has_prefix (codes "_CACHE=") suffix && is_null e.cache
    then record e { cache = some (drop 7 suffix) }
    else e

-- The body of the loop.
unfoldable pub entry_step : Env → Bytes → Env
entry_step e name =
    if not (get_or name 0 0 == b'H')
    then e
    else if has_prefix (codes "HACMAN") name
    then hacman_entry e (drop 6 name)
    else if has_prefix (codes "HOME=") name && is_null e.home
    then record e { home = some (drop 5 name) }
    else e

unfoldable pub entry_loop : Env → List Bytes → Env
entry_loop e [] = e
entry_loop e (name ∷ more) = entry_loop (entry_step e name) more

-- `hm_env_get`, the first call.
unfoldable pub env_get : List Bytes → Env
env_get environ =
    entry_loop (record { options = none; debug = none; cache = none; home = none }) environ
