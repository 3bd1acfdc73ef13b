-- ===== src/Cache/Place.antt =====
-- src/cache.c and src/identity.c: which directory holds the records, which file in it belongs to a
-- project, and the identity that stands in the record. The hash of vendor/xxhash and the version
-- text of the build are parameters.
pub mod Layout
use hacman.Cache.Record.{Cache, identity_max}
use hacman.Project.{Project, ProjectKind, command_kind, path_max}
use hacman.Util.Buffer.{append_str}
use hacman.Base.{
  ℕ, ◌+◌, ◌≤◌, Bool, true, false, ◌&&◌, Option, none, some, List, [], ◌∷◌, ◌++◌, append_assoc, ◌≡◌,
  refl, sym, ap, ◌∙◌, arith, ltb, ◌==◌, if◌then◌else◌, length, length-append, get_or, Bytes, codes,
  pos, Lacks,
}

abbrev pub key_max : ℕ
key_max = 31

-- `absolute_cache_dir`; `cwd` is the answer of `getcwd`.
unfoldable pub absolute_cache_dir : Option Bytes → Bytes → Bytes
absolute_cache_dir none dir = dir
absolute_cache_dir (some cwd) dir =
    if get_or dir 0 0 == b'/'
    then dir
    else if ltb path_max (length cwd + 1 + length dir)
    then dir
    else let o = append_str (path_max + 1) [] cwd in
      let o = append_str (path_max + 1) o (codes "/") in append_str (path_max + 1) o dir

-- The default, below the home directory.
unfoldable pub home_cache_dir : Option Bytes → Option Bytes → Option Bytes
home_cache_dir cwd none = none
home_cache_dir cwd (some []) = none
home_cache_dir cwd (some (c ∷ home)) =
    let o = append_str (path_max + 1) [] (c ∷ home) in
    some (absolute_cache_dir cwd (append_str (path_max + 1) o (codes "/.cache/hacman")))

-- HACMAN_CACHE, then the default.
unfoldable pub env_cache_dir : Option Bytes → Option Bytes → Option Bytes → Option Bytes
env_cache_dir cwd none home = home_cache_dir cwd home
env_cache_dir cwd (some []) home = home_cache_dir cwd home
env_cache_dir cwd (some (c ∷ dir)) home = some (absolute_cache_dir cwd (c ∷ dir))

-- `hm_cache_dir`: the option, HACMAN_CACHE and HOME, in this order.
unfoldable pub cache_dir : Option Bytes → Option Bytes → Option Bytes → Option Bytes → Option Bytes
cache_dir cwd none env home = env_cache_dir cwd env home
cache_dir cwd (some []) env home = env_cache_dir cwd env home
cache_dir cwd (some (c ∷ dir)) env home = some (absolute_cache_dir cwd (c ∷ dir))

-- `hm_identity_build` into an array of `size` bytes.
unfoldable pub identity_build : (Bytes → Bytes) → Bytes → Bytes → ℕ → Bytes
identity_build hash_hex version siml size =
    if ltb size (length (codes "siml:") + 16 + length (codes " hacman:") + length version + 1)
    then []
    else codes "siml:" ++ (hash_hex siml ++ (codes " hacman:" ++ version))

-- What is hashed for the file's name: the path of the input, or the identity.
unfoldable pub address : Project → Option Bytes → Bytes → Bytes
address p none identity = identity
address p (some path) identity = if ltb 0 (length p.files) then path else identity

abbrev pub key_prefix : ProjectKind → Bytes
key_prefix command_kind = codes "cmd-"
key_prefix _ = codes "url-"

-- `append_str(buf, o, ..., "/")` and then the key.
unfoldable pub below : Bytes → Bytes → Bytes
below dir key =
    let o = append_str (path_max + 1) [] dir in
    let o = append_str (path_max + 1) o (codes "/") in append_str (path_max + 1) o key

-- `hm_cache_init`
unfoldable pub cache_init : (Bytes → Bytes) → Project → Bytes → Option Bytes → Bytes → Cache
cache_init hash_hex p dir source_path identity =
    let id = append_str (identity_max + 1) [] identity in
    let hash = hash_hex (address p source_path id) in
    let key = append_str (key_max + 1) (append_str (key_max + 1) [] (key_prefix p.kind)) hash in
    record {
      key = key;
      identity = id;
      path = below dir key;
      workdir = append_str (path_max + 1) (below dir key) (codes ".work");
      mark = [];
      last_check = pos 0;
      last_change = pos 0;
      known = false;
    }
