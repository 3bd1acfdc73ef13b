-- ===== src/Cache/Place/Layout.antt =====
-- Where a project's state lies, and which records it trusts after an edit.
use hacman.Cache.Place.{cache_init, identity_build, address, key_prefix, key_max, below}
use hacman.Cache.Load.{Answer, content, load}
use hacman.Cache.Load.Chunks.{NoneBroken, load-other_identity}
use hacman.Cache.Record.{Cache, record_text, cleared, identity_max}
use hacman.Cache.Record.RoundTrip.{IsRecordable}
use hacman.Project.{Project, ProjectKind, url_kind, command_kind, path_max}
use hacman.Util.Buffer.{append_str, append_str-eq-append, append_str-eq-take}
use hacman.Base.{
  ℕ, ◌+◌, ◌≤◌, Option, List, [], ◌∷◌, ◌++◌, append_assoc, ◌≡◌, ◌≢◌, refl, sym, ap, ◌∙◌, arith,
  length, length-append, length-take, zero, suc, take, take-append_length, drop, Bytes, codes,
  success,
}

-- The three names of a project's state: the paths are cut off where their arrays end.
pub record IsPlaced (dir prefix hash : Bytes) (c : Cache) : Type 0 where
  pub file : c.key ≡ prefix ++ hash
  pub file_path : c.path ≡ take path_max (dir ++ (b'/' ∷ c.key))
  pub work_path : c.workdir ≡ take path_max (dir ++ (b'/' ∷ (c.key ++ codes ".work")))

length-key_prefix : (k : ProjectKind) → length (key_prefix k) ≡ 4
length-key_prefix url_kind = refl
length-key_prefix command_kind = refl

take-append_take : (n : ℕ) (xs ys : Bytes) → take n (take n xs ++ ys) ≡ take n (xs ++ ys)
take-append_take zero xs ys = refl
take-append_take (suc n) [] ys = refl
take-append_take (suc n) (x ∷ xs) ys = ap (◌∷◌ x) (take-append_take n xs ys)

-- A text behind one that was cut off.
append_str-take :
    (t s : Bytes) → append_str (path_max + 1) (take path_max t) s ≡ take path_max (t ++ s)
append_str-take t s =
    append_str-eq-take (path_max + 1) (take path_max t) s (omega (arith, length-take path_max t))
    ∙ take-append_take path_max t s

below-eq-take : (dir key : Bytes) → below dir key ≡ take path_max (dir ++ (b'/' ∷ key))
unfolding below
below-eq-take dir key =
    let first = append_str-eq-take (path_max + 1) [] dir (omega arith) in
    let slash = append_str-take dir (codes "/") in
    let last = append_str-take (dir ++ codes "/") key in
    rw (first, slash, last) (ap (take path_max) (append_assoc dir (codes "/") key))

module _ (hash_hex : Bytes → Bytes) (p : Project) (dir : Bytes) (source_path : Option Bytes)
    (identity : Bytes) where
  -- With a hash of 16 digits the record is the file `dir/cmd-<hash>` or `dir/url-<hash>` and the
  -- work directory has its name with `.work` behind it, both cut off at 1023 bytes: a directory of
  -- more than 997 bytes leads to a shorter name.
  pub cache_init-IsPlaced :
      length identity ≤ identity_max
      → ((text : Bytes) → length (hash_hex text) ≡ 16)
      → IsPlaced dir
          (key_prefix p.kind)
          (hash_hex (address p source_path identity))
          (cache_init hash_hex p dir source_path identity)
  unfolding cache_init
  cache_init-IsPlaced hi hh =
      let id = append_str-eq-append (identity_max + 1) [] identity (omega arith) in
      let hash = hash_hex (address p source_path identity) in
      let l = hh (address p source_path identity) in
      let k = length-key_prefix p.kind in
      let pre = append_str-eq-append (key_max + 1) [] (key_prefix p.kind) (omega (arith, k)) in
      let key = append_str-eq-append (key_max + 1) (key_prefix p.kind) hash (omega (arith, k, l)) in
      let full = key_prefix p.kind ++ hash in
      let path = below-eq-take dir full in
      let work =
        append_str-take (dir ++ (b'/' ∷ full)) (codes ".work")
        ∙ ap (take path_max) (append_assoc dir (b'/' ∷ full) (codes ".work")) in
      record {
        file = rw (id, pre, key);
        file_path = rw (id, pre, key) path;
        work_path = rw (id, pre, key, path) work;
      }

module _ (hash_hex : Bytes → Bytes) (version : Bytes) where
  identity_text :
      (siml : Bytes)
      → length version ≤ 98
      → identity_build hash_hex version siml (identity_max + 1)
        ≡ codes "siml:" ++ (hash_hex siml ++ (codes " hacman:" ++ version))
  unfolding identity_build
  identity_text siml h = ground arith

  hash_part :
      (siml : Bytes)
      → length version ≤ 98
      → length (hash_hex siml) ≡ 16
      → take 16 (drop 5 (identity_build hash_hex version siml (identity_max + 1))) ≡ hash_hex siml
  hash_part siml h l = rw (identity_text siml h) (
      ap (λ (n : ℕ). take n (hash_hex siml ++ (codes " hacman:" ++ version))) (sym l)
      ∙ take-append_length (hash_hex siml) (codes " hacman:" ++ version))

  length-identity :
      (siml : Bytes)
      → length version ≤ 98
      → length (hash_hex siml) ≡ 16
      → length (identity_build hash_hex version siml (identity_max + 1)) ≤ identity_max
  length-identity siml h l =
      rw (identity_text siml h)
        (omega (arith, l, length-append (hash_hex siml) (codes " hacman:" ++ version)))

  -- After an edit of the project file that changes its hash, the record that was saved before the
  -- edit is not trusted: the load leaves the cache as it was initialised. The version has at most 98
  -- bytes and a hash has 16 digits, so the identity is never cut.
  pub load_edited :
      (p : Project) (dir : Bytes) (source_path : Option Bytes) (before after : Bytes) (d : Cache)
      (calls : List Answer)
      → length version ≤ 98
      → ((text : Bytes) → length (hash_hex text) ≡ 16)
      → hash_hex before ≢ hash_hex after
      → d.identity ≡ identity_build hash_hex version before (identity_max + 1)
      → IsRecordable d
      → NoneBroken calls
      → load
          (cache_init hash_hex p dir source_path
            (identity_build hash_hex version after (identity_max + 1)))
          (content (record_text d) calls)
        ≡ (
          success,
          cache_init hash_hex p dir source_path
              (identity_build hash_hex version after (identity_max + 1)),
        )
  unfolding cache_init cleared
  load_edited p dir source_path before after d calls hv hh ne id r w =
      let new = identity_build hash_hex version after (identity_max + 1) in
      let kept =
        append_str-eq-append (identity_max + 1) [] new
          (omega (arith, length-identity after hv (hh after))) in
      let differ : append_str (identity_max + 1) [] new ≢ d.identity = λ e. ne (
        sym (hash_part before hv (hh before))
        ∙ ap (λ (i : Bytes). take 16 (drop 5 i)) (sym id ∙ sym e ∙ kept)
        ∙ hash_part after hv (hh after)) in
      load-other_identity (cache_init hash_hex p dir source_path new) d calls r w differ
