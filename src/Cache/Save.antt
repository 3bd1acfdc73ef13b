-- ===== src/Cache/Save.antt =====
-- src/cache.c, `hm_cache_save`: the record is written to a file beside it, which then takes its
-- name. The file system is a function from paths to contents; what the kernel answers is a value
-- `SaveCalls`.
pub mod Atomic
pub mod Outcome
use hacman.Cache.Load.{Answer, interrupted, broken, got}
use hacman.Cache.Record.{Cache, record_text}
use hacman.Project.{path_max}
use hacman.Util.Buffer.{append_str, append_long}
use hacman.Base.{
  ℕ, zero, suc, ◌+◌, ◌-◌, min, Bool, true, false, Option, none, some, List, [], ◌∷◌, ◌++◌, ltb,
  ◌==◌, if◌then◌else◌, length, take, drop, get_or, Bytes, bytes_eq, codes, pos, Rc, success,
  failure,
}

abbrev pub Files : Type 0
Files = Bytes → Option Bytes

unfoldable pub put : Bytes → Option Bytes → Files → Files
put path content files q = if bytes_eq q path then content else files q

-- The loop of `mkdir_p`: the prefixes in front of a `/`, from index 1 on, and then the whole.
unfoldable pub dirs_from : Bytes → Bytes → List Bytes
dirs_from front [] = front ∷ []
dirs_from front (c ∷ s) =
    let more = dirs_from (front ++ c ∷ []) s in if c == b'/' then front ∷ more else more

-- `mkdir_p` of src/cache.c: the paths for which it calls `mkdir`, in their order. No record has an
-- empty directory.
unfoldable pub mkdir_p : Bytes → List Bytes
unfolding dirs_from
mkdir_p path = elim (take path_max path) [ [] ↦ [] ∷ [] | c ∷ s ↦ dirs_from (c ∷ []) s ]

-- `while (n > 0 && c->path[n - 1] != '/') --n;`
unfoldable pub last_slash : Bytes → ℕ → ℕ
last_slash path zero = 0
last_slash path (suc n) =
    let less = last_slash path n in if get_or path n 0 == b'/' then suc n else less

-- `cache_parent`
unfoldable pub cache_parent : Cache → Bytes
unfolding last_slash
cache_parent c = take (min (last_slash c.path (length c.path) - 1) path_max) c.path

-- The name of the temporary file.
unfoldable pub tmp_path : Cache → ℕ → Bytes
tmp_path c pid =
    let size = path_max + 32 in
    append_long size (append_str size (append_str size [] c.path) (codes ".tmp.")) (pos pid)

-- The loop over `write`: the contents that the file gets one after the other, and the last of them
-- when all was written. Calls behind the list accept everything.
unfoldable pub write_loop : List Answer → Bytes → Bytes → List Bytes × Option Bytes
write_loop [] done left = ((done ++ left) ∷ [], some (done ++ left))
write_loop (interrupted ∷ calls) done left = write_loop calls done left
write_loop (broken ∷ calls) done left = ([], none)
write_loop (got k ∷ calls) done [] = ([], some done)
write_loop (got k ∷ calls) done (c ∷ left) =
    let n = min (k + 1) (length (c ∷ left)) in
    let done' = done ++ take n (c ∷ left) in
    let more = write_loop calls done' (drop n (c ∷ left)) in (done' ∷ more.0, more.1)

pub record SaveCalls : Type 0 where
  pub opens : Bool
  pub writes : List Answer
  pub renames : Bool
  pub unlinks : Bool

-- The directories asked for, the file system after each call that changed it, and the result.
pub record Saving : Type 0 where
  pub made : List Bytes
  pub states : List Files
  pub rc : Rc

-- `(void)unlink(tmp_path)` on the error exits.
abbrev pub give_up : Bool → Bytes → Files → List Files
give_up true tmp files = put tmp none files ∷ []
give_up false tmp files = []

-- The states while the file is written.
unfoldable pub writing : Bytes → Files → List Bytes → List Files
writing tmp files [] = []
writing tmp files (text ∷ more) = put tmp (some text) files ∷ writing tmp files more

-- From the end of the loop on, for a file that holds `text`.
unfoldable pub replace : SaveCalls → Bytes → Bytes → Files → Option Bytes → List Files × Rc
replace calls path tmp files none = (give_up calls.unlinks tmp files, failure)
replace calls path tmp files (some text) =
    if calls.renames
    then (put path (some text) (put tmp none files) ∷ [], success)
    else (give_up calls.unlinks tmp files, failure)

-- From the successful `open` on.
unfoldable pub save_opened : SaveCalls → Cache → Bytes → Files → List Files × Rc
save_opened calls c tmp files =
    let w = write_loop calls.writes [] (record_text c) in
    let rest = replace calls c.path tmp files w.1 in
    (writing tmp files ([] ∷ w.0) ++ rest.0, rest.1)

unfoldable pub save : SaveCalls → ℕ → Cache → Files → Saving
save calls pid c files =
    let made = if ltb 1 (length c.path) then mkdir_p (cache_parent c) else [] in
    let r : List Files × Rc =
      if calls.opens then save_opened calls c (tmp_path c pid) files else ([], failure) in
    record { made = made; states = r.0; rc = r.1 }
