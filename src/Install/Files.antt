-- ===== src/Install/Files.antt =====
-- src/install.c, the embedded files of a project: `mkdir_p`, `hm_workdir_ensure`,
-- `write_embedded_file` and `hm_materialize_files`. The file system is a function from paths to
-- contents, so that two names of one file (by a link) are not seen.
pub mod Written
use hacman.Cache.Save.{Files, put, dirs_from, last_slash}
use hacman.Config.Lines.{file_text}
use hacman.Project.{Project, EmbeddedFile, path_max}
use hacman.Util.Number.{decimal}
use hacman.Base.{
  ℕ, suc, ◌+◌, ◌-◌, ◌*◌, Bool, true, false, not, ◌&&◌, ◌||◌, Option, none, some, List, [], ◌∷◌,
  ◌++◌, ltb, leb, ◌==◌, if◌then◌else◌, length, take, Bytes, codes, Rc, success, failure,
}

-- `mkdir` for one path after the other; `made` says for which it succeeds or finds a directory.
unfoldable pub make_dirs : (Bytes → Bool) → List Bytes → Rc
make_dirs made [] = success
make_dirs made (d ∷ more) = let rest = make_dirs made more in if made d then rest else failure

-- `mkdir_p` of src/install.c, which refuses a path that is empty or too long.
unfoldable pub mkdir_p : (Bytes → Bool) → Bytes → Rc
mkdir_p made [] = failure
mkdir_p made (c ∷ s) =
    if leb (path_max * 2 + 2) (length (c ∷ s))
    then failure
    else make_dirs made (dirs_from (c ∷ []) s)

-- `hm_workdir_ensure`; `is_dir` is the answer of `lstat`.
unfoldable pub workdir_ensure : (Bytes → Bool) → Bool → Bytes → Rc
workdir_ensure made is_dir workdir = elim (mkdir_p made workdir) [
  | failure ↦ failure
  | success ↦ if is_dir then success else failure
]

-- The answers for one file.
pub record FileCalls : Type 0 where
  pub made : Bytes → Bool
  pub opens : Bool
  pub fdopens : Bool
  pub writes : Bool
  pub closes : Bool
  pub renames : Bool
  pub unlinks : Bool

abbrev pub target_path : Bytes → EmbeddedFile → Bytes
target_path workdir f = workdir ++ (b'/' ∷ f.path)

unfoldable pub parent_path : Bytes → Bytes
parent_path target =
    let n = last_slash target (length target) in if leb n 1 then target else take (n - 1) target

abbrev pub temp_path : ℕ → Bytes → Bytes
temp_path pid target = target ++ (codes ".tmp." ++ decimal pid)

abbrev pub is_free : Option Bytes → Bool
is_free none = true
is_free (some text) = false

-- `unlink(temp)` on the error exits; what a file that was not written well holds is not said.
abbrev pub dropped : FileCalls → Bytes → Files → Files
dropped k temp files = if k.unlinks then files else put temp (some []) files

-- From the successful `open` with O_EXCL on: the file system at the end, and the result.
unfoldable pub fill_file : FileCalls → Bytes → Bytes → Bytes → Files → Files × Rc
fill_file k target temp text files =
    if not k.fdopens || not k.writes || not k.closes || not k.renames
    then (dropped k temp files, failure)
    else (put target (some text) (put temp none files), success)

-- `if (... != 0) return -1;`
abbrev pub and_then : Rc → Files → Files × Rc → Files × Rc
and_then failure files rest = (files, failure)
and_then success files rest = rest

unfoldable pub write_embedded_file : FileCalls → ℕ → Bytes → EmbeddedFile → Files → Files × Rc
write_embedded_file k pid workdir f files =
    let target = target_path workdir f in
    let temp = temp_path pid target in
    if leb (path_max * 2 + 2) (length target)
    then (files, failure)
    else and_then (mkdir_p k.made (parent_path target)) files (
        if leb (path_max * 2 + 32) (length temp)
        then (files, failure)
        else if not k.opens || not (is_free (files temp))
        then (files, failure)
        else fill_file k target temp (file_text f) files)

-- The loop of `hm_materialize_files`; `calls` has the answers for the `i`-th file.
unfoldable pub write_files :
    (ℕ → FileCalls) → ℕ → Bytes → ℕ → List EmbeddedFile → Files → Files × Rc
write_files calls pid workdir i [] files = (files, success)
write_files calls pid workdir i (f ∷ fs) files =
    let r = write_embedded_file (calls i) pid workdir f files in
    let rest = write_files calls pid workdir (suc i) fs r.0 in and_then r.1 r.0 rest

-- `hm_materialize_files`
unfoldable pub materialize_files :
    (ℕ → FileCalls) → (Bytes → Bool) → Bool → ℕ → Project → Bytes → Files → Files × Rc
materialize_files calls made is_dir pid p workdir files =
    and_then (workdir_ensure made is_dir workdir) files
      (write_files calls pid workdir 0 p.files files)
