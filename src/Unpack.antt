-- ===== src/Unpack.antt =====
-- src/unpack.c: `hm_unpack` and `unpack_file`. The tree below the target is a function from paths,
-- relative to the target, to a file's text and the mode it was created with (before the umask); a
-- parent directory is named by the path to it, as the descriptors lead there. What the calls of
-- the kernel answer is a value.
pub mod Extracted
pub mod Target
use hacman.Config.Lines.{file_text, file_lines}
use hacman.Environment.{has_prefix}
use hacman.Install.Files.{workdir_ensure}
use hacman.Project.{Project, EmbeddedFile, file_path_max}
use hacman.Util.Text.{str_copy}
use hacman.Base.{
  ℕ, suc, ◌+◌, Bool, true, false, not, ◌&&◌, ◌||◌, Option, none, some, List, [], ◌∷◌, ◌++◌, ◌==◌,
  if◌then◌else◌, length, get_or, Bytes, bytes_eq, codes, Rc, success, failure,
}

-- A file's text and mode.
abbrev pub Store : Type 0
Store = Bytes → Option (Bytes × ℕ)

unfoldable pub set_file : Bytes → Option (Bytes × ℕ) → Store → Store
set_file path f store q = if bytes_eq q path then f else store q

-- The answers for one file; `makes` is true for a directory that is there.
pub record UnpackCalls : Type 0 where
  pub dups : Bool
  pub makes : Bytes → Bool
  pub enters : Bytes → Bool
  pub opens : Bool
  pub fdopens : Bool
  pub writes : Bool
  pub closes : Bool
  pub unlinks : Bool

-- The walk through the parents; `name` is what has been read of the path.
unfoldable pub descend : UnpackCalls → Bytes → Bytes → Rc
descend k name [] = success
descend k name (c ∷ s) =
    let rest = descend k (name ++ (c ∷ [])) s in
    if not (c == b'/') then rest else if k.makes name && k.enters name then rest else failure

-- The mode of a file, 0700 or 0600.
unfoldable pub mode : Bool → ℕ
mode true = 448
mode false = 384

unfoldable pub has_shebang : List Bytes → Bool
has_shebang [] = false
has_shebang (line ∷ more) = has_prefix (codes "#!") line

-- `HM_SHELL` is a setting of the build.
unfoldable pub extracted_text : Bytes → EmbeddedFile → Bool → Bytes
extracted_text shell f script =
    if script && not (has_shebang (file_lines f))
    then codes "#!" ++ (shell ++ (b'\n' ∷ file_text f))
    else file_text f

abbrev pub is_vacant : Option (Bytes × ℕ) → Bool
is_vacant none = true
is_vacant (some f) = false

-- `unlinkat` on the error exits; what a file that was not written well holds is not said.
unfoldable pub withdrawn : UnpackCalls → Bytes → ℕ → Store → Store
withdrawn k path m store = if k.unlinks then store else set_file path (some ([], m)) store

-- `if (...) return -1;`
abbrev pub proceed : Rc → Store → Store × Rc → Store × Rc
proceed failure store rest = (store, failure)
proceed success store rest = rest

unfoldable pub unpack_file : UnpackCalls → Bytes → EmbeddedFile → Bool → Store → Store × Rc
unpack_file k shell f script store =
    let path = str_copy (file_path_max + 1) f.path in
    if not k.dups
    then (store, failure)
    else proceed (descend k [] path) store (
        if not k.opens || not (is_vacant (store path))
        then (store, failure)
        else if not k.fdopens || not k.writes || not k.closes
        then (withdrawn k path (mode script) store, failure)
        else (set_file path (some (extracted_text shell f script, mode script)) store, success))

-- The loop over the files; `calls` has the answers for the `i`-th file.
unfoldable pub unpack_files : (ℕ → UnpackCalls) → Bytes → ℕ → List EmbeddedFile → Store → Store × Rc
unpack_files calls shell i [] store = (store, success)
unpack_files calls shell i (f ∷ fs) store =
    let r = unpack_file (calls i) shell f false store in
    let rest = unpack_files calls shell (suc i) fs r.0 in proceed r.1 r.0 rest

-- The script that is extracted, and its name.
unfoldable pub script_file : Project → Option EmbeddedFile
script_file p =
    if not (length p.command == 0)
    then some
        (record { path = codes "command.sh"; content = p.command; content_indent = 0; line = 0 })
    else if not (length p.install == 0)
    then some (record {
      path = codes "install.sh";
      content = p.install;
      content_indent = p.install_indent;
      line = 0;
    })
    else none

unfoldable pub conflicts : Bytes → List EmbeddedFile → Bool
conflicts name [] = false
conflicts name (f ∷ fs) =
    has_prefix name f.path
      && (length f.path == length name || get_or f.path (length name) 0 == b'/')
    || conflicts name fs

unfoldable pub script_conflicts : Option EmbeddedFile → List EmbeddedFile → Bool
script_conflicts none fs = false
script_conflicts (some script) fs = conflicts script.path fs

-- The script comes last, with the answers behind those for the files.
unfoldable pub unpack_script : UnpackCalls → Bytes → Option EmbeddedFile → Store → Store × Rc
unpack_script k shell none store = (store, success)
unpack_script k shell (some script) store = unpack_file k shell script true store

-- `hm_unpack`
unfoldable pub unpack :
    (ℕ → UnpackCalls) → (Bytes → Bool) → Bool → Bool → Bytes → Project → Bytes → Store → Store × Rc
unpack calls made is_dir root_opens shell p target store =
    if script_conflicts (script_file p) p.files
    then (store, failure)
    else proceed (workdir_ensure made is_dir target) store (
        if not root_opens
        then (store, failure)
        else let r = unpack_files calls shell 0 p.files store in
          proceed r.1 r.0 (unpack_script (calls (length p.files)) shell (script_file p) r.0))
