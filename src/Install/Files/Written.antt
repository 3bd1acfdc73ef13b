-- ===== src/Install/Files/Written.antt =====
-- src/install.c: the files that `hm_materialize_files` writes, one after the other.
use hacman.Install.Files.{
  mkdir_p, workdir_ensure, FileCalls, target_path, parent_path, temp_path, is_free, dropped,
  fill_file, and_then, write_embedded_file, write_files, materialize_files,
}
use hacman.Cache.Save.{Files, put}
use hacman.Cache.Save.Atomic.{put_same, put_other}
use hacman.Config.Invariant.{paths, Distinct}
use hacman.Config.Lines.{file_text}
use hacman.Project.{Project, EmbeddedFile, path_max}
use hacman.Base.{
  ℕ, suc, ◌+◌, ◌*◌, Bool, true, false, not, ◌||◌, Option, none, some, List, [], ◌∷◌, ◌++◌, leb,
  if◌then◌else◌, length, length-append, drop, drop-append_length, All, Bytes, Rc, success, failure,
  ◌<◌, ◌≡◌, ◌≢◌, ◌⊎◌, refl, sym, ap, subst, ◌∙◌, arith, inl, inr,
}

Rc-cases : (r : Rc) → (r ≡ success) ⊎ (r ≡ failure)
Rc-cases success = inl refl
Rc-cases failure = inr refl

and_then_lem :
    (r : Rc) (files : Files) (rest : Files × Rc)
    → (and_then r files rest).1 ≡ success
    → (r ≡ success) × (rest.1 ≡ success)
and_then_lem success files rest h = (refl, h)
and_then_lem failure files rest h = absurd (ground arith)

-- A result that is not success under a test, or what follows.
unless_lem :
    (b : Bool) (a c : Files × Rc)
    → a.1 ≡ failure
    → (if b then a else c).1 ≡ success
    → (b ≡ false) × (c.1 ≡ success)
unless_lem true a c n h = absurd (ground arith)
unless_lem false a c n h = (refl, h)

fill_file_lem :
    (k : FileCalls) (target temp text : Bytes) (files : Files)
    → (fill_file k target temp text files).1 ≡ success
    → (fill_file k target temp text files).0 ≡ put target (some text) (put temp none files)
unfolding fill_file
fill_file_lem k target temp text files h =
    let (fine, e) =
      unless_lem (not k.fdopens || not k.writes || not k.closes || not k.renames)
        (dropped k temp files, failure) (put target (some text) (put temp none files), success) refl
        h in
    rw fine refl

is_free_lem : (o : Option Bytes) (b : Bool) → (not b || not (is_free o)) ≡ false → o ≡ none
is_free_lem none b h = refl
is_free_lem (some t) b h = absurd (ground arith)

-- What is known after a file was written: its temporary name was free.
abbrev IsWritten : ℕ → Bytes → EmbeddedFile → Files → Files → Type 0
IsWritten pid workdir f files after =
    let target = target_path workdir f in
    (files (temp_path pid target) ≡ none)
    × (after ≡ put target (some (file_text f)) (put (temp_path pid target) none files))

write_embedded_file-IsWritten :
    (k : FileCalls) (pid : ℕ) (workdir : Bytes) (f : EmbeddedFile) (files : Files)
    → (write_embedded_file k pid workdir f files).1 ≡ success
    → IsWritten pid workdir f files (write_embedded_file k pid workdir f files).0
unfolding write_embedded_file
write_embedded_file-IsWritten k pid workdir f files h =
    let target = target_path workdir f in
    let temp = temp_path pid target in
    let made = mkdir_p k.made (parent_path target) in
    let filled = fill_file k target temp (file_text f) files in
    let opened = if not k.opens || not (is_free (files temp)) then (files, failure) else filled in
    let named = if leb (path_max * 2 + 32) (length temp) then (files, failure) else opened in
    let (e1, h1) =
      unless_lem (leb (path_max * 2 + 2) (length target)) (files, failure)
        (and_then made files named) refl h in
    let (e2, h2) = and_then_lem made files named h1 in
    let (e3, h3) =
      unless_lem (leb (path_max * 2 + 32) (length temp)) (files, failure) opened refl h2 in
    let (e4, h4) =
      unless_lem (not k.opens || not (is_free (files temp))) (files, failure) filled refl h3 in
    (
      is_free_lem (files temp) k.opens e4,
      rw (e1, e2, e3, e4) (fill_file_lem k target temp (file_text f) files h4),
    )

target_path_lem :
    (workdir : Bytes) (f g : EmbeddedFile)
    → target_path workdir f ≡ target_path workdir g
    → f.path ≡ g.path
target_path_lem workdir f g e = ap (drop 1) (
    sym (drop-append_length workdir (b'/' ∷ f.path))
    ∙ ap (drop (length workdir)) e
    ∙ drop-append_length workdir (b'/' ∷ g.path))

longer : (a b : Bytes) → 0 < length b → a ++ b ≢ a
longer a b h e = omega (arith, length-append a b, ap (λ (s : Bytes). length s) e)

-- The file has its text.
abbrev pub HasText : Bytes → Files → EmbeddedFile → Type 0
HasText workdir files f = files (target_path workdir f) ≡ some (file_text f)

some-ne-none : {t : Bytes} {o : Option Bytes} → o ≡ some t → o ≢ none
some-ne-none {t} {o} e n = absurd cc

-- Writing one file gives it its text and leaves the text of each file of another path.
IsWritten-HasText :
    (pid : ℕ) (workdir : Bytes) (f : EmbeddedFile) (files after : Files)
    → IsWritten pid workdir f files after
    → HasText workdir after f
IsWritten-HasText pid workdir f files after (free, e) =
    ap (λ (x : Files). x (target_path workdir f)) e
    ∙ put_same (target_path workdir f) (some (file_text f)) _

IsWritten-keeps :
    (pid : ℕ) (workdir : Bytes) (f g : EmbeddedFile) (files after : Files)
    → IsWritten pid workdir f files after
    → f.path ≢ g.path
    → HasText workdir files g
    → HasText workdir after g
IsWritten-keeps pid workdir f g files after (free, e) d h =
    let target = target_path workdir f in
    let temp = temp_path pid target in
    ap (λ (x : Files). x (target_path workdir g)) e
    ∙ put_other target (target_path workdir g) (some (file_text f)) (put temp none files)
        (λ same. d (sym (target_path_lem workdir g f same)))
    ∙ put_other temp (target_path workdir g) none files
        (λ same. some-ne-none h (ap files same ∙ free))
    ∙ h

and_then_value :
    (r : Rc) (files : Files) (rest : Files × Rc) → r ≡ success → and_then r files rest ≡ rest
and_then_value success files rest h = refl
and_then_value failure files rest h = absurd (ground arith)

-- The further files leave the text of a file of another path.
write_files_keep :
    (calls : ℕ → FileCalls) (pid : ℕ) (workdir : Bytes) (i : ℕ) (fs : List EmbeddedFile)
    (files : Files) (g : EmbeddedFile)
    → (write_files calls pid workdir i fs files).1 ≡ success
    → All (λ q. q ≢ g.path) (paths fs)
    → HasText workdir files g
    → HasText workdir (write_files calls pid workdir i fs files).0 g
unfolding write_files
write_files_keep calls pid workdir i [] files g h d t = t
write_files_keep calls pid workdir i (f ∷ fs) files g h (df, ds) t =
    let r = write_embedded_file (calls i) pid workdir f files in
    let rest = write_files calls pid workdir (suc i) fs r.0 in
    let (good, more) = and_then_lem r.1 r.0 rest h in
    let written = write_embedded_file-IsWritten (calls i) pid workdir f files good in
    subst (λ (e : Files × Rc). HasText workdir e.0 g) (sym (and_then_value r.1 r.0 rest good))
      (write_files_keep calls pid workdir (suc i) fs r.0 g more ds
        (IsWritten-keeps pid workdir f g files r.0 written df t))

write_files-HasText :
    (calls : ℕ → FileCalls) (pid : ℕ) (workdir : Bytes) (i : ℕ) (fs : List EmbeddedFile)
    (files : Files)
    → (write_files calls pid workdir i fs files).1 ≡ success
    → Distinct (paths fs)
    → All (HasText workdir (write_files calls pid workdir i fs files).0) fs
unfolding write_files
write_files-HasText calls pid workdir i [] files h d = tt
write_files-HasText calls pid workdir i (f ∷ fs) files h (df, ds) =
    let r = write_embedded_file (calls i) pid workdir f files in
    let rest = write_files calls pid workdir (suc i) fs r.0 in
    let (good, more) = and_then_lem r.1 r.0 rest h in
    let written = write_embedded_file-IsWritten (calls i) pid workdir f files good in
    subst (λ (e : Files × Rc). All (HasText workdir e.0) (f ∷ fs))
      (sym (and_then_value r.1 r.0 rest good))
      (
        write_files_keep calls pid workdir (suc i) fs r.0 f more df
            (IsWritten-HasText pid workdir f files r.0 written),
        write_files-HasText calls pid workdir (suc i) fs r.0 more ds,
      )

-- When `hm_materialize_files` returns 0 for a project whose embedded files have distinct paths, as
-- they have after the parse, each of them stands below the work directory with the text of its
-- block.
pub materialize_files-HasText :
    (calls : ℕ → FileCalls) (made : Bytes → Bool) (is_dir : Bool) (pid : ℕ) (p : Project)
    (workdir : Bytes) (files : Files)
    → Distinct (paths p.files)
    → (materialize_files calls made is_dir pid p workdir files).1 ≡ success
    → All (HasText workdir (materialize_files calls made is_dir pid p workdir files).0) p.files
unfolding materialize_files
materialize_files-HasText calls made is_dir pid p workdir files d h =
    let rest = write_files calls pid workdir 0 p.files files in
    let ensured = workdir_ensure made is_dir workdir in
    let (good, more) = and_then_lem ensured files rest h in
    subst (λ (e : Files × Rc). All (HasText workdir e.0) p.files)
      (sym (and_then_value ensured files rest good))
      (write_files-HasText calls pid workdir 0 p.files files more d)
