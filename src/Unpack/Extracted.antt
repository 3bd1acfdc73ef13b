-- ===== src/Unpack/Extracted.antt =====
-- src/unpack.c: what an extraction leaves in its target.
use hacman.Unpack.{
  Store, set_file, UnpackCalls, descend, mode, extracted_text, is_vacant, withdrawn, proceed,
  unpack_file, unpack_files, script_file, script_conflicts, unpack_script, unpack,
}
use hacman.Install.Files.{workdir_ensure}
use hacman.Project.{Project, EmbeddedFile, file_path_max}
use hacman.Util.Text.{str_copy}
use hacman.Base.{
  ℕ, suc, ◌+◌, Bool, true, false, not, ◌||◌, Option, none, some, List, [], ◌∷◌, if◌then◌else◌,
  length, All, All-imp, Bytes, bytes_eq, bytes_eq_iff, bytes_eq_refl, Rc, success, failure, ◌≡◌,
  ◌⊎◌, refl, sym, ap, ◌∙◌, arith, inl, inr, Bool-cases,
}

-- A name that was taken still has its file, untouched.
abbrev pub IsSpared : Store → Store → Bytes → Type 0
IsSpared before after q = (before q ≡ none) ⊎ (after q ≡ before q)

IsSpared-refl : (store : Store) (q : Bytes) → IsSpared store store q
IsSpared-refl store q = inr refl

IsSpared-trans : (a b c : Store) (q : Bytes) → IsSpared a b q → IsSpared b c q → IsSpared a c q
IsSpared-trans a b c q (inl e) h = inl e
IsSpared-trans a b c q (inr e) (inl g) = inl (sym e ∙ g)
IsSpared-trans a b c q (inr e) (inr g) = inr (g ∙ e)

-- Under a test, whichever branch is taken.
guard_lem :
    (P : Store × Rc → Type 0) (b : Bool) (x y : Store × Rc)
    → P x
    → (b ≡ false → P y)
    → P (if b then x else y)
guard_lem P true x y px py = px
guard_lem P false x y px py = py refl

proceed_lem :
    (P : Store × Rc → Type 0) (r : Rc) (store : Store) (rest : Store × Rc)
    → P (store, failure)
    → (r ≡ success → P rest)
    → P (proceed r store rest)
proceed_lem P failure store rest pf pr = pf
proceed_lem P success store rest pf pr = pr refl

set_file-IsSpared :
    (path : Bytes) (f : Option (Bytes × ℕ)) (store : Store) (q : Bytes)
    → store path ≡ none
    → IsSpared store (set_file path f store) q
unfolding set_file
set_file-IsSpared path f store q free = elim (Bool-cases (bytes_eq q path)) [
  | inl e ↦ inl (ap store ((bytes_eq_iff q path).0 e) ∙ free)
  | inr e ↦ inr (rw e refl)
]

set_file_same :
    (path : Bytes) (f : Option (Bytes × ℕ)) (store : Store) → set_file path f store path ≡ f
unfolding set_file
set_file_same path f store = rw (bytes_eq_refl path) refl

is_vacant_lem :
    (o : Option (Bytes × ℕ)) (b : Bool) → (not b || not (is_vacant o)) ≡ false → o ≡ none
is_vacant_lem none b h = refl
is_vacant_lem (some f) b h = absurd (ground arith)

abbrev pub extracted_path : EmbeddedFile → Bytes
extracted_path f = str_copy (file_path_max + 1) f.path

-- The file stands at its path, with its text and its mode.
abbrev pub IsExtracted : Bytes → Bool → Store → EmbeddedFile → Type 0
IsExtracted shell script after f =
    after (extracted_path f) ≡ some (extracted_text shell f script, mode script)

-- What holds after `unpack_file`, with the name that was free when it succeeds.
abbrev FileOutcome : Bytes → EmbeddedFile → Bool → Store → Bytes → Store × Rc → Type 0
FileOutcome shell f script store q r =
    IsSpared store r.0 q × ((r.1 ≡ failure) ⊎ IsExtracted shell script r.0 f)

withdrawn-IsSpared :
    (k : UnpackCalls) (path : Bytes) (m : ℕ) (store : Store) (q : Bytes)
    → store path ≡ none
    → IsSpared store (withdrawn k path m store) q
unfolding withdrawn
withdrawn-IsSpared k path m store q free = elim (Bool-cases k.unlinks) [
  | inl e ↦ rw e (IsSpared-refl store q)
  | inr e ↦ rw e (set_file-IsSpared path (some ([], m)) store q free)
]

unpack_file-FileOutcome :
    (k : UnpackCalls) (shell : Bytes) (f : EmbeddedFile) (script : Bool) (store : Store) (q : Bytes)
    → FileOutcome shell f script store q (unpack_file k shell f script store)
unfolding unpack_file
unpack_file-FileOutcome k shell f script store q =
    let path = extracted_path f in
    let P = FileOutcome shell f script store q in
    let stop : P (store, failure) = (IsSpared-refl store q, inl refl) in
    let given = set_file path (some (extracted_text shell f script, mode script)) store in
    let lost : Store × Rc = (withdrawn k path (mode script) store, failure) in
    let filled : Store × Rc =
      if not k.fdopens || not k.writes || not k.closes then lost else (given, success) in
    let opened : Store × Rc =
      if not k.opens || not (is_vacant (store path)) then (store, failure) else filled in
    guard_lem P (not k.dups) (store, failure) (proceed (descend k [] path) store opened) stop
      (λ e. proceed_lem P (descend k [] path) store opened stop (λ e.
        guard_lem P (not k.opens || not (is_vacant (store path))) (store, failure) filled stop
          (λ e.
            let free = is_vacant_lem (store path) k.opens e in
            guard_lem P (not k.fdopens || not k.writes || not k.closes) lost (given, success)
              (withdrawn-IsSpared k path (mode script) store q free, inl refl)
              (λ e. (set_file-IsSpared path _ store q free, inr (set_file_same path _ store))))))

-- A file that was extracted is still there when its name was kept.
IsSpared-IsExtracted :
    (shell : Bytes) (script : Bool) (a b : Store) (f : EmbeddedFile)
    → IsSpared a b (extracted_path f)
    → IsExtracted shell script a f
    → IsExtracted shell script b f
IsSpared-IsExtracted shell script a b f (inl e) h = absurd cc
IsSpared-IsExtracted shell script a b f (inr e) h = e ∙ h

unpack_files-IsSpared :
    (calls : ℕ → UnpackCalls) (shell : Bytes) (i : ℕ) (fs : List EmbeddedFile) (store : Store)
    (q : Bytes)
    → IsSpared store (unpack_files calls shell i fs store).0 q
unfolding unpack_files
unpack_files-IsSpared calls shell i [] store q = IsSpared-refl store q
unpack_files-IsSpared calls shell i (f ∷ fs) store q =
    let r = unpack_file (calls i) shell f false store in
    let first = (unpack_file-FileOutcome (calls i) shell f false store q).0 in
    proceed_lem (λ e. IsSpared store e.0 q) r.1 r.0 (unpack_files calls shell (suc i) fs r.0) first
      (λ e.
        IsSpared-trans store r.0 (unpack_files calls shell (suc i) fs r.0).0 q first
          (unpack_files-IsSpared calls shell (suc i) fs r.0 q))

unpack_files-IsExtracted :
    (calls : ℕ → UnpackCalls) (shell : Bytes) (i : ℕ) (fs : List EmbeddedFile) (store : Store)
    → ((unpack_files calls shell i fs store).1 ≡ failure)
      ⊎ All (IsExtracted shell false (unpack_files calls shell i fs store).0) fs
unfolding unpack_files
unpack_files-IsExtracted calls shell i [] store = inr tt
unpack_files-IsExtracted calls shell i (f ∷ fs) store =
    let r = unpack_file (calls i) shell f false store in
    let rest = unpack_files calls shell (suc i) fs r.0 in
    proceed_lem (λ e. (e.1 ≡ failure) ⊎ All (IsExtracted shell false e.0) (f ∷ fs)) r.1 r.0 rest
      (inl refl)
      (λ good. elim (unpack_file-FileOutcome (calls i) shell f false store []).1 [
        | inl bad ↦ absurd cc
        | inr here ↦ elim (unpack_files-IsExtracted calls shell (suc i) fs r.0) [
          | inl bad ↦ inl bad
          | inr there ↦
              let kept = unpack_files-IsSpared calls shell (suc i) fs r.0 (extracted_path f) in
              inr (IsSpared-IsExtracted shell false r.0 rest.0 f kept here, there)
        ]
      ])

-- The script, when the project has one.
abbrev pub ScriptIsExtracted : Bytes → Option EmbeddedFile → Store → Type 0
ScriptIsExtracted shell none after = Unit
ScriptIsExtracted shell (some script) after = IsExtracted shell true after script

unpack_script-FileOutcome :
    (k : UnpackCalls) (shell : Bytes) (script : Option EmbeddedFile) (store : Store) (q : Bytes)
    → IsSpared store (unpack_script k shell script store).0 q
      × (((unpack_script k shell script store).1 ≡ failure)
          ⊎ ScriptIsExtracted shell script (unpack_script k shell script store).0)
unfolding unpack_script
unpack_script-FileOutcome k shell none store q = (IsSpared-refl store q, inr tt)
unpack_script-FileOutcome k shell (some script) store q =
    unpack_file-FileOutcome k shell script true store q

-- Behind the loop over the files.
abbrev pub Whole : Bytes → Project → Store → Bytes → Store × Rc → Type 0
Whole shell p store q e =
    IsSpared store e.0 q
    × ((e.1 ≡ failure)
        ⊎ (All (IsExtracted shell false e.0) p.files × ScriptIsExtracted shell (script_file p) e.0))

script-Whole :
    (k : UnpackCalls) (shell : Bytes) (p : Project) (store s : Store) (q : Bytes)
    → IsSpared store s q
    → All (IsExtracted shell false s) p.files
    → Whole shell p store q (unpack_script k shell (script_file p) s)
script-Whole k shell p store s q kept there =
    let r = unpack_script k shell (script_file p) s in
    let still = λ (f : EmbeddedFile) (h : IsExtracted shell false s f).
      IsSpared-IsExtracted shell false s r.0 f
        (unpack_script-FileOutcome k shell (script_file p) s (extracted_path f)).0 h in
    let (same, result) = unpack_script-FileOutcome k shell (script_file p) s q in
    (
      IsSpared-trans store s r.0 q kept same,
      elim result [ inl bad ↦ inl bad | inr script ↦ inr (All-imp p.files still there, script) ],
    )

pub unpack-Whole :
    (calls : ℕ → UnpackCalls) (made : Bytes → Bool) (is_dir root_opens : Bool) (shell : Bytes)
    (p : Project) (target : Bytes) (store : Store) (q : Bytes)
    → Whole shell p store q (unpack calls made is_dir root_opens shell p target store)
unfolding unpack
unpack-Whole calls made is_dir root_opens shell p target store q =
    let P = Whole shell p store q in
    let stop : P (store, failure) = (IsSpared-refl store q, inl refl) in
    let r = unpack_files calls shell 0 p.files store in
    let kept = unpack_files-IsSpared calls shell 0 p.files store q in
    let last = unpack_script (calls (length p.files)) shell (script_file p) r.0 in
    let filled : Store × Rc = proceed r.1 r.0 last in
    let opened : Store × Rc = if not root_opens then (store, failure) else filled in
    let ensured = workdir_ensure made is_dir target in
    guard_lem P (script_conflicts (script_file p) p.files) (store, failure)
      (proceed ensured store opened) stop
      (λ e. proceed_lem P ensured store opened stop (λ e.
        guard_lem P (not root_opens) (store, failure) filled stop
          (λ e.
            proceed_lem P r.1 r.0 last (kept, inl refl)
              (λ good. elim (unpack_files-IsExtracted calls shell 0 p.files store) [
                | inl bad ↦ absurd cc
                | inr there ↦ script-Whole (calls (length p.files)) shell p store r.0 q kept there
              ]))))
