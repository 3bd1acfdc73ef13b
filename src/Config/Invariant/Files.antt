-- ===== src/Config/Invariant/Files.antt =====
-- Each step of the walk keeps the invariant: embedded files and block scalars.
use hacman.Config.Entries.{add_file, has_path}
use hacman.Config.Events.{
  block_start_step, line_start, update_at, update_block_file, note_indent, block_line_step, region,
  store_block, block_end_step,
}
use hacman.Config.Invariant.{paths, Distinct, HasSafeFiles, Inv, Keeps}
use hacman.Config.Path.{valid_file_path, valid_relative_path_iff}
use hacman.Config.State.{Result, ok, err, ◌>>=◌, no_block, file_block, Cfg}
use hacman.Project.{Project, EmbeddedFile, file_path_max}
use hacman.Util.Text.{str_copy, str_copy_of_le, str_eq_str_iff}
use mathlib.Core.List.{map-append}
use hacman.Base.{
  ℕ, zero, suc, ◌+◌, ◌-◌, ◌≤◌, true, false, ◌&&◌, none, some, List, [], ◌∷◌, ◌++◌, ◌≡◌, ◌≢◌, refl,
  sym, ap, ◌∙◌, inl, inr, arith, ◌==◌, Bool-cases, Option-cases, length, length-append, All,
  All-append, Bytes,
}

Distinct-concat :
    (ps : List Bytes) (p : Bytes) → Distinct ps → All (λ q. q ≢ p) ps → Distinct (ps ++ p ∷ [])
Distinct-concat [] p d h = (tt, tt)
Distinct-concat (q ∷ ps) p (dq, d) (hq, h) =
    (All-append (λ r. r ≢ q) ps (p ∷ []) dq ((λ e. hq (sym e)), tt), Distinct-concat ps p d h)

has_path-All :
    (path : Bytes) (fs : List EmbeddedFile)
    → has_path path fs ≡ false
    → All (λ q. q ≢ path) (paths fs)
unfolding has_path
has_path-All path [] h = tt
has_path-All path (f ∷ fs) h =
    ((λ e. ground (arith, str_eq_str_iff f.path path)), has_path-All path fs (ground arith))

valid_file_path-fits : (path : Bytes) → valid_file_path path ≡ true → length path ≤ file_path_max
unfolding valid_file_path
valid_file_path-fits path h = ((valid_relative_path_iff path file_path_max).0 h).0

HasSafeFiles-concat :
    (ps : List Bytes) (path : Bytes)
    → All (λ p. valid_file_path p ≡ true) ps
    → Distinct ps
    → valid_file_path path ≡ true
    → All (λ q. q ≢ path) ps
    → All (λ p. valid_file_path p ≡ true) (ps ++ path ∷ []) × Distinct (ps ++ path ∷ [])
HasSafeFiles-concat ps path s d v n = (
  All-append (λ p. valid_file_path p ≡ true) ps (path ∷ []) s (v, tt),
  Distinct-concat ps path d n,
)

paths-append :
    (fs : List EmbeddedFile) (f : EmbeddedFile) → paths (fs ++ f ∷ []) ≡ paths fs ++ f.path ∷ []
paths-append fs f = map-append (λ (g : EmbeddedFile). g.path) fs (f ∷ [])

length-paths : (fs : List EmbeddedFile) → length (paths fs) ≡ length fs
length-paths [] = refl
length-paths (f ∷ fs) = ap suc (length-paths fs)

paths-update_at :
    (i : ℕ) (f : EmbeddedFile → EmbeddedFile) (fs : List EmbeddedFile)
    → ((g : EmbeddedFile) → (f g).path ≡ g.path)
    → paths (update_at i f fs) ≡ paths fs
unfolding update_at
paths-update_at i f [] h = refl
paths-update_at zero f (g ∷ fs) h = ap (λ (p : Bytes). p ∷ paths fs) (h g)
paths-update_at (suc i) f (g ∷ fs) h = ap (◌∷◌ g.path) (paths-update_at i f fs h)

-- A project whose files have the same paths.
same_paths-Inv :
    (c : Cfg) (fs : List EmbeddedFile)
    → Inv c
    → paths fs ≡ paths c.out.files
    → Inv (record c { out = record c.out { files = fs } })
same_paths-Inv c fs h e =
    let a = ap length e in
    let s : HasSafeFiles (record c.out { files = fs }) = record {
      files_fit = rw e h.safe.files_fit;
      files_safe = rw e h.safe.files_safe;
      files_differ = rw e h.safe.files_differ;
    } in
    ground arith

new_file : Bytes → ℕ → EmbeddedFile
new_file path line = record {
  path = str_copy (file_path_max + 1) path;
  content = [];
  content_indent = 0;
  line = line;
}

new_file-HasSafeFiles :
    (p : Project) (path : Bytes) (line : ℕ)
    → HasSafeFiles p
    → valid_file_path path ≡ true
    → has_path path p.files ≡ false
    → (length p.files == 64) ≡ false
    → HasSafeFiles (record p { files = p.files ++ new_file path line ∷ [] })
unfolding new_file
new_file-HasSafeFiles p path line s v n room =
    let e : paths (p.files ++ new_file path line ∷ []) ≡ paths p.files ++ path ∷ [] =
      paths-append p.files (new_file path line)
      ∙ ap (λ (q : Bytes). paths p.files ++ q ∷ [])
          (str_copy_of_le (file_path_max + 1) path (omega (arith, valid_file_path-fits path v))) in
    let (safe, differ) =
      HasSafeFiles-concat (paths p.files) path s.files_safe s.files_differ v
        (has_path-All path p.files n) in
    let len = length-append (paths p.files) (path ∷ []) in
    let len' = length-paths p.files in
    let fit = s.files_fit in
    record { files_fit = rw e (ground arith); files_safe = rw e safe; files_differ = rw e differ }

abbrev KeepsFile : Result (Cfg × ℕ) → Type 0
KeepsFile (ok p) = Inv p.0
KeepsFile (err l m) = Unit

module _ (c : Cfg) (h : Inv c) where
  add_file-Inv :
      (path : Bytes) (line : ℕ)
      → c.inside ≡ true
      → c.in_files ≡ true
      → KeepsFile (add_file c path line)
  unfolding add_file new_file
  add_file-Inv path line i f = ground (arith, new_file-HasSafeFiles c.out path line)

  update_block_file-Inv :
      (f : EmbeddedFile → EmbeddedFile)
      → ((g : EmbeddedFile) → (f g).path ≡ g.path)
      → Keeps (update_block_file c f)
  unfolding update_block_file
  update_block_file-Inv f same = elim (Option-cases c.block_file) [
    | inl e ↦ rw (e, update_block_file) tt
    | inr (i, e) ↦
        rw (e, update_block_file)
          (same_paths-Inv c (update_at i f c.out.files) h (paths-update_at i f c.out.files same))
  ]

  add_file_started :
      (r : Result (Cfg × ℕ))
      → KeepsFile r
      → Keeps (
          r >>= λ (p : Cfg × ℕ). ok (record p.0 {
            block_file = some p.1;
            block_kind = file_block;
            block_start = none;
            block_end = 0;
          }))
  add_file_started (ok p) k = ground arith
  add_file_started (err l m) k = tt

  pub block_start_step-Inv : (key : Bytes) (line : ℕ) → Keeps (block_start_step c key line)
  unfolding block_start_step
  block_start_step-Inv key line = elim (Bool-cases (c.inside && c.in_files)) [
    | inl e ↦ rw e (
        add_file_started (add_file c key line)
          (add_file-Inv key line (ground arith) (ground arith)))
    | inr e ↦ rw e (ground arith)
  ]

  note_indent-Inv : (indent : ℕ) → Keeps (note_indent c indent)
  unfolding note_indent
  note_indent-Inv indent =
      ground (arith, update_block_file-Inv (λ f. record f { content_indent = indent }) (λ g. refl))

  store_block-Inv : (buf : Bytes) (start : ℕ) → Keeps (store_block buf c start)
  unfolding store_block
  store_block-Inv buf start = ground (
    arith,
    update_block_file-Inv (λ f. record f { content = region buf start c.block_end }) (λ g. refl),
  )

Keeps-end :
    (r : Result Cfg)
    → Keeps r
    → Keeps (r >>= λ d. ok (record d { block_kind = no_block; block_file = none }))
Keeps-end (ok d) k = ground arith
Keeps-end (err l m) k = tt

Keeps-line :
    (r : Result Cfg) (end : ℕ) → Keeps r → Keeps (r >>= λ d. ok (record d { block_end = end }))
Keeps-line (ok d) end k = ground arith
Keeps-line (err l m) end k = tt

started-Inv : (c : Cfg) (start : ℕ) → Inv c → Inv (record c { block_start = some start })
started-Inv c start h = ground arith

module _ (c : Cfg) (h : Inv c) where
  pub block_line_step-Inv : (buf : Bytes) (at len : ℕ) → Keeps (block_line_step buf c at len)
  unfolding block_line_step
  block_line_step-Inv buf at len =
      let d = record c { block_start = some (line_start buf at) } in
      let e : ℕ = at - line_start buf at in
      ground (
        arith,
        Keeps-line (note_indent d e) (at + len)
            (note_indent-Inv d (started-Inv c (line_start buf at) h) e),
      )

  pub block_end_step-Inv : (buf : Bytes) → Keeps (block_end_step buf c)
  unfolding block_end_step
  block_end_step-Inv buf = elim (Option-cases c.block_start) [
    | inl e ↦ rw e (ground arith)
    | inr (s, e) ↦ rw e (Keeps-end (store_block buf c s) (store_block-Inv c h buf s))
  ]
