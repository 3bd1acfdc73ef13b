-- ===== src/Config/Invariant/Complete.antt =====
-- The end of a project keeps the invariant: what it accepts is complete.
use hacman.Config.Finish.{
  name_or, finish_kind, expand_dirs, finish_dirs, expand_bin, finish_bin, finish_project,
}
use hacman.Config.Invariant.{paths, IsBounded, HasSafeFiles, Inv, Keeps, IsShort}
use hacman.Config.State.{Result, ok, err, ◌>>=◌, >>=-eq-ok, Environment, install_block, Cfg}
use hacman.Config.Template.{expand_template}
use hacman.Config.Template.Bounds.{expand_template_bounds}
use hacman.Util.Text.{c_str, length-c_str}
use hacman.Project.{SandboxWriteDir, url_kind, command_kind, version, name_max, path_max}
use hacman.Base.{
  ℕ, ◌+◌, ◌≤◌, ◌<◌, Bool, true, false, not, ◌&&◌, List, [], ◌∷◌, ◌≡◌, refl, inl, inr, Bool-cases,
  arith, ltb, ◌==◌, if◌then◌else◌, length, length-take, take, All, subst, String, Bytes,
}

abbrev Ensures : (Cfg → Type 0) → Result Cfg → Type 0
Ensures P (ok c) = P c
Ensures P (err l m) = Unit

Ensures-bind :
    (P Q : Cfg → Type 0) (m : Result Cfg) (f : Cfg → Result Cfg)
    → Ensures P m
    → ((c : Cfg) → P c → Ensures Q (f c))
    → Ensures Q (m >>= f)
Ensures-bind P Q (ok c) f h go = go c h
Ensures-bind P Q (err l m) f h go = tt

-- What holds of a project once its kind is settled.
record Settled (c : Cfg) : Type 0 where
  bounded : IsBounded c.out
  safe : HasSafeFiles c.out
  default_fits : length c.bin_default ≤ path_max
  pending_seen : c.pending_files ≡ true → c.seen_files ≡ true
  in_seen : c.in_files ≡ true → c.seen_files ≡ true
  files_seen : 0 < length (paths c.out.files) → c.seen_files ≡ true
  install_seen : 0 < length c.out.install → c.seen_install ≡ true
  block_seen : c.block_kind ≡ install_block → c.seen_install ≡ true
  begun : c.started ≡ true
  command_only :
      c.out.kind ≡ command_kind
      → (0 < length c.out.command) × (length c.out.url ≡ 0) × (length c.out.install ≡ 0)
  url_only :
      c.out.kind ≡ url_kind
      → (0 < length c.out.url) × (length c.out.command ≡ 0) × (length (paths c.out.files) ≡ 0)
  prefixed : c.out.kind ≡ url_kind → c.out.check ≡ version → 0 < length c.out.version_prefix
  is_named : 0 < length c.out.name

-- The directories are allowed too.
record Confined (c : Cfg) : Type 0 where
  settled : Settled c
  confined : 0 < length c.out.sandbox_write_dirs → c.out.sandboxed ≡ true

take_bounds :
    (n : ℕ) (from : Bytes)
    → 0 < n
    → 0 < length from
    → (0 < length (take n from)) × (length (take n from) ≤ n)
take_bounds n from p h = omega (arith, length-take n from)

name_or_bounds :
    (name from : Bytes)
    → length name ≤ name_max
    → 0 < length from
    → (0 < length (name_or name from)) × (length (name_or name from) ≤ name_max)
unfolding name_or
name_or_bounds name from h p = elim (Bool-cases (length name == 0)) [
  | inl e ↦ rw e (take_bounds name_max from (omega arith) p)
  | inr e ↦ rw e (ground arith, h)
]

finish_kind-Settled : (c : Cfg) → Inv c → c.inside ≡ true → Ensures Settled (finish_kind c)
unfolding finish_kind
finish_kind-Settled c h i =
    ground (arith, name_or_bounds c.out.name c.out.url, name_or_bounds c.out.name c.out.command)

length-expand_dirs :
    (env : Environment) (ds : List SandboxWriteDir) {es : List SandboxWriteDir}
    → expand_dirs env ds ≡ ok es
    → length es ≡ length ds
unfolding expand_dirs
length-expand_dirs env [] h = ground arith
length-expand_dirs env (d ∷ ds) {es} h =
    let (t, e, h') =
      >>=-eq-ok (expand_template env d.source "sandbox-write-dirs entry" (path_max + 1) d.line true)
        _ h in
    let (fs, e', h'') = >>=-eq-ok (expand_dirs env ds) _ h' in
    let ih = length-expand_dirs env ds e' in ground arith

expanded-fits :
    (env : Environment) (tpl : Bytes) (what : String) (line : ℕ) (absolute : Bool) {t : Bytes}
    → expand_template env tpl what (path_max + 1) line absolute ≡ ok t
    → length (c_str t) ≤ path_max
expanded-fits env tpl what line absolute {t} e =
    let (fits, _) =
      expand_template_bounds env (path_max + 1) what line tpl absolute {t = t} (omega arith) e in
    omega (arith, fits, length-c_str t)

expand_dirs-IsShort :
    (env : Environment) (ds : List SandboxWriteDir) {es : List SandboxWriteDir}
    → All IsShort ds
    → expand_dirs env ds ≡ ok es
    → All IsShort es
unfolding expand_dirs
expand_dirs-IsShort env [] s h = ground arith
expand_dirs-IsShort env (d ∷ ds) {es} (sd, s) h =
    let (t, e, h') =
      >>=-eq-ok (expand_template env d.source "sandbox-write-dirs entry" (path_max + 1) d.line true)
        _ h in
    let (fs, e', h'') = >>=-eq-ok (expand_dirs env ds) _ h' in
    let ih = expand_dirs-IsShort env ds s e' in
    let fits = expanded-fits env d.source "sandbox-write-dirs entry" d.line true e in
    let same : record d { path = c_str t } ∷ fs ≡ es = cc in
    subst (All IsShort) same ((sd.0, fits), ih)

-- The project with its directories resolved.
resolved_dirs-Confined :
    (env : Environment) (c : Cfg)
    → Settled c
    → (ltb 0 (length c.out.sandbox_write_dirs) && not c.out.sandboxed) ≡ false
    → Ensures Confined (
        expand_dirs env c.out.sandbox_write_dirs >>= λ ds.
        ok (record c { out = record c.out { sandbox_write_dirs = ds } }))
resolved_dirs-Confined env c s t = by_result (expand_dirs env c.out.sandbox_write_dirs) refl
  where
    by_result :
        (r : Result (List SandboxWriteDir))
        → expand_dirs env c.out.sandbox_write_dirs ≡ r
        → Ensures Confined
            (r >>= λ ds. ok (record c { out = record c.out { sandbox_write_dirs = ds } }))
    by_result (ok ds) e =
        let len = length-expand_dirs env c.out.sandbox_write_dirs e in
        let short = expand_dirs-IsShort env c.out.sandbox_write_dirs s.bounded.dirs_short e in
        ground (arith, len, short)
    by_result (err l m) e = tt

finish_dirs-Confined :
    (env : Environment) (c : Cfg) → Settled c → Ensures Confined (finish_dirs env c)
unfolding finish_dirs
finish_dirs-Confined env c s = ground (arith, resolved_dirs-Confined env c s)

resolved_bin-Confined :
    (c : Cfg) (what : String) (absolute : Bool) (env : Environment) (r : Result Bytes)
    → Confined c
    → expand_template env c.out.bin what (path_max + 1) c.out.line absolute ≡ r
    → Ensures Confined (r >>= λ t. ok (record c { out = record c.out { bin_path = c_str t } }))
resolved_bin-Confined c what absolute env (ok t) s e =
    let fits = expanded-fits env c.out.bin what c.out.line absolute e in ground (arith, fits)
resolved_bin-Confined c what absolute env (err l m) s e = tt

expand_bin-Confined :
    (env : Environment) (c : Cfg) → Confined c → Ensures Confined (expand_bin env c)
unfolding expand_bin
expand_bin-Confined env c s = elim (Bool-cases (c.resolve_paths && ltb 0 (length c.out.bin))) [
  | inl e ↦ rw e (
      resolved_bin-Confined c "bin-path" (length c.out.files == 0 && not c.out.sandboxed) env _ s
        refl)
  | inr e ↦ rw e s
]

finish_bin-Inv : (c : Cfg) → Confined c → Keeps (finish_bin c)
unfolding finish_bin
finish_bin-Inv c s = ground arith

if-Keeps :
    (b : Bool) (x y : Result Cfg)
    → (b ≡ true → Keeps x)
    → (b ≡ false → Keeps y)
    → Keeps (if b then x else y)
if-Keeps true x y hx hy = hx refl
if-Keeps false x y hx hy = hy refl

pub finish_project-Inv : (env : Environment) (c : Cfg) → Inv c → Keeps (finish_project env c)
unfolding finish_project
finish_project-Inv env c h =
    if-Keeps c.inside _ _
      (λ i. Ensures-bind Settled Inv (finish_kind c) _ (finish_kind-Settled c h i) (λ k s.
        Ensures-bind Confined Inv (finish_dirs env k) _ (finish_dirs-Confined env k s) (λ d t.
          Ensures-bind Confined Inv (expand_bin env d) finish_bin (expand_bin-Confined env d t)
            finish_bin-Inv)))
      (λ i. tt)
