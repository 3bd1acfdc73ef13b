-- ===== src/Config/Invariant.antt =====
-- What holds of a project while it is built, and when it is complete (src/config.c).
pub mod Steps
pub mod Files
pub mod Complete
pub mod Walk
use hacman.Config.Path.{valid_file_path, valid_relative_path}
use hacman.Config.State.{Result, ok, err, BlockKind, install_block, Cfg}
use hacman.Project.{
  Project, EmbeddedFile, SandboxWriteDir, ProjectKind, url_kind, command_kind, CheckKind, version,
  name_max, url_max, command_max, path_max, files_max, sandbox_write_dirs_max, bin_names_max,
  bin_name_max,
}
use hacman.Base.{
  ℕ, ◌≤◌, ◌<◌, Bool, true, false, List, [], ◌∷◌, map, ◌≡◌, ◌≢◌, ◌⊎◌, length, get_or, All, Bytes,
}

abbrev pub paths : List EmbeddedFile → List Bytes
paths = map (λ (f : EmbeddedFile). f.path)

abbrev pub Distinct : List Bytes → Type 0
Distinct [] = Unit
Distinct (p ∷ ps) = All (λ q. q ≢ p) ps × Distinct ps

-- The source and the path of a writable directory fit their arrays.
abbrev pub IsShort : SandboxWriteDir → Type 0
IsShort d = (length d.source ≤ path_max) × (length d.path ≤ path_max)

-- The limits of the fields.
pub record IsBounded (p : Project) : Type 0 where
  pub name_fits : length p.name ≤ name_max
  pub url_fits : length p.url ≤ url_max
  pub command_fits : length p.command ≤ command_max
  pub bin_fits : length p.bin ≤ path_max
  pub dirs_fit : length p.sandbox_write_dirs ≤ sandbox_write_dirs_max
  pub bin_names_fit : length p.bin_names ≤ bin_names_max
  pub bin_names_short : All (λ name. length name ≤ bin_name_max) p.bin_names
  pub dirs_short : All IsShort p.sandbox_write_dirs
  pub bin_path_fits : length p.bin_path ≤ path_max

-- The embedded files: how many, and that their paths are safe and differ.
pub record HasSafeFiles (p : Project) : Type 0 where
  pub files_fit : length (paths p.files) ≤ files_max
  pub files_safe : All (λ path. valid_file_path path ≡ true) (paths p.files)
  pub files_differ : Distinct (paths p.files)

-- Either no program, or an absolute path, or one below the project's work directory.
abbrev pub HasBinPath : Project → Type 0
HasBinPath p =
    (p.bin_path ≡ [])
    ⊎ ((get_or p.bin_path 0 0 ≡ b'/')
        ⊎ ((p.bin_cached ≡ true) × (valid_relative_path p.bin_path path_max ≡ true)))

-- The rules at the end of a project.
pub record IsComplete (p : Project) : Type 0 where
  pub command_only :
      p.kind ≡ command_kind → (0 < length p.command) × (length p.url ≡ 0) × (length p.install ≡ 0)
  pub url_only :
      p.kind ≡ url_kind → (0 < length p.url) × (length p.command ≡ 0) × (length (paths p.files) ≡ 0)
  pub prefixed : p.kind ≡ url_kind → p.check ≡ version → 0 < length p.version_prefix
  pub is_named : 0 < length p.name
  pub confined : 0 < length p.sandbox_write_dirs → p.sandboxed ≡ true
  pub program : HasBinPath p

pub record Inv (c : Cfg) : Type 0 where
  pub bounded : IsBounded c.out
  pub safe : HasSafeFiles c.out
  pub default_fits : length c.bin_default ≤ path_max
  pub pending_seen : c.pending_files ≡ true → c.seen_files ≡ true
  pub in_seen : c.in_files ≡ true → c.seen_files ≡ true
  pub files_seen : 0 < length (paths c.out.files) → c.seen_files ≡ true
  pub install_seen : 0 < length c.out.install → c.seen_install ≡ true
  pub block_seen : c.block_kind ≡ install_block → c.seen_install ≡ true
  pub begun : c.inside ≡ true → c.started ≡ true
  pub open_ended : c.finished ≡ false → c.out.bin_path ≡ []
  pub closed : c.finished ≡ true → (c.inside ≡ false) × (c.started ≡ true) × IsComplete c.out

-- A step that does not fail keeps the invariant.
abbrev pub Keeps : Result Cfg → Type 0
Keeps (ok c) = Inv c
Keeps (err l m) = Unit
