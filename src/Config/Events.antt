-- ===== src/Config/Events.antt =====
-- src/config.c, `hm_config_parse`: the walk over the events of the SIML parser. The parser itself
-- is third-party code: its events, in order, are the input of the model.
use hacman.Config.Entries.{
  add_file, add_sandbox_write_dir, add_bin_entry, finish_bin_map, bin_name_of,
}
use hacman.Config.Fields.{apply_field}
use hacman.Config.Finish.{begin_project, finish_project}
use hacman.Config.State.{
  text, syntax, null_read, Result, ok, err, check, ◌>>=◌, Environment, BlockKind, no_block,
  install_block, file_block, Cfg,
}
use hacman.Project.{Project, EmbeddedFile, zeroed}
use hacman.Util.Text.{str_eq}
use hacman.Base.{
  ℕ, zero, suc, ◌+◌, ◌-◌, Bool, true, false, not, ◌&&◌, ◌||◌, Option, none, some, List, [], ◌∷◌,
  ◌==◌, if◌then◌else◌, length, take, drop, get_or, Bytes, String, codes,
}

-- `siml_event`, with the parts that the walk reads. A line of a block scalar is its offset in the
-- input and its length.
pub data Event : Type 0 where
  stream_start : Event
  document_start : ℕ → Event
  document_end : Event
  shebang : Event
  comment : Event
  entry_header : Bytes → ℕ → Event
  sequence_start : Bytes → ℕ → Event
  sequence_end : Event
  mapping_start : ℕ → Event
  mapping_end : ℕ → Event
  scalar : Bytes → Bytes → ℕ → Event
  block_scalar_start : Bytes → ℕ → Event
  block_scalar_line : ℕ → ℕ → Event
  block_scalar_end : Event

-- What `siml_next` returns, call by call: it ends with the end of the stream or with an error.
pub data Events : Type 0 where
  stream_end : Events
  failed : ℕ → String → Events
  event : Event → Events → Events

unfoldable pub entry_header_step : Cfg → Bytes → ℕ → Result Cfg
entry_header_step c key line =
    check c.in_bin_map line "a bin-path entry must map a name to a path" (
      check (c.in_files || c.in_sandbox_write_dirs) line
        "an embedded file must be a literal block scalar"
        (if c.inside && str_eq key (codes "bin-path")
          then check c.seen_bin line "duplicate 'bin-path'"
              (ok (record c { seen_bin = true; pending_bin_map = true }))
          else if c.inside && str_eq key (codes "files")
          then ok (record c { seen_files = true; pending_files = true })
          else if c.inside && str_eq key (codes "sandbox-write-dirs")
          then check c.seen_sandbox_write_dirs line "duplicate 'sandbox-write-dirs'"
              (ok (record c { seen_sandbox_write_dirs = true; pending_sandbox_write_dirs = true }))
          else ok c))

unfoldable pub sequence_start_step : Cfg → Bytes → ℕ → Result Cfg
sequence_start_step c key line =
    if c.inside && (c.pending_sandbox_write_dirs || str_eq key (codes "sandbox-write-dirs"))
    then check (not c.pending_sandbox_write_dirs && c.seen_sandbox_write_dirs) line
        "duplicate 'sandbox-write-dirs'"
        (ok (record c {
          seen_sandbox_write_dirs = true;
          pending_sandbox_write_dirs = false;
          in_sandbox_write_dirs = true;
        }))
    else check c.inside line "only 'sandbox-write-dirs' may be a sequence inside a project" (
        err line (
          text
            "input must describe exactly one project, written as a plain mapping (no leading '- ')"))

abbrev pub name_of_invoked : Option Bytes → Bytes → Bytes
name_of_invoked none old = old
name_of_invoked (some path) old = bin_name_of path

unfoldable pub mapping_start_step : Cfg → ℕ → Result Cfg
mapping_start_step c line =
    if c.inside && c.pending_files
    then ok (record c { pending_files = false; in_files = true })
    else if c.inside && c.pending_bin_map
    then ok (record c {
      pending_bin_map = false;
      in_bin_map = true;
      invoked_name = name_of_invoked c.invoked c.invoked_name;
    })
    else check (c.inside && c.pending_sandbox_write_dirs) line
        "'sandbox-write-dirs' must be a sequence"
        (check c.inside line "nested mappings are not supported" (begin_project c line))

unfoldable pub mapping_end_step : Environment → Cfg → ℕ → Result Cfg
mapping_end_step env c line =
    if c.in_files
    then ok (record c { in_files = false })
    else if c.in_bin_map
    then finish_bin_map c line
    else finish_project env c

unfoldable pub scalar_step : Cfg → Bytes → Bytes → ℕ → Result Cfg
scalar_step c key value line = check (not c.inside) line "expected a mapping of project fields" (
    if length key == 0
    then (if c.in_sandbox_write_dirs
        then add_sandbox_write_dir c value line
        else err line (text "bare sequence items are not supported"))
    else if c.in_bin_map
    then add_bin_entry c key value line
    else check c.in_files line "an embedded file must be a literal block scalar"
        (apply_field c key value line))

unfoldable pub block_start_step : Cfg → Bytes → ℕ → Result Cfg
block_start_step c key line =
    if c.inside && c.in_files
    then (add_file c key line >>= λ (p : Cfg × ℕ). ok (record p.0 {
      block_file = some p.1;
      block_kind = file_block;
      block_start = none;
      block_end = 0;
    }))
    else check (not (c.inside && str_eq key (codes "install"))) line
        "only 'install' and embedded files may be block scalars"
        (ok (record c {
          seen_install = true;
          block_kind = install_block;
          block_start = none;
          block_end = 0;
        }))

-- The scan back to the start of the line.
unfoldable pub line_start : Bytes → ℕ → ℕ
line_start buf zero = zero
line_start buf (suc n) =
    let before = line_start buf n in if get_or buf n 0 == b'\n' then suc n else before

unfoldable pub update_at {ℓ} : {A : Type ℓ} → ℕ → (A → A) → List A → List A
update_at i f [] = []
update_at zero f (x ∷ xs) = f x ∷ xs
update_at (suc i) f (x ∷ xs) = x ∷ update_at i f xs

-- A write through `block_file`.
unfoldable pub update_block_file : Cfg → (EmbeddedFile → EmbeddedFile) → Result Cfg
update_block_file c f = elim c.block_file [
  | none ↦ err 0 null_read
  | some i ↦ ok (record c { out = record c.out { files = update_at i f c.out.files } })
]

-- The first line of text gives the indentation.
unfoldable pub note_indent : Cfg → ℕ → Result Cfg
note_indent c indent = elim c.block_kind [
  | no_block ↦ ok c
  | install_block ↦
      if c.inside
      then ok (record c { out = record c.out { install_indent = indent } })
      else err 0 null_read
  | file_block ↦ update_block_file c (λ f. record f { content_indent = indent })
]

abbrev pub is_block : BlockKind → Bool
is_block no_block = false
is_block _ = true

unfoldable pub block_line_step : Bytes → Cfg → ℕ → ℕ → Result Cfg
block_line_step buf c at len =
    if not (is_block c.block_kind) then ok c else if len == 0 then ok c else elim c.block_start [
      | none ↦
          note_indent (record c { block_start = some (line_start buf at) }) (at - line_start buf at)
          >>= λ d. ok (record d { block_end = at + len })
      | some start ↦ ok (record c { block_end = at + len })
    ]

-- The raw region of a block.
unfoldable pub region : Bytes → ℕ → ℕ → Bytes
region buf start end = take (end - start) (drop start buf)

unfoldable pub store_block : Bytes → Cfg → ℕ → Result Cfg
store_block buf c start = elim c.block_kind [
  | no_block ↦ ok c
  | install_block ↦
      if c.inside
      then ok (record c { out = record c.out { install = region buf start c.block_end } })
      else err 0 null_read
  | file_block ↦ update_block_file c (λ f. record f { content = region buf start c.block_end })
]

unfoldable pub block_end_step : Bytes → Cfg → Result Cfg
block_end_step buf c =
    elim c.block_start [ none ↦ ok c | some start ↦ store_block buf c start ] >>= λ d.
    ok (record d { block_kind = no_block; block_file = none })

-- One round of the loop.
unfoldable pub step : Environment → Bytes → Cfg → Event → Result Cfg
step env buf c stream_start = ok c
step env buf c (document_start line) =
    check c.started line "input must describe exactly one project" (ok c)
step env buf c document_end = ok c
step env buf c shebang = ok c
step env buf c comment = ok c
step env buf c (entry_header key line) = entry_header_step c key line
step env buf c (sequence_start key line) = sequence_start_step c key line
step env buf c sequence_end = ok (record c { in_sandbox_write_dirs = false })
step env buf c (mapping_start line) = mapping_start_step c line
step env buf c (mapping_end line) = mapping_end_step env c line
step env buf c (scalar key value line) = scalar_step c key value line
step env buf c (block_scalar_start key line) = block_start_step c key line
step env buf c (block_scalar_line at len) = block_line_step buf c at len
step env buf c block_scalar_end = block_end_step buf c

unfoldable pub walk : Environment → Bytes → Events → Cfg → Result Project
walk env buf stream_end c =
    if c.finished then ok c.out else err 0 (text "input describes no project")
walk env buf (failed line message) c = err line (syntax message)
walk env buf (event e es) c = step env buf c e >>= walk env buf es

-- `memset(&c, 0, sizeof(c))` and the assignments behind it.
abbrev pub initial : Option Bytes → Bool → Cfg
initial invoked resolve_paths = record {
  invoked = invoked;
  out = zeroed;
  started = false;
  finished = false;
  inside = false;
  seen_check = false;
  seen_version = false;
  resolve_paths = resolve_paths;
  seen_install = false;
  seen_files = false;
  seen_sandbox_write_dirs = false;
  pending_files = false;
  pending_sandbox_write_dirs = false;
  in_files = false;
  in_sandbox_write_dirs = false;
  seen_bin = false;
  pending_bin_map = false;
  in_bin_map = false;
  bin_default = [];
  invoked_name = [];
  block_kind = no_block;
  block_file = none;
  block_start = none;
  block_end = 0;
}

unfoldable pub config_parse : Environment → Bytes → Events → Option Bytes → Bool → Result Project
config_parse env buf es invoked resolve_paths = walk env buf es (initial invoked resolve_paths)
