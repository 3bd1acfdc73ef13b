-- ===== src/Main/Start.antt =====
-- src/main.c, main in front of `hm_cache_load`: the modes, the source, the project, the program's
-- path and the place of the cache record.
pub mod Program
use hacman.Main.Run.{Outside, Run, exits, is_empty, run}
use hacman.Main.Options.{Opts, Parsed, parsed, printed, refused, parse_args}
use hacman.Cache.Place.{cache_dir, cache_init, identity_build}
use hacman.Cache.Record.{Cache, identity_max}
use hacman.Config.Entries.{bin_name_of}
use hacman.Config.Events.{Events, config_parse}
use hacman.Config.State.{ok, err, Environment}
use hacman.Project.{Project, BinChoice, default, path_max}
use hacman.Util.Text.{str_eq_str}
use hacman.Base.{
  ℕ, ◌+◌, Bool, true, false, not, ◌&&◌, ◌||◌, Option, none, some, List, [], ◌∷◌, ◌++◌, ltb, ◌==◌,
  if◌then◌else◌, length, get_or, Bytes, bytes_eq, codes,
}

-- What main is given: its arguments and environment, the answers about the source, and third-party
-- code (the SIML parser and the hash).
pub record Input : Type 0 where
  pub args : List Bytes
  pub debug : Option Bytes
  pub options : Option Bytes
  pub cache_env : Option Bytes
  pub cwd : Option Bytes
  pub environment : Environment
  pub source : Option Bytes
  pub canonical : Bool
  pub resolved : Option Bytes
  pub events : Bytes → Events
  pub hash_hex : Bytes → Bytes
  pub version : Bytes
  pub unpacked : Bool
  pub outside : Outside

abbrev pub is_stdin : Bytes → Bool
is_stdin file = bytes_eq file (codes "-")

-- `prog_argv[1]` is there, and it is the last one and not empty.
abbrev pub one_target : List Bytes → Bool
one_target (f ∷ (c ∷ t) ∷ []) = true
one_target _ = false

abbrev pub has_args : List Bytes → Bool
has_args (f ∷ a ∷ args) = true
has_args _ = false

-- What `--unpack` asks of the other options.
unfoldable pub may_unpack : Opts → Bool
may_unpack o =
    not o.unpack
    || one_target o.prog_argv && not (o.plan || o.check_only || o.dry_run || o.adopt || o.force)

-- `resolve_cached_bin`: the project with its program's path, or the message that it is too long.
unfoldable pub resolve_cached_bin : Project → Cache → Option Project
resolve_cached_bin p c =
    if is_empty p.bin_path || get_or p.bin_path 0 0 == b'/'
    then some p
    else if ltb path_max (length c.workdir + 1 + length p.bin_path)
    then none
    else some (record p { bin_path = c.workdir ++ (b'/' ∷ p.bin_path) })

-- `own` in `confirm_default_bin`.
abbrev pub own_path : Option Bytes → Option Bytes → Option Bytes
own_path (some known) resolved = some known
own_path none resolved = resolved

-- `confirm_default_bin`; `known` is the path that was resolved before.
unfoldable pub confirm_default_bin : Bytes → Bool → Option Bytes → Option Bytes → Bool
confirm_default_bin file true known resolved = true
confirm_default_bin file false known resolved = elim (own_path known resolved) [
  | none ↦ false
  | some own ↦ str_eq_str (bin_name_of file) (bin_name_of own)
]

abbrev pub is_default : BinChoice → Bool
is_default default = true
is_default _ = false

-- The path that addresses an embedded project's record; `none` is a message.
unfoldable pub source_path : Input → Bytes → Project → Option (Option Bytes)
source_path i file p =
    if not (ltb 0 (length p.files) && not (is_stdin file))
    then some none
    else elim (if i.canonical then some file else i.resolved) [
      | none ↦ none
      | some path ↦ if ltb path_max (length path) then none else some (some path)
    ]

unfoldable pub with_program : Input → Opts → Project → Cache → Run
with_program i o p c = elim (resolve_cached_bin p c) [
  | none ↦ exits 1
  | some q ↦ if o.plan then exits 0 else run q o i.outside c
]

unfoldable pub with_path : Input → Opts → Bytes → Bytes → Project → Option Bytes → Run
with_path i o file buf p path =
    if is_default p.bin_choice
      && not (is_stdin file)
      && not (confirm_default_bin file i.canonical path i.resolved)
    then exits 1
    else elim (cache_dir i.cwd o.cache_dir i.cache_env i.environment.home) [
      | none ↦ exits 1
      | some dir ↦ with_program i o p (
          cache_init i.hash_hex p dir path
            (identity_build i.hash_hex i.version buf (identity_max + 1)))
    ]

unfoldable pub with_project : Input → Opts → Bytes → Bytes → Project → Run
with_project i o file buf p =
    if o.unpack
    then exits (if i.unpacked then 0 else 2)
    else if is_empty p.bin_path && has_args o.prog_argv
    then exits 1
    else elim (source_path i file p) [ none ↦ exits 1 | some path ↦ with_path i o file buf p path ]

abbrev pub invoked_as : Bytes → Option Bytes
invoked_as file = if is_stdin file then none else some file

unfoldable pub with_file : Input → Opts → Bytes → Run
with_file i o file = if not (may_unpack o) then exits 1 else elim i.source [
  | none ↦ exits 1
  | some buf ↦
      elim (config_parse i.environment buf (i.events buf) (invoked_as file) (not o.unpack)) [
        | err line message ↦ exits 1
        | ok p ↦ with_project i o file buf p
      ]
]

unfoldable pub main : Input → Run
main i = elim (parse_args i.debug i.options i.args) [
  | printed ↦ exits 0
  | refused ↦ exits 1
  | parsed o ↦ elim o.file [ none ↦ exits 1 | some file ↦ with_file i o file ]
]
