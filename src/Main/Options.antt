-- ===== src/Main/Options.antt =====
-- src/main.c, `hm_opts`, `parse_arg_list` and `parse_args`: what the command line and the two
-- environment variables ask for. An argument is a C string; `prog_argv` is the list from FILE on.
pub mod Forward
use hacman.Main.Words.{parse_env_words}
use hacman.Util.Number.{parse_ulong}
use hacman.Base.{
  ℕ, ◌+◌, ◌-◌, ◌%◌, ◌^◌, Bool, true, false, not, ◌&&◌, ◌||◌, Option, none, some, List, [], ◌∷◌, ltb,
  ◌==◌, if◌then◌else◌, get_or, Bytes, bytes_eq, codes, ℤ, pos, negsuc,
}

-- `hm_opts`
pub record Opts : Type 0 where
  pub file : Option Bytes
  pub prog_argv : List Bytes
  pub cache_dir : Option Bytes
  pub check_only : Bool
  pub dry_run : Bool
  pub force : Bool
  pub adopt : Bool
  pub plan : Bool
  pub unpack : Bool
  pub verbose : Bool
  pub trace : Bool
  pub timeout : ℤ

-- The outcomes: 0, 1 after the help or the version was printed, and -1 after a message.
pub data Parsed : Type 0 where
  parsed : Opts → Parsed
  printed : Parsed
  refused : Parsed

unfoldable pub opt_is : Bytes → Bytes → Bytes → Bool
unfolding bytes_eq
opt_is arg shrt lng = bytes_eq arg shrt || bytes_eq arg lng

-- The options without a value.
unfoldable pub set_flag : Opts → Bytes → Option Opts
unfolding opt_is bytes_eq
set_flag o a =
    if opt_is a (codes "-c") (codes "--check-only")
    then some (record o { check_only = true })
    else if opt_is a (codes "-n") (codes "--dry-run")
    then some (record o { dry_run = true })
    else if opt_is a (codes "-f") (codes "--force")
    then some (record o { force = true })
    else if opt_is a (codes "-a") (codes "--adopt")
    then some (record o { adopt = true })
    else if opt_is a (codes "-p") (codes "--plan")
    then some (record o { plan = true })
    else if bytes_eq a (codes "--unpack")
    then some (record o { unpack = true })
    else if opt_is a (codes "-v") (codes "--verbose")
    then some (record o { verbose = true })
    else if opt_is a (codes "-x") (codes "--trace")
    then some (record o { trace = true })
    else none

-- What one argument is.
pub data Arg : Type 0 where
  file_arg : Arg
  flag : Opts → Arg
  prints : Arg
  cache_arg : Arg
  timeout_arg : Arg
  unknown : Arg

unfoldable pub classify_valued : Bytes → Arg
unfolding opt_is bytes_eq
classify_valued a =
    if opt_is a (codes "-h") (codes "--help")
    then prints
    else if opt_is a (codes "-V") (codes "--version")
    then prints
    else if bytes_eq a (codes "--cache")
    then cache_arg
    else if opt_is a (codes "-t") (codes "--timeout")
    then timeout_arg
    else unknown

unfoldable pub is_file : Bytes → Bool
unfolding bytes_eq
is_file a = not (get_or a 0 0 == b'-') || bytes_eq a (codes "-")

unfoldable pub classify : Opts → Bytes → Arg
unfolding is_file set_flag classify_valued
classify o a =
    if is_file a
    then file_arg
    else elim (set_flag o a) [ none ↦ classify_valued a | some o' ↦ flag o' ]

-- `(int)v`: the low 32 bits, as a signed number.
unfoldable pub to_int : ℕ → ℤ
to_int v = let w = v % 2 ^ 32 in if ltb w (2 ^ 31) then pos w else negsuc (2 ^ 32 - w - 1)

-- `hm_parse_ulong(s, &v) != 0 || v == 0`
unfoldable pub timeout_of : Bytes → Option ℤ
unfolding parse_ulong to_int
timeout_of s = elim (parse_ulong s) [
  | none ↦ none
  | some v ↦ if v == 0 then none else some (to_int v)
]

-- FILE ends the arguments; in HACMAN it is an error.
abbrev pub take_file : Bool → Opts → Bytes → List Bytes → Parsed
take_file env_only o a rest =
    if env_only then refused else parsed (record o { file = some a; prog_argv = a ∷ rest })

unfoldable pub parse_arg_list : Bool → Opts → List Bytes → Parsed
unfolding timeout_of
parse_arg_list env_only o [] = parsed o
parse_arg_list env_only o (a ∷ []) = elim (classify o a) [
  | file_arg ↦ take_file env_only o a []
  | flag o' ↦ parsed o'
  | prints ↦ printed
  | _ ↦ refused
]
parse_arg_list env_only o (a ∷ b ∷ rest) = elim (classify o a) [
  | file_arg ↦ take_file env_only o a (b ∷ rest)
  | flag o' ↦ parse_arg_list env_only o' (b ∷ rest)
  | prints ↦ printed
  | cache_arg ↦ parse_arg_list env_only (record o { cache_dir = some b }) rest
  | timeout_arg ↦ elim (timeout_of b) [
    | none ↦ refused
    | some t ↦ parse_arg_list env_only (record o { timeout = t }) rest
  ]
  | unknown ↦ refused
]

-- `memset`, and the default timeout.
abbrev pub default_opts : Opts
default_opts = record {
  file = none;
  prog_argv = [];
  cache_dir = none;
  check_only = false;
  dry_run = false;
  force = false;
  adopt = false;
  plan = false;
  unpack = false;
  verbose = false;
  trace = false;
  timeout = pos 15;
}

-- HACMAN_DEBUG; an empty value counts as absent.
unfoldable pub parse_debug : Option Bytes → Option Opts
unfolding bytes_eq
parse_debug none = some default_opts
parse_debug (some []) = some default_opts
parse_debug (some (c ∷ s)) =
    if bytes_eq (c ∷ s) (codes "1")
    then some (record default_opts { verbose = true; trace = true })
    else if bytes_eq (c ∷ s) (codes "0")
    then some default_opts
    else none

-- HACMAN
unfoldable pub parse_env_options : Option Bytes → Opts → Parsed
parse_env_options none o = parsed o
parse_env_options (some []) o = parsed o
parse_env_options (some (c ∷ s)) o = elim (parse_env_words (c ∷ s)) [
  | none ↦ refused
  | some words ↦ parse_arg_list true o words
]

unfoldable pub then_arg_list : Parsed → List Bytes → Parsed
unfolding parse_arg_list
then_arg_list (parsed o) args = parse_arg_list false o args
then_arg_list p args = p

-- `args` are the arguments behind the program's name.
unfoldable pub parse_args : Option Bytes → Option Bytes → List Bytes → Parsed
unfolding parse_debug parse_env_options then_arg_list
parse_args debug options args = elim (parse_debug debug) [
  | none ↦ refused
  | some o ↦ then_arg_list (parse_env_options options o) args
]
