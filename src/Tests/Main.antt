-- ===== src/Tests/Main.antt =====
-- src/main.c at concrete inputs.
use hacman.Tests.Records.{hourly, sample}
use hacman.Cache.Record.{record_text}
use hacman.Cache.Load.{content}
use hacman.Main.Words.{parse_env_words}
use hacman.Main.Words.Quoted.{spelled, parse_env_words-spelled}
use hacman.Main.Options.{Opts, default_opts, parse_arg_list, classify}
use hacman.Main.Options.Forward.{Forwards, parse_arg_list-Forwards}
use hacman.Main.Due.{is_due, IsFresh}
use hacman.Main.Due.Fresh.{is_due-false_iff}
use hacman.Main.Duration.{fmt_duration, value_in_unit, in_unit, with_unit}
use hacman.Util.Number.{decimal}
use hacman.Util.Text.{str_copy}
use hacman.Main.Run.{Outside, run}
use hacman.Main.Run.Own.{IsOwn, run-IsOwn}
use hacman.Main.Run.Monitor.{InOrder, is_same, is_quiet, looking}
use hacman.Main.Run.Monitor.Whole.{run-InOrder}
use hacman.Project.{Project}
use hacman.Base.{
  All, true, false, not, ◌&&◌, some, List, [], ◌∷◌, ◌≡◌, ◌↔◌, refl, arith, Bytes, codes, pos,
}

-- Options.
abbrev words : List Bytes
words = codes "a b" ∷ [] ∷ codes "-x" ∷ []

parse_env_words-spelled_example : parse_env_words (spelled words) ≡ some words
parse_env_words-spelled_example = parse_env_words-spelled words (omega arith) (omega arith)

abbrev command_line : List Bytes
command_line = codes "-f" ∷ codes "--cache" ∷ codes "c" ∷ codes "p.siml" ∷ codes "-v" ∷ []

parse_arg_list-Forwards_example :
    Forwards default_opts command_line
      (record default_opts {
        file = some (codes "p.siml");
        prog_argv = codes "p.siml" ∷ codes "-v" ∷ [];
        cache_dir = some (codes "c");
        force = true;
      })
      (codes "p.siml")
unfolding parse_arg_list classify
parse_arg_list-Forwards_example = parse_arg_list-Forwards command_line default_opts refl refl refl

-- The work.
is_due-false_iff_example :
    ((is_due hourly (record sample { last_check = pos 17 }) (pos 100) false (pos 0) true true).0
      ≡ false)
    ↔ ((false ≡ false)
        × ((true && false && not true) ≡ false)
        × IsFresh hourly (record sample { last_check = pos 17 }) (pos 100))
is_due-false_iff_example =
    is_due-false_iff hourly (record sample { last_check = pos 17 }) (pos 100) false (pos 0) true
      true

abbrev outside : Outside
outside = record {
  first_record = content (record_text sample) [];
  first_now = pos 9000;
  first_access = true;
  first_exec = true;
  exec_access = true;
  lock = true;
  second_record = content (record_text sample) [];
  second_now = pos 9001;
  second_access = true;
  reset = true;
  materialize = true;
  command = true;
  mark = some (codes "v2");
  check_access = true;
  install = true;
  save = true;
  last_exec = true;
}

run-InOrder_example :
    InOrder default_opts.adopt
      (is_same hourly outside sample)
      (is_quiet default_opts)
      false
      looking
      (run hourly default_opts outside sample)
run-InOrder_example = run-InOrder hourly default_opts outside sample

abbrev program : Project
program = record hourly { bin_path = codes "/bin/x"; bin_cached = true }

abbrev words_given : Opts
words_given = record default_opts { prog_argv = codes "p.siml" ∷ codes "-v" ∷ [] }

run-IsOwn_example :
    All (IsOwn program words_given outside sample) (run program words_given outside sample).trace
run-IsOwn_example = run-IsOwn program words_given outside sample

-- Three hours and seven minutes.
hours_only : fmt_duration 32 (pos 11220) ≡ codes "3h"
unfolding fmt_duration value_in_unit in_unit with_unit decimal str_copy
hours_only = refl
