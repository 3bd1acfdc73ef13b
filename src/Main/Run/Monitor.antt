-- ===== src/Main/Run/Monitor.antt =====
-- The order of the work in main: what may follow what, and how it may end.
pub mod Ends
pub mod Steps
pub mod Whole
use hacman.Main.Run.{
  Report, Action, report, loaded, locked, unlocked, emptied, materialized, commanded, checked,
  installed, saved, executed, skip_unchanged, skip_never, skip_for, missing, new, changed, Ended,
  exit, replaced, Outside, Run, still, running, due, exits, ◌▸◌, is_empty, is_success, program_argv,
  exec_program, inspects, finish, finish_locked, report_skip, save_record, save_now, attempt,
  run_command, run_command_project, marked, run_install, change_report, compare_mark,
  run_url_project, work, recheck, slow_path, exec_check, cache_hit, run,
}
use hacman.Main.Due.{is_due}
use hacman.Main.Options.{Opts}
use hacman.Cache.Load.{load}
use hacman.Cache.Record.{Cache}
use hacman.Project.{Project, ProjectKind, command_kind, url_kind}
use hacman.Base.{
  ℕ, Bool, true, false, not, ◌&&◌, ◌||◌, Option, none, some, List, [], ◌∷◌, ◌==◌, if◌then◌else◌,
  ltb, length, ◌≡◌, refl, inl, inr, arith, ◌⊎◌, Bytes, bytes_eq, ℤ, pos, Rc, success, failure,
  Bool-cases,
}

-- How far the work has come. `compared` is behind a check that gave a mark, `pending` behind the
-- report that something is to be done, `unrun` behind a hand-over that failed, and `shut` behind one
-- that succeeded.
pub data Stage : Type 0 where
  looking : Stage
  compared : Bytes → Stage
  pending : Stage
  working : Stage
  built : Stage
  stored : Stage
  unrun : Stage
  broken : Stage
  shut : Stage

abbrev to : Bool → Stage → Stage
to true s = s
to false s = broken

-- Where a line on standard output belongs, and the stage behind it.
unfoldable pub told : Stage → Report → Option Stage
told looking due = some pending
told looking running = some looking
told looking skip_unchanged = some looking
told looking skip_never = some looking
told looking (skip_for wait) = some looking
told (compared m) (still mark) = some (compared m)
told (compared m) missing = some pending
told (compared m) (new mark) = some pending
told (compared m) (changed old mark) = some pending
told _ _ = none

-- What an action does to the stage and to the lock; `none` is an action out of order. `quiet` is a
-- run that only inspects, which takes no lock; `adopt` is one that records a state without the work
-- that leads to it; `same held m` says that no work is due for the
-- mark `m`.
unfoldable pub next :
    Bool → (Bool → Bytes → Bool) → Bool → Bool → Stage → Action → Option (Bool × Stage)
unfolding told
next adopt same quiet held s (report r) = elim (told s r) [ none ↦ none | some t ↦ some (held, t) ]
next adopt same quiet held looking (loaded b) = some (held, to b looking)
next adopt same false false looking (locked b) = some (b, to b looking)
next adopt same false false unrun (locked b) = some (b, to b looking)
next adopt same quiet true s unlocked = some (false, s)
next adopt same quiet held looking (checked none) = some (held, broken)
next adopt same quiet held looking (checked (some m)) = some (held, compared m)
next adopt same quiet true looking (emptied b) = some (true, to b working)
next adopt same quiet true looking (materialized b) = some (true, to b working)
next adopt same quiet true looking (commanded b) = some (true, to b built)
next adopt same quiet true pending (emptied b) = some (true, to b working)
next adopt same quiet true working (materialized b) = some (true, to b working)
next adopt same quiet true working (commanded b) = some (true, to b built)
next adopt same quiet true working (installed b) = some (true, to b built)
next adopt same quiet true built (saved c b) = some (true, to b stored)
next true same quiet true looking (saved c b) = some (true, to b stored)
next true same quiet true pending (saved c b) = some (true, to b stored)
next adopt same quiet true (compared m) (saved c b) =
    if same true m && bytes_eq c.mark m then some (true, to b stored) else none
next adopt same true false (compared m) (saved c b) =
    if same false m && bytes_eq c.mark m then some (false, to b stored) else none
next adopt same false false looking (executed path argv true) = some (false, shut)
next adopt same false false looking (executed path argv false) = some (false, unrun)
next adopt same false false stored (executed path argv true) = some (false, shut)
next adopt same false false stored (executed path argv false) = some (false, unrun)
next _ _ _ _ _ _ = none

-- The ends that fit a stage.
unfoldable pub may_end : Bool → Stage → Ended → Bool
may_end quiet shut replaced = true
may_end quiet looking (exit code) = code == 0
may_end quiet pending (exit code) = quiet && code == 10
may_end quiet unrun (exit code) = code == 127
may_end quiet stored (exit code) = code == 0
may_end quiet broken (exit code) = code == 1 || code == 2
may_end _ _ _ = false

-- The whole log is in order, and its end fits and leaves no lock.
unfoldable pub in_order :
    Bool → (Bool → Bytes → Bool) → Bool → Bool → Stage → List Action → Ended → Bool
unfolding next may_end
in_order adopt same quiet held s [] e = not held && may_end quiet s e
in_order adopt same quiet held s (a ∷ later) e = elim (next adopt same quiet held s a) [
  | none ↦ false
  | some q ↦ in_order adopt same quiet q.0 q.1 later e
]

unfoldable pub InOrder : Bool → (Bool → Bytes → Bool) → Bool → Bool → Stage → Run → Type 0
InOrder adopt same quiet held s r = in_order adopt same quiet held s r.trace r.ended ≡ true

abbrev pub is_quiet : Opts → Bool
is_quiet o = o.check_only || o.dry_run

-- The record that the work starts from: that of the first load, or with the lock that of the second.
abbrev pub before : Outside → Cache → Bool → Cache
before w c false = (load c w.first_record).1
before w c true = (load (load c w.first_record).1 w.second_record).1

-- No work is due: the program is not missing, and this record is of the mark that the check gave.
unfoldable pub is_kept : Project → Outside → Bytes → Cache → Bool
is_kept p w m d = not (p.bin_cached && not w.check_access) && d.known && bytes_eq d.mark m

unfoldable pub is_same : Project → Outside → Cache → Bool → Bytes → Bool
unfolding is_kept
is_same p w c held m = is_kept p w m (before w c held)

-- Both branches, each under its test.
pub if_lem :
    (adopt : Bool) (same : Bool → Bytes → Bool) (quiet held : Bool) (s : Stage) (b : Bool)
    (x y : Run)
    → (b ≡ true → InOrder adopt same quiet held s x)
    → (b ≡ false → InOrder adopt same quiet held s y)
    → InOrder adopt same quiet held s (if b then x else y)
if_lem adopt same quiet held s true x y h k = h refl
if_lem adopt same quiet held s false x y h k = k refl
