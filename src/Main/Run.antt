-- ===== src/Main/Run.antt =====
-- src/main.c from `hm_cache_load` on: the fast path, the lock, the recheck, the work and the
-- hand-over. What the kernel, the network and the project's own scripts answer is a value
-- `Outside`; the calls are logged in their order, with their results.
pub mod Monitor
pub mod Own
use hacman.Main.Due.{is_due}
use hacman.Main.Options.{Opts}
use hacman.Cache.Load.{RecordFile, load}
use hacman.Cache.Record.{Cache, mark_max}
use hacman.Project.{Project, SchedKind, ProjectKind, command_kind, url_kind}
use hacman.Main.Due.{is_never}
use hacman.Util.Text.{str_copy}
use hacman.Base.{
  ℕ, ◌+◌, Bool, true, false, not, ◌&&◌, ◌||◌, Option, none, some, List, [], ◌∷◌, ltb, ◌==◌,
  if◌then◌else◌, length, Bytes, bytes_eq, ℤ, pos, ltb_ℤ, Rc, success, failure,
}

-- The lines on standard output.
pub data Report : Type 0 where
  skip_unchanged : Report
  skip_never : Report
  skip_for : ℤ → Report
  due : Report
  running : Report
  still : Bytes → Report
  missing : Report
  new : Bytes → Report
  changed : Bytes → Bytes → Report

pub data Action : Type 0 where
  report : Report → Action
  loaded : Bool → Action
  locked : Bool → Action
  unlocked : Action
  emptied : Bool → Action
  materialized : Bool → Action
  commanded : Bool → Action
  checked : Option Bytes → Action
  installed : Bool → Action
  saved : Cache → Bool → Action
  executed : Bytes → List Bytes → Bool → Action

-- An exit code, or the program of the project in the place of this one.
pub data Ended : Type 0 where
  exit : ℕ → Ended
  replaced : Ended

-- The answers; `true` is success.
pub record Outside : Type 0 where
  pub first_record : RecordFile
  pub first_now : ℤ
  pub first_access : Bool
  pub first_exec : Bool
  pub exec_access : Bool
  pub lock : Bool
  pub second_record : RecordFile
  pub second_now : ℤ
  pub second_access : Bool
  pub reset : Bool
  pub materialize : Bool
  pub command : Bool
  pub mark : Option Bytes
  pub check_access : Bool
  pub install : Bool
  pub save : Bool
  pub last_exec : Bool

pub record Run : Type 0 where
  pub trace : List Action
  pub ended : Ended

abbrev pub exits : ℕ → Run
exits code = record { trace = []; ended = exit code }

infixr 5 ◌▸◌
abbrev pub ◌▸◌ : Action → Run → Run
a ▸ r = record { trace = a ∷ r.trace; ended = r.ended }

abbrev pub is_empty : Bytes → Bool
is_empty [] = true
is_empty _ = false

abbrev pub is_success : Rc → Bool
is_success success = true
is_success failure = false

-- `prog_argv` with its first slot replaced.
abbrev pub program_argv : Project → Opts → List Bytes
program_argv p o = elim o.prog_argv [ [] ↦ [] | f ∷ args ↦ p.bin_path ∷ args ]

-- `exec_program`: the call returns only when it failed.
abbrev pub exec_program : Project → Opts → Bool → Run → Run
exec_program p o true failed =
    executed p.bin_path (program_argv p o) true ▸ record { trace = []; ended = replaced }
exec_program p o false failed = executed p.bin_path (program_argv p o) false ▸ failed

abbrev pub inspects : Opts → Bool
inspects o = o.plan || o.check_only || o.dry_run || o.adopt

unfoldable pub finish : Project → Opts → Outside → ℕ → Run
finish p o w rc =
    if not (rc == 0) || is_empty p.bin_path
    then exits rc
    else if inspects o
    then exits rc
    else exec_program p o w.last_exec (exits 127)

-- `hm_cache_unlock` does nothing without a lock.
unfoldable pub finish_locked : Project → Opts → Outside → Bool → ℕ → Run
unfolding finish
finish_locked p o w true rc = unlocked ▸ finish p o w rc
finish_locked p o w false rc = finish p o w rc

-- The lines of `report_skip`, in front of what follows.
unfoldable pub report_skip : Project → Opts → ℤ → Run → Run
report_skip p o wait r =
    if not o.verbose
    then r
    else if ltb 0 (length p.files) && (not p.schedule_explicit || is_never p.sched_kind)
    then report skip_unchanged ▸ r
    else if ltb_ℤ wait (pos 0)
    then report skip_never ▸ r
    else report (skip_for wait) ▸ r

-- `hm_cache_save`, and its exit code.
unfoldable pub save_record : Project → Opts → Outside → Bool → Cache → Run
unfolding finish_locked
save_record p o w held c = saved c w.save ▸ finish_locked p o w held (if w.save then 0 else 2)

-- The tail of `run_command_project`.
abbrev pub save_now : Project → Opts → Outside → Bool → ℤ → Cache → Run
save_now p o w held now c =
    save_record p o w held (record c { last_check = now; last_change = now })

-- An action that ends the work when it failed.
abbrev pub attempt : Project → Opts → Outside → Bool → (Bool → Action) → Bool → Run → Run
attempt p o w held a true r = a true ▸ r
attempt p o w held a false r = a false ▸ finish_locked p o w held 2

-- The set-up in `run_command_project`.
unfoldable pub run_command : Project → Opts → Outside → Bool → ℤ → Cache → Run
unfolding save_record finish_locked
run_command p o w held now c =
    let ran = attempt p o w held commanded w.command (save_now p o w held now c) in
    let written =
      if ltb 0 (length p.files) then attempt p o w held materialized w.materialize ran else ran in
    if c.known then written else attempt p o w held emptied w.reset written

-- `run_command_project`, and `finish_locked` on its result.
unfoldable pub run_command_project : Project → Opts → Outside → Bool → ℤ → Cache → Run
unfolding run_command save_record finish_locked
run_command_project p o w held now c =
    if o.check_only || o.dry_run
    then report due ▸ finish_locked p o w held 10
    else if o.adopt
    then save_now p o w held now c
    else if o.verbose
    then report running ▸ run_command p o w held now c
    else run_command p o w held now c

-- The record with the new mark.
abbrev pub marked : Bytes → Cache → Cache
marked mark c = record c { mark = str_copy (mark_max + 1) mark }

unfoldable pub run_install : Project → Opts → Outside → Bool → ℤ → Bytes → Cache → Run
unfolding save_record finish_locked
run_install p o w held now mark c =
    let done = save_now p o w held now (marked mark c) in
    if o.adopt
    then done
    else attempt p o w held emptied w.reset (attempt p o w held installed w.install done)

-- The lines on a change: the mark is the same, the project is unknown, or the mark differs.
abbrev pub change_report : Bool → Cache → Bytes → Report
change_report missing_bin c mark =
    if missing_bin && c.known && bytes_eq c.mark mark
    then missing
    else if not c.known
    then new mark
    else changed c.mark mark

-- The branch on a mark that `hm_check` gave.
unfoldable pub compare_mark : Project → Opts → Outside → Bool → ℤ → Cache → Bytes → Run
unfolding run_install save_record finish_locked bytes_eq str_copy
compare_mark p o w held now c mark =
    let missing_bin = p.bin_cached && not w.check_access in
    if missing_bin || not c.known || not (bytes_eq c.mark mark)
    then report (change_report missing_bin c mark)
      ▸ (if o.check_only || o.dry_run
          then finish_locked p o w held 10
          else run_install p o w held now mark c)
    else let kept = save_record p o w held (record c { last_check = now }) in
      if o.verbose then report (still mark) ▸ kept else kept

unfoldable pub run_url_project : Project → Opts → Outside → Bool → ℤ → Cache → Run
unfolding compare_mark finish_locked
run_url_project p o w held now c = elim w.mark [
  | none ↦ checked none ▸ finish_locked p o w held 2
  | some mark ↦ checked (some mark) ▸ compare_mark p o w held now c mark
]

unfoldable pub work : Project → Opts → Outside → Bool → ℤ → Cache → Run
unfolding run_command_project run_url_project
work p o w held now c = elim p.kind [
  | command_kind ↦ run_command_project p o w held now c
  | url_kind ↦ run_url_project p o w held now c
]

-- With the lock: the record is read again, and the decision is made again.
unfoldable pub recheck : Project → Opts → Outside → Cache → Run
unfolding load is_due work report_skip finish_locked
recheck p o w c =
    let r = load c w.second_record in
    let again = is_due p r.1 w.second_now o.force (pos 0) true w.second_access in
    if not (is_success r.0)
    then loaded false ▸ unlocked ▸ exits 1
    else loaded true
      ▸ (if again.0
          then work p o w true w.second_now r.1
          else report_skip p o again.1 (finish_locked p o w true 0))

-- The slow path; `c` and `now` are those of the first look.
unfoldable pub slow_path : Project → Opts → Outside → ℤ → Cache → Run
unfolding recheck work
slow_path p o w now c =
    if o.check_only || o.dry_run
    then work p o w false now c
    else if w.lock
    then locked true ▸ recheck p o w c
    else locked false ▸ exits 2

abbrev pub exec_check : Project → Opts → Bool
exec_check p o = p.bin_cached && not o.verbose && not o.check_only && not o.dry_run && not o.adopt

-- A cache hit; behind a failed hand-over `access` decides whether the slow path follows.
unfoldable pub cache_hit : Project → Opts → Outside → ℤ → ℤ → Cache → Run
unfolding slow_path report_skip finish
cache_hit p o w wait now c =
    if exec_check p o
    then exec_program p o w.first_exec (if w.exec_access then exits 127 else slow_path p o w now c)
    else report_skip p o wait (finish p o w 0)

-- main, from `hm_cache_load` on.
unfoldable pub run : Project → Opts → Outside → Cache → Run
unfolding load is_due cache_hit slow_path
run p o w c =
    let r = load c w.first_record in
    let decision = is_due p r.1 w.first_now o.force (pos 0) (not (exec_check p o)) w.first_access in
    if not (is_success r.0)
    then loaded false ▸ exits 1
    else loaded true
      ▸ (if decision.0
          then slow_path p o w w.first_now r.1
          else cache_hit p o w decision.1 w.first_now r.1)
