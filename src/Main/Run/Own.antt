-- ===== src/Main/Run/Own.antt =====
-- What main saves and what it hands over to belong to the project.
use hacman.Main.Run.{
  Report, Action, report, loaded, locked, unlocked, emptied, materialized, commanded, checked,
  installed, saved, executed, still, due, running, skip_unchanged, skip_never, skip_for, Outside,
  Run, exits, ◌▸◌, is_success, program_argv, exec_program, finish, finish_locked, report_skip,
  save_record, save_now, attempt, run_command, run_command_project, marked, run_install,
  change_report, compare_mark, run_url_project, work, recheck, slow_path, exec_check, cache_hit,
  run,
}
use hacman.Cache.Load.Same.{IsSame, load-IsSame}
use hacman.Main.Due.{is_due, is_never}
use hacman.Main.Options.{Opts}
use hacman.Cache.Load.{load}
use hacman.Cache.Record.{Cache}
use hacman.Project.{Project, command_kind, url_kind}
use hacman.Base.{
  ℕ, ltb, ltb_ℤ, length, ◌||◌, bytes_eq, Bool, true, false, not, ◌&&◌, none, some, if◌then◌else◌,
  ◌≡◌, ◌⊎◌, refl, ◌∙◌, inl, inr, All, Bytes, List, [], ◌∷◌, drop, get_or, ℤ, pos,
}

-- The arguments of a program at `path` that was asked for as `given`, with FILE as first word: the
-- words behind FILE are handed on, and the path stands in FILE's place.
abbrev pub IsArgv : Bytes → List Bytes → List Bytes → Type 0
IsArgv path given argv =
    (drop 1 argv ≡ drop 1 given)
    × (length argv ≡ length given)
    × ((argv ≡ []) ⊎ (get_or argv 0 [] ≡ path))

program_argv-IsArgv : (p : Project) (o : Opts) → IsArgv p.bin_path o.prog_argv (program_argv p o)
program_argv-IsArgv p o =
    elim o.prog_argv
      as (λ given.
        IsArgv p.bin_path given (elim given [ [] ↦ [] | f ∷ args ↦ p.bin_path ∷ args ])) [
          | [] ↦ (refl, refl, inl refl)
          | f ∷ args ↦ (refl, refl, inr refl)
        ]

-- A record that is saved is this project's, with the time of one of the two decisions; a program
-- that is executed is this project's, with the arguments behind FILE.
unfoldable pub IsOwn : Project → Opts → Outside → Cache → Action → Type 0
IsOwn p o w c (saved d b) =
    IsSame c d × ((d.last_check ≡ w.first_now) ⊎ (d.last_check ≡ w.second_now))
IsOwn p o w c (executed path argv b) = (path ≡ p.bin_path) × IsArgv p.bin_path o.prog_argv argv
IsOwn p o w c _ = Unit

module _ (p : Project) (o : Opts) (w : Outside) (c : Cache) where
  Own : Run → Type 0
  Own r = All (IsOwn p o w c) r.trace

  -- The time of a decision.
  IsTime : ℤ → Type 0
  IsTime now = (now ≡ w.first_now) ⊎ (now ≡ w.second_now)

  exits-Own : (code : ℕ) → Own (exits code)
  unfolding Own
  exits-Own code = tt

  if_lem : (b : Bool) (x y : Run) → Own x → Own y → Own (if b then x else y)
  if_lem true x y h k = h
  if_lem false x y h k = k

  act : (a : Action) (r : Run) → IsOwn p o w c a → Own r → Own (a ▸ r)
  unfolding Own
  act a r own h = (own, h)

  line : (l : Report) (r : Run) → Own r → Own (report l ▸ r)
  unfolding IsOwn
  line l r h = act (report l) r tt h

  exec_program-Own : (b : Bool) (r : Run) → Own r → Own (exec_program p o b r)
  unfolding Own IsOwn
  exec_program-Own true r h = ((refl, program_argv-IsArgv p o), tt)
  exec_program-Own false r h = ((refl, program_argv-IsArgv p o), h)

  finish-Own : (rc : ℕ) → Own (finish p o w rc)
  unfolding finish
  finish-Own rc =
      if_lem _ _ _ (exits-Own rc)
        (if_lem _ _ _ (exits-Own rc) (exec_program-Own w.last_exec (exits 127) (exits-Own 127)))

  finish_locked-Own : (held : Bool) (rc : ℕ) → Own (finish_locked p o w held rc)
  unfolding finish_locked IsOwn
  finish_locked-Own true rc = act unlocked _ tt (finish-Own rc)
  finish_locked-Own false rc = finish-Own rc

  report_skip-Own : (wait : ℤ) (r : Run) → Own r → Own (report_skip p o wait r)
  unfolding report_skip
  report_skip-Own wait r h = if_lem (not o.verbose) _ _ h (
      if_lem (ltb 0 (length p.files) && (not p.schedule_explicit || is_never p.sched_kind)) _ _
        (line skip_unchanged r h)
        (if_lem (ltb_ℤ wait (pos 0)) _ _ (line skip_never r h) (line (skip_for wait) r h)))

  module _ (held : Bool) (now : ℤ) (t : IsTime now) where
    save_record-Own : (d : Cache) → IsSame c d → d.last_check ≡ now → Own (save_record p o w held d)
    unfolding save_record IsOwn IsTime
    save_record-Own d h e = act (saved d w.save) _ (h, rw e t) (finish_locked-Own held _)

    save_now-Own : (d : Cache) → IsSame c d → Own (save_now p o w held now d)
    save_now-Own d h =
        save_record-Own (record d { last_check = now; last_change = now })
          (record { identity = h.identity; path = h.path; workdir = h.workdir }) refl

    attempt-Own :
        (a : Bool → Action) (b : Bool) (r : Run)
        → ((x : Bool) → IsOwn p o w c (a x))
        → Own r
        → Own (attempt p o w held a b r)
    attempt-Own a true r own h = act (a true) r (own true) h
    attempt-Own a false r own h = act (a false) _ (own false) (finish_locked-Own held 2)

    run_command-Own : (d : Cache) → IsSame c d → Own (run_command p o w held now d)
    unfolding run_command IsOwn
    run_command-Own d h =
        let run1 : Run = attempt p o w held commanded w.command (save_now p o w held now d) in
        let ran : Own run1 = attempt-Own commanded w.command _ (λ x. tt) (save_now-Own d h) in
        let run2 : Run =
          if ltb 0 (length p.files)
          then attempt p o w held materialized w.materialize run1
          else run1 in
        let files : Own run2 =
          if_lem _ _ _ (attempt-Own materialized w.materialize run1 (λ x. tt) ran) ran in
        if_lem d.known run2 (attempt p o w held emptied w.reset run2) files
          (attempt-Own emptied w.reset run2 (λ x. tt) files)

    run_command_project-Own : (d : Cache) → IsSame c d → Own (run_command_project p o w held now d)
    unfolding run_command_project
    run_command_project-Own d h =
        if_lem (o.check_only || o.dry_run) _ _ (line due _ (finish_locked-Own held 10)) (
          if_lem o.adopt _ _ (save_now-Own d h)
            (if_lem o.verbose _ _ (line running _ (run_command-Own d h)) (run_command-Own d h)))

    run_install-Own : (m : Bytes) (d : Cache) → IsSame c d → Own (run_install p o w held now m d)
    unfolding run_install IsOwn
    run_install-Own m d h =
        let done =
          save_now-Own (marked m d)
            (record { identity = h.identity; path = h.path; workdir = h.workdir }) in
        if_lem _ _ _ done (
          attempt-Own emptied w.reset _ (λ x. tt)
            (attempt-Own installed w.install (save_now p o w held now (marked m d)) (λ x. tt) done))

    compare_mark-Own : (d : Cache) (m : Bytes) → IsSame c d → Own (compare_mark p o w held now d m)
    unfolding compare_mark
    compare_mark-Own d m h =
        let d' : Cache = record d { last_check = now } in
        let kept : Own (save_record p o w held d') =
          save_record-Own d' (record { identity = h.identity; path = h.path; workdir = h.workdir })
            refl in
        let busy : Run =
          if o.check_only || o.dry_run
          then finish_locked p o w held 10
          else run_install p o w held now m d in
        let worked : Own busy = if_lem _ _ _ (finish_locked-Own held 10) (run_install-Own m d h) in
        let missing : Bool = p.bin_cached && not w.check_access in
        if_lem (missing || not d.known || not (bytes_eq d.mark m))
          (report (change_report missing d m) ▸ busy)
          (if o.verbose
            then report (still m) ▸ save_record p o w held d'
            else save_record p o w held d')
          (line (change_report missing d m) busy worked)
          (if_lem o.verbose _ _ (line (still m) (save_record p o w held d') kept) kept)

    run_url_project-Own : (d : Cache) → IsSame c d → Own (run_url_project p o w held now d)
    unfolding run_url_project IsOwn
    run_url_project-Own d h =
        elim w.mark
          as (λ x. Own (elim x [
            | none ↦ checked none ▸ finish_locked p o w held 2
            | some mark ↦ checked (some mark) ▸ compare_mark p o w held now d mark
          ])) [
            | none ↦ act (checked none) _ tt (finish_locked-Own held 2)
            | some m ↦ act (checked (some m)) _ tt (compare_mark-Own d m h)
          ]

    work-Own : (d : Cache) → IsSame c d → Own (work p o w held now d)
    unfolding work
    work-Own d h =
        elim p.kind
          as (λ x. Own (elim x [
            | command_kind ↦ run_command_project p o w held now d
            | url_kind ↦ run_url_project p o w held now d
          ])) [ url_kind ↦ run_url_project-Own d h | command_kind ↦ run_command_project-Own d h ]

  recheck-Own : (d : Cache) → IsSame c d → Own (recheck p o w d)
  unfolding recheck IsOwn IsTime
  recheck-Own d h =
      let r = load d w.second_record in
      let k = load-IsSame d w.second_record in
      let again = is_due p r.1 w.second_now o.force (pos 0) true w.second_access in
      let same : IsSame c r.1 = record {
        identity = k.identity ∙ h.identity;
        path = k.path ∙ h.path;
        workdir = k.workdir ∙ h.workdir;
      } in
      let skipped = report_skip p o again.1 (finish_locked p o w true 0) in
      let worked = work p o w true w.second_now r.1 in
      let decided : Own (if again.0 then worked else skipped) =
        if_lem again.0 worked skipped (work-Own true w.second_now (inr refl) r.1 same)
          (report_skip-Own again.1 _ (finish_locked-Own true 0)) in
      if_lem (not (is_success r.0)) (loaded false ▸ unlocked ▸ exits 1)
        (loaded true ▸ (if again.0 then worked else skipped))
        (act (loaded false) (unlocked ▸ exits 1) tt (act unlocked (exits 1) tt (exits-Own 1)))
        (act (loaded true) (if again.0 then worked else skipped) tt decided)

  slow_path-Own : (d : Cache) → IsSame c d → Own (slow_path p o w w.first_now d)
  unfolding slow_path IsOwn IsTime
  slow_path-Own d h =
      if_lem (o.check_only || o.dry_run) _ _ (work-Own false w.first_now (inl refl) d h) (
        if_lem w.lock (locked true ▸ recheck p o w d) (locked false ▸ exits 2)
          (act (locked true) _ tt (recheck-Own d h)) (act (locked false) _ tt (exits-Own 2)))

  cache_hit-Own : (wait : ℤ) (d : Cache) → IsSame c d → Own (cache_hit p o w wait w.first_now d)
  unfolding cache_hit
  cache_hit-Own wait d h =
      let back : Run = if w.exec_access then exits 127 else slow_path p o w w.first_now d in
      let again : Own back = if_lem w.exec_access _ _ (exits-Own 127) (slow_path-Own d h) in
      if_lem (exec_check p o) (exec_program p o w.first_exec back)
        (report_skip p o wait (finish p o w 0)) (exec_program-Own w.first_exec back again)
        (report_skip-Own wait (finish p o w 0) (finish-Own 0))

-- Whatever the answers are, each record that main saves keeps the identity and the places of the
-- cache that it was given and has the time of one of the two decisions, and each program that it
-- executes is the project's, called by its path with the words that stand behind FILE, unchanged and
-- in their order.
pub run-IsOwn :
    (p : Project) (o : Opts) (w : Outside) (c : Cache) → All (IsOwn p o w c) (run p o w c).trace
unfolding run Own IsOwn
run-IsOwn p o w c =
    let r = load c w.first_record in
    let decision = is_due p r.1 w.first_now o.force (pos 0) (not (exec_check p o)) w.first_access in
    let same = load-IsSame c w.first_record in
    let slow = slow_path p o w w.first_now r.1 in
    let hit = cache_hit p o w decision.1 w.first_now r.1 in
    let decided : Own p o w c (if decision.0 then slow else hit) =
      if_lem p o w c decision.0 slow hit (slow_path-Own p o w c r.1 same)
        (cache_hit-Own p o w c decision.1 r.1 same) in
    if_lem p o w c (not (is_success r.0)) (loaded false ▸ exits 1)
      (loaded true ▸ (if decision.0 then slow else hit)) (tt, tt) (tt, decided)
