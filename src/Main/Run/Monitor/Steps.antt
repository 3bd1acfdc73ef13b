-- ===== src/Main/Run/Monitor/Steps.antt =====
-- The parts of main's work, each in order.
use hacman.Main.Run.Monitor.Ends.{
  finish_locked_broken, finish_locked_quiet, save_adopted, save_same, save_built, missing_bin,
}
use hacman.Main.Run.Monitor.{
  Stage, looking, compared, pending, told, is_kept, is_same, before, working, built, broken, next,
  in_order, InOrder, is_quiet, if_lem,
}
use hacman.Main.Run.{
  Report, Action, report, emptied, materialized, commanded, checked, installed, Outside, Run, still,
  running, due, ◌▸◌, finish_locked, save_record, save_now, attempt, run_command,
  run_command_project, run_install, change_report, compare_mark, run_url_project, work,
}
use hacman.Main.Options.{Opts}
use hacman.Cache.Record.{Cache}
use hacman.Project.{Project, command_kind, url_kind}
use hacman.Base.{
  sym, ap, ◌∙◌, Bool, true, false, not, ◌||◌, none, some, if◌then◌else◌, ltb, length, ◌≡◌, refl,
  inl, inr, arith, ◌⊎◌, Bytes, bytes_eq, ℤ, Bool-cases,
}

-- An action that may fail, with the rest of the work behind its success.
attempt_lem :
    (p : Project) (o : Opts) (w : Outside) (adopt : Bool) (same : Bool → Bytes → Bool)
    (quiet : Bool) (s s' : Stage) (a : Bool → Action) (b : Bool) (r : Run)
    → next adopt same quiet true s (a true) ≡ some (true, s')
    → next adopt same quiet true s (a false) ≡ some (true, broken)
    → InOrder adopt same quiet true broken (finish_locked p o w true 2)
    → InOrder adopt same quiet true s' r
    → InOrder adopt same quiet true s (attempt p o w true a b r)
unfolding InOrder in_order
attempt_lem p o w adopt same quiet s s' a true r e e' f h = rw (e, in_order, next) h
attempt_lem p o w adopt same quiet s s' a false r e e' f h = rw (e', in_order, next) f

module _ (p : Project) (o : Opts) (w : Outside) (c0 : Cache) where
  -- The set-up of a command project, step by step.
  command_lem :
      (s : Stage) (now : ℤ) (c : Cache)
      → (s ≡ looking) ⊎ (s ≡ working)
      → InOrder o.adopt
          (is_same p w c0)
          (is_quiet o)
          true
          s
          (attempt p o w true commanded w.command (save_now p o w true now c))
  unfolding next
  command_lem s now c h =
      attempt_lem p o w o.adopt (is_same p w c0) (is_quiet o) s built commanded w.command _
        (ground (arith, h)) (ground (arith, h)) ((finish_locked_broken p o w c0) true)
        ((save_built p o w c0) _)

  materialize_lem :
      (s : Stage) (r : Run)
      → (s ≡ looking) ⊎ (s ≡ working)
      → InOrder o.adopt (is_same p w c0) (is_quiet o) true s r
      → InOrder o.adopt (is_same p w c0) (is_quiet o) true working r
      → InOrder o.adopt
          (is_same p w c0)
          (is_quiet o)
          true
          s
          (if ltb 0 (length p.files) then attempt p o w true materialized w.materialize r else r)
  unfolding next
  materialize_lem s r h e e' = elim (Bool-cases (ltb 0 (length p.files))) [
    | inl t ↦ rw t (
        attempt_lem p o w o.adopt (is_same p w c0) (is_quiet o) s working materialized w.materialize
          _ (ground (arith, h)) (ground (arith, h)) ((finish_locked_broken p o w c0) true) e')
    | inr t ↦ rw t e
  ]

  written_lem :
      (s : Stage) (now : ℤ) (c : Cache)
      → (s ≡ looking) ⊎ (s ≡ working)
      → InOrder o.adopt (is_same p w c0) (is_quiet o) true s (
          if ltb 0 (length p.files)
          then attempt p o w true materialized w.materialize
              (attempt p o w true commanded w.command (save_now p o w true now c))
          else attempt p o w true commanded w.command (save_now p o w true now c))
  written_lem s now c h =
      materialize_lem s _ h (command_lem s now c h) (command_lem working now c (inr refl))

  run_command_lem :
      (now : ℤ) (c : Cache)
      → InOrder o.adopt (is_same p w c0) (is_quiet o) true looking (run_command p o w true now c)
  unfolding run_command next
  run_command_lem now c =
      if_lem o.adopt (is_same p w c0) (is_quiet o) true looking c.known _ _
        (λ _. written_lem looking now c (inl refl))
        (λ _.
          attempt_lem p o w o.adopt (is_same p w c0) (is_quiet o) looking working emptied w.reset _
            refl refl ((finish_locked_broken p o w c0) true) (written_lem working now c (inr refl)))

  run_command_project_lem :
      (held : Bool) (now : ℤ) (c : Cache)
      → is_quiet o ≡ not held
      → InOrder o.adopt
          (is_same p w c0)
          (is_quiet o)
          held
          looking
          (run_command_project p o w held now c)
  unfolding run_command_project InOrder in_order next told
  run_command_project_lem true now c h =
      if_lem o.adopt (is_same p w c0) (is_quiet o) true looking (is_quiet o) _ _
        (λ e. absurd (ground (arith, e, h)))
        (λ _.
          if_lem o.adopt (is_same p w c0) (is_quiet o) true looking o.adopt _ _
            (λ a. (save_adopted p o w c0) looking _ (inl refl) a)
            (λ _.
              if_lem o.adopt (is_same p w c0) (is_quiet o) true looking o.verbose
                (report running ▸ run_command p o w true now c) (run_command p o w true now c)
                (λ _. run_command_lem now c) (λ _. run_command_lem now c)))
  run_command_project_lem false now c h =
      if_lem o.adopt (is_same p w c0) (is_quiet o) false looking (is_quiet o)
        (report due ▸ finish_locked p o w false 10) _ (λ e. (finish_locked_quiet p o w c0) e)
        (λ e. absurd (ground (arith, e, h)))

  run_install_lem :
      (now : ℤ) (m : Bytes) (c : Cache)
      → InOrder o.adopt (is_same p w c0) (is_quiet o) true pending (run_install p o w true now m c)
  unfolding run_install next
  run_install_lem now m c =
      if_lem o.adopt (is_same p w c0) (is_quiet o) true pending o.adopt _ _
        (λ a. (save_adopted p o w c0) pending _ (inr refl) a)
        (λ _.
          attempt_lem p o w o.adopt (is_same p w c0) (is_quiet o) pending working emptied w.reset _
            refl refl ((finish_locked_broken p o w c0) true)
            (attempt_lem p o w o.adopt (is_same p w c0) (is_quiet o) working built installed
              w.install _ refl refl ((finish_locked_broken p o w c0) true)
              ((save_built p o w c0) _)))

  changed_lem :
      (held : Bool) (now : ℤ) (c : Cache) (m : Bytes)
      → is_quiet o ≡ not held
      → InOrder o.adopt
          (is_same p w c0)
          (is_quiet o)
          held
          pending
          (if is_quiet o then finish_locked p o w held 10 else run_install p o w held now m c)
  changed_lem true now c m h =
      if_lem o.adopt (is_same p w c0) (is_quiet o) true pending (is_quiet o) _ _
        (λ e. absurd (ground (arith, e, h))) (λ _. run_install_lem now m c)
  changed_lem false now c m h =
      if_lem o.adopt (is_same p w c0) (is_quiet o) false pending (is_quiet o) _ _
        (finish_locked_quiet p o w c0) (λ e. absurd (ground (arith, e, h)))

  -- The line on a change says that work is to be done.
  told-change_report :
      (gone : Bool) (c : Cache) (m n : Bytes)
      → told (compared n) (change_report gone c m) ≡ some pending
  unfolding told
  told-change_report gone c m n = ground arith

  next-told :
      (adopt : Bool) (same : Bool → Bytes → Bool) (quiet held : Bool) (s t : Stage) (l : Report)
      → told s l ≡ some t
      → next adopt same quiet held s (report l) ≡ some (held, t)
  unfolding next
  next-told adopt same quiet held s t l e = rw (e, next) refl

  told_lem :
      (held : Bool) (s t : Stage) (l : Report) (r : Run)
      → told s l ≡ some t
      → InOrder o.adopt (is_same p w c0) (is_quiet o) held t r
      → InOrder o.adopt (is_same p w c0) (is_quiet o) held s (report l ▸ r)
  unfolding InOrder in_order
  told_lem held s t l r e h =
      let step = next-told o.adopt (is_same p w c0) (is_quiet o) held s t l e in
      rw (step, in_order) h

  -- What the tests of `compare_mark` say of the record.
  kept_lem :
      (held : Bool) (c : Cache) (m : Bytes)
      → c ≡ before w c0 held
      → ((missing_bin p o w c0) || not c.known || not (bytes_eq c.mark m)) ≡ false
      → (is_same p w c0 held m ≡ true) × (bytes_eq c.mark m ≡ true)
  unfolding is_kept is_same
  kept_lem held c m e h =
      let kept : is_kept p w m c ≡ true = ground (arith, h) in
      (ap (is_kept p w m) (sym e) ∙ kept, ground (arith, h))

  compare_mark_lem :
      (held : Bool) (now : ℤ) (c : Cache) (m : Bytes)
      → is_quiet o ≡ not held
      → c ≡ before w c0 held
      → InOrder o.adopt
          (is_same p w c0)
          (is_quiet o)
          held
          (compared m)
          (compare_mark p o w held now c m)
  unfolding compare_mark InOrder in_order next told
  compare_mark_lem held now c m h e =
      let c' : Cache = record c { last_check = now } in
      let kept : Run = save_record p o w held c' in
      let work : Run =
        if is_quiet o then finish_locked p o w held 10 else run_install p o w held now m c in
      if_lem o.adopt (is_same p w c0) (is_quiet o) held (compared m)
        ((missing_bin p o w c0) || not c.known || not (bytes_eq c.mark m))
        (report (change_report (missing_bin p o w c0) c m) ▸ work)
        (if o.verbose then report (still m) ▸ kept else kept)
        (λ _.
          told_lem held (compared m) pending (change_report (missing_bin p o w c0) c m) work
            (told-change_report (missing_bin p o w c0) c m m) (changed_lem held now c m h))
        (λ same.
          let (old, own) = kept_lem held c m e same in
          let save = (save_same p o w c0) held c' m h old own in
          if_lem o.adopt (is_same p w c0) (is_quiet o) held (compared m) o.verbose
            (report (still m) ▸ kept) kept (λ _. save) (λ _. save))

  run_url_project_lem :
      (held : Bool) (now : ℤ) (c : Cache)
      → is_quiet o ≡ not held
      → c ≡ before w c0 held
      → InOrder o.adopt
          (is_same p w c0)
          (is_quiet o)
          held
          looking
          (run_url_project p o w held now c)
  unfolding run_url_project InOrder in_order next
  run_url_project_lem held now c h e =
      elim w.mark
        as (λ x. InOrder o.adopt (is_same p w c0) (is_quiet o) held looking (elim x [
          | none ↦ checked none ▸ finish_locked p o w held 2
          | some mark ↦ checked (some mark) ▸ compare_mark p o w held now c mark
        ])) [
          | none ↦ (finish_locked_broken p o w c0) held
          | some m ↦ compare_mark_lem held now c m h e
        ]

  pub work_lem :
      (held : Bool) (now : ℤ) (c : Cache)
      → is_quiet o ≡ not held
      → c ≡ before w c0 held
      → InOrder o.adopt (is_same p w c0) (is_quiet o) held looking (work p o w held now c)
  unfolding work
  work_lem held now c h e =
      elim p.kind
        as (λ x. InOrder o.adopt (is_same p w c0) (is_quiet o) held looking (elim x [
          | command_kind ↦ run_command_project p o w held now c
          | url_kind ↦ run_url_project p o w held now c
        ])) [
          | url_kind ↦ run_url_project_lem held now c h e
          | command_kind ↦ run_command_project_lem held now c h
        ]
