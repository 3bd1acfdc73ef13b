-- ===== src/Main/Run/Monitor/Whole.antt =====
-- main's work as a whole is in order.
use hacman.Main.Run.Monitor.{
  Stage, is_same, before, looking, unrun, next, may_end, in_order, InOrder, is_quiet, if_lem,
}
use hacman.Main.Run.Monitor.Steps.{work_lem}
use hacman.Main.Run.Monitor.Ends.{report_skip_lem, finish_locked_looking, finish_looking}
use hacman.Main.Run.{
  loaded, locked, Outside, Run, exits, ◌▸◌, is_success, exec_program, finish, finish_locked,
  recheck, slow_path, exec_check, cache_hit, run,
}
use hacman.Main.Due.{is_due}
use hacman.Main.Options.{Opts}
use hacman.Cache.Load.{load}
use hacman.Cache.Record.{Cache}
use hacman.Project.{Project}
use hacman.Base.{
  Bytes, ap, Bool, true, false, not, if◌then◌else◌, ◌≡◌, refl, inl, inr, arith, ◌⊎◌, ℤ, pos, Rc,
  success, failure,
}

-- Behind a first load.
loaded_lem :
    (adopt : Bool) (same : Bool → Bytes → Bool) (quiet : Bool) (rc : Rc) (r : Run)
    → InOrder adopt same quiet false looking r
    → InOrder adopt same quiet false looking
        (if not (is_success rc) then loaded false ▸ exits 1 else loaded true ▸ r)
unfolding InOrder in_order next may_end
loaded_lem adopt same quiet success r h = h
loaded_lem adopt same quiet failure r h = refl

module _ (p : Project) (o : Opts) (w : Outside) (c0 : Cache) where
  recheck_lem :
      (c : Cache)
      → is_quiet o ≡ false
      → c ≡ before w c0 false
      → InOrder o.adopt (is_same p w c0) (is_quiet o) true looking (recheck p o w c)
  unfolding recheck InOrder in_order next may_end
  recheck_lem c h e =
      let r = load c w.second_record in
      let again = is_due p r.1 w.second_now o.force (pos 0) true w.second_access in
      ground (
        arith,
        work_lem p o w c0 true w.second_now r.1 h
            (ap (λ (d : Cache). (load d w.second_record).1) e),
        report_skip_lem p o w c0 true again.1 (finish_locked p o w true 0)
            (finish_locked_looking p o w c0),
      )

  with_lock_lem :
      (s : Stage) (c : Cache)
      → (s ≡ looking) ⊎ (s ≡ unrun)
      → c ≡ before w c0 false
      → is_quiet o ≡ false
      → InOrder o.adopt
          (is_same p w c0)
          (is_quiet o)
          false
          s
          (if w.lock then locked true ▸ recheck p o w c else locked false ▸ exits 2)
  unfolding InOrder in_order next may_end
  with_lock_lem s c (inl e) f h = rw e (ground (arith, h, recheck_lem c h f))
  with_lock_lem s c (inr e) f h = rw e (ground (arith, h, recheck_lem c h f))

  slow_path_lem :
      (s : Stage) (now : ℤ) (c : Cache)
      → (s ≡ looking) ⊎ ((s ≡ unrun) × (is_quiet o ≡ false))
      → c ≡ before w c0 false
      → InOrder o.adopt (is_same p w c0) (is_quiet o) false s (slow_path p o w now c)
  unfolding slow_path
  slow_path_lem s now c (inl e) f =
      if_lem o.adopt (is_same p w c0) (is_quiet o) false s (is_quiet o) _ _
        (λ q. rw e (work_lem p o w c0 false now c q f)) (with_lock_lem s c (inl e) f)
  slow_path_lem s now c (inr (e, h)) f =
      if_lem o.adopt (is_same p w c0) (is_quiet o) false s (is_quiet o) _ _
        (λ q. absurd (ground (arith, q, h))) (with_lock_lem s c (inr e) f)

  exec_lem :
      (now : ℤ) (c : Cache)
      → is_quiet o ≡ false
      → c ≡ before w c0 false
      → InOrder o.adopt (is_same p w c0) (is_quiet o) false looking (
          exec_program p o w.first_exec
            (if w.exec_access then exits 127 else slow_path p o w now c))
  unfolding InOrder in_order next may_end
  exec_lem now c h f = ground (arith, h, slow_path_lem unrun now c (inr (refl, h)) f)

  cache_hit_lem :
      (wait now : ℤ) (c : Cache)
      → c ≡ before w c0 false
      → InOrder o.adopt (is_same p w c0) (is_quiet o) false looking (cache_hit p o w wait now c)
  unfolding cache_hit
  cache_hit_lem wait now c f =
      if_lem o.adopt (is_same p w c0) (is_quiet o) false looking (exec_check p o) _ _
        (λ e. exec_lem now c (ground (arith, e)) f)
        (λ _. report_skip_lem p o w c0 false wait (finish p o w 0) (finish_looking p o w c0))

-- From any cache and with any answers, main's log is in order: the set-up happens under the lock,
-- which is released before the end and before the hand-over; a record is saved behind a set-up that
-- succeeded, or by --adopt, or when the check gave the mark of the record that was loaded last and
-- the program is not missing. Each save is under the lock, but the last kind in a run that only
-- inspects, which takes none. The exit code is 0, 1, 2, 10 or 127 as the last stage allows, 10 only
-- when work was reported.
pub run-InOrder :
    (p : Project) (o : Opts) (w : Outside) (c : Cache)
    → InOrder o.adopt (is_same p w c) (is_quiet o) false looking (run p o w c)
unfolding run InOrder in_order next may_end
run-InOrder p o w c =
    let r = load c w.first_record in
    let decision = is_due p r.1 w.first_now o.force (pos 0) (not (exec_check p o)) w.first_access in
    loaded_lem o.adopt (is_same p w c) (is_quiet o) r.0
      (if decision.0
        then slow_path p o w w.first_now r.1
        else cache_hit p o w decision.1 w.first_now r.1)
      (if_lem o.adopt (is_same p w c) (is_quiet o) false looking decision.0 _ _
        (λ _. slow_path_lem p o w c looking w.first_now r.1 (inl refl) refl)
        (λ _. cache_hit_lem p o w c decision.1 w.first_now r.1 refl))
