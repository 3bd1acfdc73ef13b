-- ===== src/Main/Run/Monitor/Ends.antt =====
-- The ends of main's work, and the records that it saves.
use hacman.Main.Run.Monitor.{
  Stage, looking, compared, pending, told, is_same, built, stored, broken, next, may_end, in_order,
  InOrder, is_quiet,
}
use hacman.Main.Run.{Outside, Run, finish, finish_locked, report_skip, save_record}
use hacman.Main.Options.{Opts}
use hacman.Cache.Record.{Cache}
use hacman.Project.{Project}
use hacman.Base.{◌&&◌, Bool, true, false, not, ◌≡◌, inl, inr, arith, ◌⊎◌, Bytes, bytes_eq, ℤ}

module _ (p : Project) (o : Opts) (w : Outside) (c0 : Cache) where
  -- The program in the cache is gone.
  abbrev pub missing_bin : Bool
  missing_bin = p.bin_cached && not w.check_access

  -- The ends behind a lock, or without one.
  finish_stored : InOrder o.adopt (is_same p w c0) (is_quiet o) false stored (finish p o w 0)
  unfolding finish InOrder in_order next may_end
  finish_stored = ground arith

  pub finish_looking : InOrder o.adopt (is_same p w c0) (is_quiet o) false looking (finish p o w 0)
  unfolding finish InOrder in_order next may_end
  finish_looking = ground arith

  finish_broken : InOrder o.adopt (is_same p w c0) (is_quiet o) false broken (finish p o w 2)
  unfolding finish InOrder in_order next may_end
  finish_broken = ground arith

  finish_locked_stored :
      (held : Bool)
      → InOrder o.adopt (is_same p w c0) (is_quiet o) held stored (finish_locked p o w held 0)
  unfolding finish_locked InOrder in_order next
  finish_locked_stored true = finish_stored
  finish_locked_stored false = finish_stored

  pub finish_locked_looking :
      InOrder o.adopt (is_same p w c0) (is_quiet o) true looking (finish_locked p o w true 0)
  unfolding finish_locked InOrder in_order next
  finish_locked_looking = finish_looking

  pub finish_locked_broken :
      (held : Bool)
      → InOrder o.adopt (is_same p w c0) (is_quiet o) held broken (finish_locked p o w held 2)
  unfolding finish_locked InOrder in_order next
  finish_locked_broken true = finish_broken
  finish_locked_broken false = finish_broken

  pub finish_locked_quiet :
      is_quiet o ≡ true
      → InOrder o.adopt (is_same p w c0) (is_quiet o) false pending (finish_locked p o w false 10)
  unfolding finish_locked finish InOrder in_order next may_end
  finish_locked_quiet h = ground arith

  pub report_skip_lem :
      (held : Bool) (wait : ℤ) (r : Run)
      → InOrder o.adopt (is_same p w c0) (is_quiet o) held looking r
      → InOrder o.adopt (is_same p w c0) (is_quiet o) held looking (report_skip p o wait r)
  unfolding report_skip InOrder in_order next told
  report_skip_lem held wait r h = ground (arith, h)

  -- A record is saved by an adoption, when nothing was to be done, or after the work.
  pub save_adopted :
      (s : Stage) (c : Cache)
      → (s ≡ looking) ⊎ (s ≡ pending)
      → o.adopt ≡ true
      → InOrder o.adopt (is_same p w c0) (is_quiet o) true s (save_record p o w true c)
  unfolding save_record InOrder in_order next
  save_adopted s c (inl e) a =
      rw e (ground (arith, a, finish_locked_stored true, finish_locked_broken true))
  save_adopted s c (inr e) a =
      rw e (ground (arith, a, finish_locked_stored true, finish_locked_broken true))

  pub save_same :
      (held : Bool) (c : Cache) (m : Bytes)
      → is_quiet o ≡ not held
      → is_same p w c0 held m ≡ true
      → bytes_eq c.mark m ≡ true
      → InOrder o.adopt (is_same p w c0) (is_quiet o) held (compared m) (save_record p o w held c)
  unfolding save_record InOrder in_order next
  save_same true c m h e f =
      ground (arith, e, f, finish_locked_stored true, finish_locked_broken true)
  save_same false c m h e f =
      ground (arith, h, e, f, finish_locked_stored false, finish_locked_broken false)

  pub save_built :
      (c : Cache)
      → InOrder o.adopt (is_same p w c0) (is_quiet o) true built (save_record p o w true c)
  unfolding save_record InOrder in_order next
  save_built c = ground (arith, finish_locked_stored true, finish_locked_broken true)
