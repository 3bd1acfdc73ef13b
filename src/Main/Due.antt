-- ===== src/Main/Due.antt =====
-- src/main.c, `is_due`: the scheduling decision. `executable` is the answer of `access(p->bin_path,
-- X_OK)`; times are C `long`s that do not overflow.
pub mod Fresh
use hacman.Cache.Record.{Cache}
use hacman.Project.{Project, SchedKind, always, every, never}
use hacman.Base.{
  ℕ, suc, ◌+◌, ◌≤◌, ◌<◌, Bool, true, false, not, ◌&&◌, ◌||◌, List, [], ◌∷◌, ◌≡◌, ◌≢◌, ◌↔◌, ◌⊎◌, inl,
  inr, refl, arith, ltb, leb, ◌==◌, if◌then◌else◌, length, ℤ, pos, negsuc, pos_part, neg_part,
  sub_ℕ, ◌-ℤ◌, ◌≤ℤ◌, ◌<ℤ◌, ltb_ℤ, leb_ℤ,
}

abbrev pub is_never : SchedKind → Bool
is_never never = true
is_never _ = false

abbrev pub is_zero : ℤ → Bool
is_zero (pos n) = n == 0
is_zero (negsuc n) = false

-- The tests on the interval.
unfoldable pub interval_due : ℤ → ℤ → ℤ → ℤ → Bool × ℤ
interval_due interval last_check now wait =
    if is_zero last_check
    then (true, wait)
    else if ltb_ℤ (now -ℤ last_check) (pos 0)
    then (true, wait)
    else if leb_ℤ interval (now -ℤ last_check)
    then (true, wait)
    else (false, interval -ℤ (now -ℤ last_check))

-- The `switch` on the schedule.
unfoldable pub schedule_due : Project → Cache → ℤ → ℤ → Bool × ℤ
unfolding interval_due
schedule_due p c now wait = elim p.sched_kind [
  | always ↦ (true, wait)
  | never ↦ (false, negsuc 0)
  | every ↦ interval_due p.sched_interval c.last_check now wait
]

-- The result, and `*wait_out`.
unfoldable pub is_due : Project → Cache → ℤ → Bool → ℤ → Bool → Bool → Bool × ℤ
unfolding schedule_due
is_due p c now force wait check_bin executable =
    if force
    then (true, wait)
    else if check_bin && p.bin_cached && not executable
    then (true, wait)
    else if ltb 0 (length p.files) && not c.known
    then (true, wait)
    else if ltb 0 (length p.files) && (not p.schedule_explicit || is_never p.sched_kind)
    then (false, wait)
    else schedule_due p c now wait

-- The last check lies in the past, by less than the interval.
pub record IsRecent (interval last_check now : ℤ) : Type 0 where
  pub checked : last_check ≢ pos 0
  pub past : last_check ≤ℤ now
  pub soon : now -ℤ last_check <ℤ interval

-- Why there is nothing to do.
pub data IsFresh (p : Project) (c : Cache) (now : ℤ) : Type 0 where
  built :
      0 < length p.files
      → c.known ≡ true
      → (p.schedule_explicit ≡ false) ⊎ (p.sched_kind ≡ never)
      → IsFresh p c now
  unscheduled : length p.files ≡ 0 → p.sched_kind ≡ never → IsFresh p c now
  recent :
      (length p.files ≡ 0) ⊎ ((c.known ≡ true) × (p.schedule_explicit ≡ true))
      → p.sched_kind ≡ every
      → IsRecent p.sched_interval c.last_check now
      → IsFresh p c now
