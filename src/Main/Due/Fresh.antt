-- ===== src/Main/Due/Fresh.antt =====
-- The scheduling decision against its description.
use hacman.Cache.Record.{Cache}
use hacman.Main.Due.{
  is_never, is_zero, interval_due, schedule_due, is_due, IsRecent, IsFresh, built, unscheduled,
  recent,
}
use hacman.Project.{Project, SchedKind, always, every, never}
use hacman.Base.{
  ◌<◌, Bool, true, false, not, ◌&&◌, ◌≡◌, ◌↔◌, ◌⊎◌, inl, inr, arith, length, ℤ, pos, negsuc, ◌-ℤ◌,
}

is_zero_iff : (a : ℤ) → (is_zero a ≡ true) ↔ (a ≡ pos 0)
is_zero_iff (pos n) = ground arith
is_zero_iff (negsuc n) = ground arith

interval_due-IsRecent :
    (interval last_check now wait : ℤ)
    → (interval_due interval last_check now wait).0 ≡ false
    → IsRecent interval last_check now
unfolding interval_due
interval_due-IsRecent interval last_check now wait h = ground (arith, is_zero_iff last_check)

IsRecent-interval_due :
    (interval last_check now wait : ℤ)
    → IsRecent interval last_check now
    → interval_due interval last_check now wait ≡ (false, interval -ℤ (now -ℤ last_check))
unfolding interval_due
IsRecent-interval_due interval last_check now wait h = ground (arith, is_zero_iff last_check)

is_never_iff : (k : SchedKind) → (is_never k ≡ true) ↔ (k ≡ never)
is_never_iff always = ground arith
is_never_iff every = ground arith
is_never_iff never = ground arith

schedule_due-cases :
    (p : Project) (c : Cache) (now wait : ℤ)
    → (schedule_due p c now wait).0 ≡ false
    → (p.sched_kind ≡ never) ⊎ ((p.sched_kind ≡ every) × IsRecent p.sched_interval c.last_check now)
unfolding schedule_due
schedule_due-cases p c now wait h =
    ground (arith, interval_due-IsRecent p.sched_interval c.last_check now wait)

-- The tests in front of the schedule.
abbrev IsBuilt : Project → Cache → Type 0
IsBuilt p c =
    (0 < length p.files)
    × (c.known ≡ true)
    × ((p.schedule_explicit ≡ false) ⊎ (p.sched_kind ≡ never))

abbrev IsScheduled : Project → Cache → Type 0
IsScheduled p c = (length p.files ≡ 0) ⊎ ((c.known ≡ true) × (p.schedule_explicit ≡ true))

is_due_tests :
    (p : Project) (c : Cache) (now : ℤ) (force : Bool) (wait : ℤ) (check_bin executable : Bool)
    → (is_due p c now force wait check_bin executable).0 ≡ false
    → (force ≡ false)
      × ((check_bin && p.bin_cached && not executable) ≡ false)
      × (IsBuilt p c
          ⊎ (IsScheduled p c
              × (is_never p.sched_kind ≡ true → length p.files ≡ 0)
              × ((schedule_due p c now wait).0 ≡ false)))
unfolding is_due
is_due_tests p c now force wait check_bin executable h = ground (arith, is_never_iff p.sched_kind)

IsFresh-of_cases :
    (p : Project) (c : Cache) (now wait : ℤ)
    → IsBuilt p c
      ⊎ (IsScheduled p c
          × (is_never p.sched_kind ≡ true → length p.files ≡ 0)
          × ((schedule_due p c now wait).0 ≡ false))
    → IsFresh p c now
IsFresh-of_cases p c now wait (inl (f, k, e)) = built f k e
IsFresh-of_cases p c now wait (inr (s, n, h)) = elim (schedule_due-cases p c now wait h) [
  | inl e ↦ unscheduled (n ((is_never_iff p.sched_kind).1 e)) e
  | inr (e, r) ↦ recent s e r
]

module _ (p : Project) (c : Cache) (now : ℤ) (force : Bool) (wait : ℤ) (check_bin executable : Bool)
    (unforced : force ≡ false)
    (present : (check_bin && p.bin_cached && not executable) ≡ false) where
  is_due-built : IsBuilt p c → (is_due p c now force wait check_bin executable).0 ≡ false
  unfolding is_due
  is_due-built h = ground (arith, is_never_iff p.sched_kind)

  is_due-unscheduled :
      length p.files ≡ 0
      → p.sched_kind ≡ never
      → (is_due p c now force wait check_bin executable).0 ≡ false
  unfolding is_due schedule_due
  is_due-unscheduled z n = ground arith

  is_due-recent :
      IsScheduled p c
      → p.sched_kind ≡ every
      → IsRecent p.sched_interval c.last_check now
      → (is_due p c now force wait check_bin executable).0 ≡ false
  unfolding is_due schedule_due
  is_due-recent s k r =
      ground (arith, IsRecent-interval_due p.sched_interval c.last_check now wait r)

  IsFresh-is_due : IsFresh p c now → (is_due p c now force wait check_bin executable).0 ≡ false
  IsFresh-is_due (built f k e) = is_due-built (f, k, e)
  IsFresh-is_due (unscheduled z n) = is_due-unscheduled z n
  IsFresh-is_due (recent s k r) = is_due-recent s k r

-- A project is left alone exactly when `--force` is not given, its cached program is not found
-- missing, and it is fresh: its embedded inputs are built and have no schedule of their own, or its
-- schedule is `never`, or its last check lies less than its interval in the past.
pub is_due-false_iff :
    (p : Project) (c : Cache) (now : ℤ) (force : Bool) (wait : ℤ) (check_bin executable : Bool)
    → ((is_due p c now force wait check_bin executable).0 ≡ false) ↔ (
        (force ≡ false) × ((check_bin && p.bin_cached && not executable) ≡ false) × IsFresh p c now)
is_due-false_iff p c now force wait check_bin executable = (
  (λ h.
      let (f, b, cases) = is_due_tests p c now force wait check_bin executable h in
      (f, b, IsFresh-of_cases p c now wait cases)),
  (λ t. IsFresh-is_due p c now force wait check_bin executable t.0 t.1 t.2),
)
