-- ===== src/Schedule/RoundTrip.antt =====
-- A rendered schedule is read back as the same schedule.
use hacman.Cache.Record.{to_long}
use hacman.Project.{Project, SchedKind, always, every, never}
use hacman.Schedule.{
  units, pick_unit, sched_describe, unit_secs, interval_of, parse_interval, named_interval,
  parse_schedule,
}
use hacman.Util.Buffer.{append_str-eq-append}
use hacman.Util.Number.{
  decimal, decimal-IsDigit, decimal-ne-nil, length-decimal, IsDigit, parse_ulong,
  parse_ulong-decimal,
}
use hacman.Util.Text.{str_eq}
use hacman.Base.{
  Bool-cases, inl, inr, ℕ, zero, suc, ◌-◌, ◌*◌, ◌/◌, ◌%◌, ◌^◌, ◌≤◌, ◌<◌, false, some, List, [], ◌∷◌,
  ◌++◌, ◌≡◌, refl, ◌∙◌, ap, arith, ltb, ◌==◌, length, length-append, take-append_length,
  get_or-append_length, All, Bytes, codes, ℤ, pos,
}

-- Which unit is picked, and that the count times the unit is the interval.
record Picks (n v : ℕ) (unit : ℕ) : Type 0 where
  secs : ℕ
  of_unit : unit_secs unit ≡ some secs
  product : v * secs ≡ n

pick_from-Picks :
    (us : List (ℕ × ℕ)) (n : ℕ)
    → All (λ (e : ℕ × ℕ). (unit_secs e.1 ≡ some e.0) × (0 < e.0)) us
    → (v : ℕ) × (unit : ℕ) × (pick_unit us (pos n) ≡ (pos v, unit)) × Picks n v unit
unfolding pick_unit
pick_from-Picks [] n h =
    (n, b's', refl, record { secs = 1; of_unit = unfold unit_secs in refl; product = omega arith })
pick_from-Picks ((secs, unit) ∷ more) n ((e, s), h) = elim (Bool-cases (n % secs == 0)) [
  | inl d ↦ (n / secs, unit, rw d, record { secs = secs; of_unit = e; product = grind arith })
  | inr d ↦ rw d (pick_from-Picks more n h)
]

pick_unit-Picks :
    (n : ℕ) → (v : ℕ) × (unit : ℕ) × (pick_unit units (pos n) ≡ (pos v, unit)) × Picks n v unit
unfolding unit_secs
pick_unit-Picks n =
    pick_from-Picks units n
      ((refl, omega arith), ((refl, omega arith), ((refl, omega arith), ((refl, omega arith), tt))))

-- A text that begins with a digit is none of the named schedules.
str_eq_digit : (c l : ℕ) (s lit : Bytes) → IsDigit c → b'9' < l → str_eq (c ∷ s) (l ∷ lit) ≡ false
unfolding str_eq
str_eq_digit c l s lit d h = ground arith

named_interval_digit :
    (c : ℕ) (s : Bytes) → IsDigit c → named_interval (c ∷ s) ≡ parse_interval (c ∷ s)
unfolding named_interval
named_interval_digit c s d = rw (
  named_interval,
  str_eq_digit c b'h' s (codes "ourly") d (omega arith),
  str_eq_digit c b'd' s (codes "aily") d (omega arith),
  str_eq_digit c b'w' s (codes "eekly") d (omega arith),
  str_eq_digit c b'm' s (codes "onthly") d (omega arith),
)

parse_schedule_digit :
    (p : Project) (c : ℕ) (s : Bytes) {t : ℤ}
    → IsDigit c
    → parse_interval (c ∷ s) ≡ some t
    → parse_schedule p (c ∷ s) ≡ some (record p { sched_kind = every; sched_interval = t })
unfolding parse_schedule
parse_schedule_digit p c s d e = rw (
  parse_schedule,
  str_eq_digit c b'a' s (codes "lways") d (omega arith),
  str_eq_digit c b'n' s (codes "ever") d (omega arith),
  named_interval_digit c s d,
  e,
)

pub parse_interval-append :
    (s : Bytes) (unit mul n : ℕ)
    → 0 < length s
    → unit_secs unit ≡ some mul
    → parse_ulong s ≡ some n
    → 0 < n
    → parse_interval (s ++ unit ∷ []) ≡ some (interval_of n mul)
unfolding parse_interval
parse_interval-append s unit mul n h u e more =
    let len = length-append s (unit ∷ []) in
    let back : length (s ++ unit ∷ []) - 1 ≡ length s = omega arith in
    let two : ltb (length (s ++ unit ∷ [])) 2 ≡ false = ground arith in
    rw
      (
        parse_interval,
        two,
        back,
        get_or-append_length s [] unit 0,
        u,
        back,
        take-append_length s (unit ∷ []),
        e,
      )
      (ground arith)

pub interval_of-eq : (n mul : ℕ) → n * mul < 2 ^ 63 → interval_of n mul ≡ pos (n * mul)
unfolding interval_of to_long
interval_of-eq n mul h = ground arith

-- What reading a schedule into `q` changes, if the schedule is the one of `p`.
abbrev pub with_schedule : Project → Project → Project
with_schedule p q = elim p.sched_kind [
  | always ↦ record q { sched_kind = always }
  | never ↦ record q { sched_kind = never }
  | every ↦ record q { sched_kind = every; sched_interval = p.sched_interval }
]

describe_every :
    (p : Project) (n v unit : ℕ)
    → p.sched_kind ≡ every
    → p.sched_interval ≡ pos n
    → pick_unit units (pos n) ≡ (pos v, unit)
    → v < 2 ^ 63
    → sched_describe 32 p ≡ decimal v ++ unit ∷ []
unfolding sched_describe
describe_every p n v unit k t e h =
    let len = length-decimal v (omega arith) in
    rw (k, t, sched_describe, e, append_str-eq-append 32 [] (decimal v) (omega arith))
      (append_str-eq-append 32 (decimal v) (unit ∷ []) (omega arith))

-- A positive product bounds its factors.
factor_bounds : (v s n : ℕ) → v * s ≡ n → 0 < n → (v ≤ n) × (0 < v)
factor_bounds zero s n e h = absurd (omega arith)
factor_bounds (suc v) zero n e h = absurd (omega arith)
factor_bounds (suc v) (suc s) n e h = omega arith

parse_every :
    (q : Project) (d : Bytes) (n v unit : ℕ)
    → decimal v ≡ d
    → Picks n v unit
    → 0 < n
    → n < 2 ^ 63
    → parse_schedule q (d ++ unit ∷ [])
      ≡ some (record q { sched_kind = every; sched_interval = pos n })
parse_every q [] n v unit e k h b = absurd (decimal-ne-nil v e)
parse_every q (c ∷ d) n v unit e k h b =
    let prod : v * k.secs ≡ n = k.product in
    let (le, pv) = factor_bounds v k.secs n prod h in
    let digit : All IsDigit (c ∷ d) = rw e at (decimal-IsDigit v) in
    parse_schedule_digit q c (d ++ unit ∷ []) digit.0 (
      parse_interval-append (c ∷ d) unit k.secs v (omega arith) k.of_unit
        (rw e at (parse_ulong-decimal v (omega arith))) pv
      ∙ ap some (interval_of-eq v k.secs (omega arith) ∙ ap pos prod))

read_back :
    (p q : Project) (n : ℕ)
    → p.sched_kind ≡ every
    → p.sched_interval ≡ pos n
    → 0 < n
    → n < 2 ^ 63
    → parse_schedule q (sched_describe 32 p) ≡ some (with_schedule p q)
read_back p q n k t h b =
    let (v, unit, e, picks) = pick_unit-Picks n in
    let (le, pv) = factor_bounds v picks.secs n picks.product h in
    rw (describe_every p n v unit k t e (omega arith), k, t)
      (parse_every q (decimal v) n v unit refl picks h b)

read_always :
    (p q : Project)
    → p.sched_kind ≡ always
    → parse_schedule q (sched_describe 32 p) ≡ some (with_schedule p q)
unfolding sched_describe parse_schedule
read_always p q k = ground arith

read_never :
    (p q : Project)
    → p.sched_kind ≡ never
    → parse_schedule q (sched_describe 32 p) ≡ some (with_schedule p q)
unfolding sched_describe parse_schedule
read_never p q k = ground arith

-- The text that the plan shows for a schedule (a buffer of 32 bytes) is read back as the same
-- schedule, for every kind of schedule, with any interval of at least one second that a `long`
-- holds.
pub parse_schedule-sched_describe :
    (p q : Project) (n : ℕ)
    → p.sched_interval ≡ pos n
    → 0 < n
    → n < 2 ^ 63
    → parse_schedule q (sched_describe 32 p) ≡ some (with_schedule p q)
parse_schedule-sched_describe p q n t h b = by_kind p.sched_kind refl
  where
    by_kind :
        (k : SchedKind)
        → p.sched_kind ≡ k
        → parse_schedule q (sched_describe 32 p) ≡ some (with_schedule p q)
    by_kind always k = read_always p q k
    by_kind never k = read_never p q k
    by_kind every k = read_back p q n k t h b
