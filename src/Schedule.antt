-- ===== src/Schedule.antt =====
-- src/config.c: the schedule of a project, read from its config spelling and rendered back.
pub mod RoundTrip
use hacman.Cache.Record.{to_long}
use hacman.Project.{Project, SchedKind, always, every, never}
use hacman.Util.Buffer.{append_str}
use hacman.Util.Number.{decimal, parse_ulong, ulong_mod}
use hacman.Util.Text.{str_eq, str_copy}
use hacman.Base.{
  ℕ, suc, ◌+◌, ◌-◌, ◌*◌, ◌/◌, ◌%◌, Bool, true, false, Option, none, some, List, [], ◌∷◌, ltb, ◌==◌,
  if◌then◌else◌, length, take, get_or, Bytes, codes, ℤ, pos, negsuc,
}

-- The table of `hm_sched_describe`: seconds and the unit's letter.
abbrev pub units : List (ℕ × ℕ)
units = (604800, b'w') ∷ (86400, b'd') ∷ (3600, b'h') ∷ (60, b'm') ∷ []

-- `v % secs == 0` and `v / secs` on `long`.
abbrev divides : ℕ → ℤ → Bool
divides secs (pos n) = n % secs == 0
divides secs (negsuc k) = (k + 1) % secs == 0

abbrev divided : ℤ → ℕ → ℤ
divided (pos n) secs = pos (n / secs)
divided (negsuc k) secs = negsuc ((k + 1) / secs - 1)

-- The loop over the table stops at the first unit that divides the interval.
unfoldable pub pick_unit : List (ℕ × ℕ) → ℤ → ℤ × ℕ
pick_unit [] v = (v, b's')
pick_unit ((secs, unit) ∷ more) v =
    if divides secs v then (divided v secs, unit) else pick_unit more v

-- The digit loop on a `long`: a negative number leaves it after one round.
abbrev long_digits : ℤ → Bytes
long_digits (pos n) = decimal n
long_digits (negsuc k) = (b'0' - (k + 1) % 10) ∷ []

-- `hm_sched_describe`
unfoldable pub sched_describe : ℕ → Project → Bytes
unfolding str_copy pick_unit append_str
sched_describe size p = elim p.sched_kind [
  | always ↦ str_copy size (codes "always")
  | never ↦ str_copy size (codes "never")
  | every ↦
      let (v, unit) = pick_unit units p.sched_interval in
      append_str size (append_str size [] (long_digits v)) (unit ∷ [])
]

-- The `switch` on the last byte.
unfoldable pub unit_secs : ℕ → Option ℕ
unit_secs c =
    if c == b's'
    then some 1
    else if c == b'm'
    then some 60
    else if c == b'h'
    then some 3600
    else if c == b'd'
    then some 86400
    else if c == b'w'
    then some 604800
    else none

-- `(long)n * mul`. Where the product does not fit a `long`, C leaves it undefined; it wraps here.
unfoldable pub interval_of : ℕ → ℕ → ℤ
unfolding to_long
interval_of n mul = to_long ((n * mul) % ulong_mod)

-- `<n>[smhdw]`
unfoldable pub parse_interval : Bytes → Option ℤ
unfolding unit_secs interval_of parse_ulong
parse_interval v = if ltb (length v) 2 then none else elim (unit_secs (get_or v (length v - 1) 0)) [
  | none ↦ none
  | some mul ↦ elim (parse_ulong (take (length v - 1) v)) [
    | none ↦ none
    | some n ↦ if n == 0 then none else some (interval_of n mul)
  ]
]

-- The interval of a schedule that is neither `always` nor `never`.
unfoldable pub named_interval : Bytes → Option ℤ
unfolding str_eq parse_interval
named_interval v =
    if str_eq v (codes "hourly")
    then some (pos 3600)
    else if str_eq v (codes "daily")
    then some (pos 86400)
    else if str_eq v (codes "weekly")
    then some (pos 604800)
    else if str_eq v (codes "monthly")
    then some (pos 2592000)
    else parse_interval v

-- `parse_schedule`; `none` is -1, after which the caller drops the project.
unfoldable pub parse_schedule : Project → Bytes → Option Project
unfolding str_eq named_interval
parse_schedule p v =
    if str_eq v (codes "always")
    then some (record p { sched_kind = always })
    else if str_eq v (codes "never")
    then some (record p { sched_kind = never })
    else elim (named_interval v) [
      | none ↦ none
      | some t ↦ some (record p { sched_kind = every; sched_interval = t })
    ]
