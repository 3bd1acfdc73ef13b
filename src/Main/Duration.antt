-- ===== src/Main/Duration.antt =====
-- src/main.c, `fmt_duration`: the time to the next run in one unit.
use hacman.Schedule.{unit_secs}
use hacman.Util.Number.{decimal, length-decimal}
use hacman.Util.Text.{str_copy, str_copy_of_le}
use hacman.Base.{
  ℕ, ◌+◌, ◌*◌, ◌/◌, ◌^◌, ◌≤◌, ◌<◌, some, [], ◌∷◌, ◌++◌, ltb, if◌then◌else◌, length, length-append,
  take, take_of_le, Bytes, ℤ, pos, negsuc, ◌≡◌, arith,
}

-- The value and its unit.
unfoldable pub in_unit : ℕ → ℕ × ℕ
in_unit secs =
    if ltb secs 60
    then (secs, b's')
    else if ltb secs 3600
    then (secs / 60, b'm')
    else if ltb secs 86400
    then (secs / 3600, b'h')
    else (secs / 86400, b'd')

-- A `long`; a negative one is below 60, and its digits are those of 0.
unfoldable pub value_in_unit : ℤ → ℕ × ℕ
value_in_unit (pos n) = in_unit n
value_in_unit (negsuc k) = (0, b's')

-- The array `tmp`: the digits, as far as there is room for one more byte, and the unit.
unfoldable pub with_unit : Bytes → ℕ → Bytes
with_unit digits unit =
    let copied = take 31 digits in
    if ltb (length copied + 1) 32 then copied ++ (unit ∷ []) else copied

-- What is written to a buffer of `cap` bytes.
unfoldable pub fmt_duration : ℕ → ℤ → Bytes
fmt_duration cap secs =
    let (v, unit) = value_in_unit secs in str_copy cap (with_unit (decimal v) unit)

with_unit-eq-append :
    (digits : Bytes) (unit : ℕ) → length digits ≤ 20 → with_unit digits unit ≡ digits ++ (unit ∷ [])
unfolding with_unit
with_unit-eq-append digits unit h =
    let all : take 31 digits ≡ digits = take_of_le 31 digits (omega arith) in rw all (ground arith)

pub fmt_duration-eq-append :
    (n : ℕ) → n < 2 ^ 63 → fmt_duration 32 (pos n) ≡ decimal (in_unit n).0 ++ ((in_unit n).1 ∷ [])
unfolding fmt_duration value_in_unit
fmt_duration-eq-append n h =
    let v = (in_unit n).0 in
    let small : v < 2 ^ 63 = unfold in_unit in ground arith in
    let len = length-decimal v (omega arith) in
    rw (with_unit-eq-append (decimal v) (in_unit n).1 len) (
      str_copy_of_le 32 (decimal v ++ ((in_unit n).1 ∷ []))
        (omega (arith, length-append (decimal v) ((in_unit n).1 ∷ []))))

-- The unit is one that a schedule may use, and the value is rounded down to it.
record IsRounded (n v unit : ℕ) : Type 0 where
  mul : ℕ
  of_unit : unit_secs unit ≡ some mul
  positive : 0 < v
  below : v * mul ≤ n
  above : n < v * mul + mul
