-- ===== src/Util/Number.antt =====
-- Decimal numbers: the digit loops of src/util.c, src/cache.c, src/config.c and src/main.c, which
-- are one loop, and `hm_parse_ulong`.
use mathlib.Core.List.{concat-ne-nil}
use native.Mathlib.Nat.{pow-suc}
use hacman.Base.{
  All, All-reverse, length, length-reverse, ap, sym, ℕ, zero, suc, ◌+◌, ◌-◌, ◌*◌, ◌/◌, ◌%◌, ◌^◌,
  ◌≤◌, ◌<◌, Option, none, some, ◌||◌, [], ◌∷◌, ◌++◌, reverse, reverse-cons, append_assoc,
  append-nil, cons-ne-nil, inl, inr, Bool-cases, ◌≡◌, ◌≢◌, refl, ◌∙◌, arith, ltb, ◌==◌,
  if◌then◌else◌, take, Bytes,
}

-- The largest value of an `unsigned long`, plus one.
abbrev pub ulong_mod : ℕ
ulong_mod = 2 ^ 64

-- The array `tmp`, least digit first; the fuel is the bound `n < sizeof(tmp)`.
unfoldable pub digits : ℕ → ℕ → Bytes
digits zero x = []
digits (suc room) x =
    let more = digits room (x / 10) in (b'0' + x % 10) ∷ (if x / 10 == 0 then [] else more)

abbrev pub tmp_size : ℕ
tmp_size = 24

-- The digits in the order in which they are copied out.
unfoldable pub decimal : ℕ → Bytes
unfolding digits
decimal x = reverse (digits tmp_size x)

-- `fmt_ulong`: what it writes to a buffer of `size` bytes.
unfoldable pub fmt_ulong : ℕ → ℕ → Bytes
unfolding decimal
fmt_ulong size v = take size (decimal v)

-- The loop of `hm_parse_ulong`, in unsigned arithmetic that wraps around.
unfoldable pub scan : Bytes → ℕ → Option ℕ
scan [] v = some v
scan (c ∷ s) v =
    if ltb c b'0' || ltb b'9' c then none else scan s ((v * 10 + (c - b'0')) % ulong_mod)

unfoldable pub parse_ulong : Bytes → Option ℕ
unfolding scan
parse_ulong [] = none
parse_ulong (c ∷ s) = scan (c ∷ s) 0

digits-ne-nil : (room x : ℕ) → 0 < room → digits room x ≢ []
unfolding digits
digits-ne-nil zero x h = absurd (omega arith)
digits-ne-nil (suc room) x h = cons-ne-nil _ _

-- Reading the last digit of `x` behind the digits in front of it gives `x`.
scan_last :
    (x : ℕ) (rest : Bytes) → x < ulong_mod → scan ((b'0' + x % 10) ∷ rest) (x / 10) ≡ scan rest x
unfolding scan
scan_last x rest h = ground arith

scan-digits :
    (room x : ℕ) (rest : Bytes)
    → x < 10 ^ room
    → x < ulong_mod
    → scan (reverse (digits room x) ++ rest) 0 ≡ scan rest x
unfolding digits
scan-digits zero x rest h u = let e : x ≡ 0 = omega arith in rw e
scan-digits (suc room) x rest h u = elim (Bool-cases (x / 10 == 0)) [
  | inl last ↦ rw (last, digits) (ground (arith, scan_last x rest u))
  | inr more ↦
      rw (more, reverse-cons, append_assoc)
        (scan-digits room (x / 10) ((b'0' + x % 10) ∷ rest) (omega (arith, pow-suc 10 room))
            (omega arith)
          ∙ scan_last x rest u)
]

scan_nonempty : (s : Bytes) → s ≢ [] → parse_ulong s ≡ scan s 0
unfolding parse_ulong
scan_nonempty [] h = absurd (h refl)
scan_nonempty (c ∷ s) h = refl

reverse-ne-nil : (s : Bytes) → s ≢ [] → reverse s ≢ []
reverse-ne-nil [] h = h
reverse-ne-nil (c ∷ s) h = rw reverse-cons (concat-ne-nil c (reverse s))

pub decimal-ne-nil : (x : ℕ) → decimal x ≢ []
unfolding decimal
decimal-ne-nil x = reverse-ne-nil (digits tmp_size x) (digits-ne-nil tmp_size x (omega arith))

-- Every `unsigned long` is read back from the digits written for it, and 24 places are enough.
pub parse_ulong-decimal : (x : ℕ) → x < ulong_mod → parse_ulong (decimal x) ≡ some x
unfolding scan
parse_ulong-decimal x h =
    scan_nonempty (decimal x) (decimal-ne-nil x)
    ∙ ap (λ s. scan s 0) (sym (append-nil (decimal x)))
    ∙ (unfold decimal in scan-digits tmp_size x [] (omega arith) h)

abbrev pub IsDigit : ℕ → Type 0
IsDigit c = (b'0' ≤ c) × (c ≤ b'9')

digits-IsDigit : (room x : ℕ) → All IsDigit (digits room x)
unfolding digits
digits-IsDigit zero x = tt
digits-IsDigit (suc room) x = ground (arith, digits-IsDigit room (x / 10))

pub decimal-IsDigit : (x : ℕ) → All IsDigit (decimal x)
unfolding decimal
decimal-IsDigit x = All-reverse IsDigit (digits tmp_size x) (digits-IsDigit tmp_size x)

length-digits : (room x places : ℕ) → 0 < places → x < 10 ^ places → length (digits room x) ≤ places
unfolding digits
length-digits zero x places h p = omega arith
length-digits (suc room) x zero h p = absurd (omega arith)
length-digits (suc room) x (suc zero) h p = ground arith
length-digits (suc room) x (suc (suc n)) h p =
    ground (arith, length-digits room (x / 10) (suc n), pow-suc 10 (suc n))

-- An `unsigned long` has at most twenty digits.
pub length-decimal : (x : ℕ) → x < ulong_mod → length (decimal x) ≤ 20
unfolding decimal
length-decimal x h = omega (
  arith,
  length-reverse (digits tmp_size x),
  length-digits tmp_size x 20 (omega arith) (omega arith),
)
