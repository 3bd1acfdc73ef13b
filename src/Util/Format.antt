-- ===== src/Util/Format.antt =====
-- src/util.c, `hm_vformat` and the output buffer of `hm_out`. An array is the bytes written so far.
pub mod Truncated
pub mod Buffered
use hacman.Util.Number.{fmt_ulong}
use hacman.Base.{
  ℕ, suc, ◌+◌, ◌-◌, Bool, true, false, not, Option, none, some, List, [], ◌∷◌, ◌++◌, ltb, ◌==◌,
  if◌then◌else◌, length, Bytes, codes, ℤ, pos, negsuc,
}

-- An argument: a C string that may be NULL, an `hm_str`, an `unsigned long`, a `long`, a `char`.
pub data Arg : Type 0 where
  str : Option Bytes → Arg
  text : Bytes → Arg
  unsigned : ℕ → Arg
  signed : ℤ → Arg
  char : ℕ → Arg

-- The cases of the switch.
pub data Conversion : Type 0 where
  as_str : Conversion
  as_text : Conversion
  as_unsigned : Conversion
  as_signed : Conversion
  as_char : Conversion
  as_is : Conversion

unfoldable pub conversion : ℕ → Conversion
conversion c =
    if c == b's'
    then as_str
    else if c == b'S'
    then as_text
    else if c == b'u'
    then as_unsigned
    else if c == b'd'
    then as_signed
    else if c == b'c'
    then as_char
    else as_is

-- `while (... && o < cap) dst[o++] = ...;`
unfoldable pub put_bytes : ℕ → Bytes → Bytes → Bytes
put_bytes cap out [] = out
put_bytes cap out (c ∷ s) = elim (ltb (length out) cap) [
  | true ↦ put_bytes cap (out ++ c ∷ []) s
  | false ↦ out
]

-- `o += fmt_ulong(dst + o, cap - o, v)`
unfoldable pub put_number : ℕ → Bytes → ℕ → Bytes
put_number cap out v = out ++ fmt_ulong (cap - length out) v

abbrev pub null_text : Bytes
null_text = codes "(null)"

-- One conversion, and the arguments that are left. An argument of another type than the conversion
-- asks for is undefined in C, and no call has one; here nothing is written for it.
unfoldable pub convert : ℕ → Bytes → ℕ → Conversion → List Arg → Bytes × List Arg
convert cap out c as_str (str none ∷ args) = (put_bytes cap out null_text, args)
convert cap out c as_str (str (some s) ∷ args) = (put_bytes cap out s, args)
convert cap out c as_text (text s ∷ args) = (put_bytes cap out s, args)
convert cap out c as_unsigned (unsigned v ∷ args) = (put_number cap out v, args)
convert cap out c as_signed (signed (pos v) ∷ args) = (put_number cap out v, args)
convert cap out c as_signed (signed (negsuc v) ∷ args) =
    let o = out ++ b'-' ∷ [] in (if ltb (length o) cap then put_number cap o (suc v) else o, args)
convert cap out c as_char (char v ∷ args) = (out ++ v ∷ [], args)
convert cap out c as_is args = (out ++ c ∷ [], args)
convert cap out c _ args = (out, args)

-- The loop. The state is what was written, whether a `%` stands in front, and the arguments.
unfoldable pub format_from : ℕ → Bytes → Bool → Bytes → List Arg → Bytes
format_from cap out percent [] args = out
format_from cap out true (c ∷ fmt) args =
    let r = convert cap out c (conversion c) args in format_from cap r.0 false fmt r.1
format_from cap out false (c ∷ fmt) args =
    let percent = c == b'%' in
    let rest = format_from cap (if percent then out else out ++ c ∷ []) percent fmt args in
    if ltb (length out) cap then rest else out

-- `hm_vformat` into an array of `cap` bytes.
unfoldable pub vformat : ℕ → Bytes → List Arg → Bytes
vformat cap fmt args = format_from cap [] false fmt args

abbrev pub line_cap : ℕ
line_cap = 4096

abbrev pub out_cap : ℕ
out_cap = 4096

-- The output: the bytes that were written, and `out_buf`.
pub record Out : Type 0 where
  pub written : Bytes
  pub buf : Bytes

unfoldable pub out_flush : Out → Out
out_flush o = record { written = o.written ++ o.buf; buf = [] }

-- `hm_out` behind the formatting.
unfoldable pub out_line : Out → Bytes → Out
out_line o line =
    let o' = if ltb (out_cap - length o.buf) (length line) then out_flush o else o in
    if ltb out_cap (length line)
    then record { written = o'.written ++ line; buf = o'.buf }
    else record { written = o'.written; buf = o'.buf ++ line }

unfoldable pub hm_out : Out → Bytes → List Arg → Out
hm_out o fmt args = out_line o (vformat line_cap fmt args)
