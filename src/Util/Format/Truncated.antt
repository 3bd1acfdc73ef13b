-- ===== src/Util/Format/Truncated.antt =====
-- src/util.c: `hm_vformat` and the whole text of a format.
use hacman.Util.Format.{
  Arg, str, text, unsigned, signed, char, Conversion, as_str, as_text, as_unsigned, as_signed,
  as_char, as_is, conversion, put_bytes, put_number, null_text, convert, format_from, vformat,
}
use hacman.Util.Number.{decimal, fmt_ulong}
use hacman.Base.{
  ℕ, suc, ◌-◌, ◌≤◌, ◌<◌, Bool, true, false, none, some, List, [], ◌∷◌, ◌++◌, ltb, ◌==◌,
  if◌then◌else◌, length, length-append, length-take, take, take_of_le, append_assoc, append-nil,
  Bytes, pos, negsuc, ◌≡◌, refl, sym, ap, ◌∙◌, arith, inl, inr, Bool-cases, ltb→lt,
}

-- The text of one conversion, and the arguments that are left.
abbrev pub piece : ℕ → Conversion → List Arg → Bytes × List Arg
piece c as_str (str none ∷ args) = (null_text, args)
piece c as_str (str (some s) ∷ args) = (s, args)
piece c as_text (text s ∷ args) = (s, args)
piece c as_unsigned (unsigned v ∷ args) = (decimal v, args)
piece c as_signed (signed (pos v) ∷ args) = (decimal v, args)
piece c as_signed (signed (negsuc v) ∷ args) = (b'-' ∷ decimal (suc v), args)
piece c as_char (char v ∷ args) = (v ∷ [], args)
piece c as_is args = (c ∷ [], args)
piece c _ args = ([], args)

-- The whole text of a format, without an array.
unfoldable pub render : Bool → Bytes → List Arg → Bytes
render percent [] args = []
render true (c ∷ fmt) args = let r = piece c (conversion c) args in r.0 ++ render false fmt r.1
render false (c ∷ fmt) args =
    let percent = c == b'%' in
    let rest = render percent fmt args in if percent then rest else c ∷ rest

-- `out` with as much of `s` as there is room for.
abbrev cut : ℕ → Bytes → Bytes → Bytes
cut cap out s = out ++ take (cap - length out) s

cut_none : (cap : ℕ) (out s : Bytes) → cap ≤ length out → cut cap out s ≡ out
cut_none cap out s h = let e : cap - length out ≡ 0 = omega arith in rw e (append-nil out)

cut_one :
    (cap : ℕ) (out s : Bytes) (c : ℕ)
    → length out < cap
    → cut cap out (c ∷ s) ≡ cut cap (out ++ c ∷ []) s
cut_one cap out s c h =
    let e : cap - length out ≡ suc (cap - length (out ++ c ∷ [])) =
      omega (arith, length-append out (c ∷ [])) in
    rw e (sym (append_assoc out (c ∷ []) _))

cut_nil : (cap : ℕ) (out : Bytes) → cut cap out [] ≡ out
cut_nil cap out = rw (take_of_le {A = ℕ} (cap - length out) [] (omega arith)) (append-nil out)

cut_all : (cap : ℕ) (out s t : Bytes) → cut cap (cut cap out s) t ≡ cut cap out (s ++ t)
cut_all cap out [] t = rw (cut_nil cap out) refl
cut_all cap out (c ∷ s) t = elim (Bool-cases (ltb (length out) cap)) [
  | inl room ↦
      rw (cut_one cap out s c (ground arith), cut_one cap out (s ++ t) c (ground arith))
        (cut_all cap (out ++ c ∷ []) s t)
  | inr full ↦
      rw (cut_none cap out (c ∷ s) (ground arith), cut_none cap out (c ∷ (s ++ t)) (ground arith))
        (cut_none cap out t (ground arith))
]

length-cut : (cap : ℕ) (out s : Bytes) → length out ≤ cap → length (cut cap out s) ≤ cap
length-cut cap out s h =
    omega (arith, length-append out (take (cap - length out) s), length-take (cap - length out) s)

put_bytes-cut : (cap : ℕ) (out s : Bytes) → put_bytes cap out s ≡ cut cap out s
unfolding put_bytes
put_bytes-cut cap out [] = sym (cut_nil cap out)
put_bytes-cut cap out (c ∷ s) = elim (Bool-cases (ltb (length out) cap)) [
  | inl room ↦
      rw (room, put_bytes)
        (put_bytes-cut cap (out ++ c ∷ []) s ∙ sym (cut_one cap out s c (ground arith)))
  | inr full ↦ rw (full, put_bytes) (sym (cut_none cap out (c ∷ s) (ground arith)))
]

put_number-cut : (cap : ℕ) (out : Bytes) (v : ℕ) → put_number cap out v ≡ cut cap out (decimal v)
unfolding put_number fmt_ulong
put_number-cut cap out v = refl

cut_char : (cap : ℕ) (out : Bytes) (c : ℕ) → length out < cap → out ++ c ∷ [] ≡ cut cap out (c ∷ [])
cut_char cap out c h = sym (cut_one cap out [] c h ∙ cut_nil cap (out ++ c ∷ []))

put_negative :
    (cap : ℕ) (out : Bytes) (v : ℕ)
    → length out < cap
    → (if ltb (length (out ++ b'-' ∷ [])) cap
        then put_number cap (out ++ b'-' ∷ []) v
        else out ++ b'-' ∷ [])
      ≡ cut cap out (b'-' ∷ decimal v)
put_negative cap out v h =
    let o = out ++ b'-' ∷ [] in
    rw (cut_one cap out (decimal v) b'-' h) (elim (Bool-cases (ltb (length o) cap)) [
      | inl room ↦ rw room (put_number-cut cap o v)
      | inr full ↦ rw full (sym (cut_none cap o (decimal v) (ground arith)))
    ])

-- One conversion writes its text as far as there is room.
convert-cut :
    (cap : ℕ) (out : Bytes) (c : ℕ) (k : Conversion) (args : List Arg)
    → length out < cap
    → (convert cap out c k args).0 ≡ cut cap out (piece c k args).0
unfolding convert
convert-cut cap out c as_is args h = cut_char cap out c h
convert-cut cap out c as_str (str none ∷ args) h = put_bytes-cut cap out null_text
convert-cut cap out c as_str (str (some s) ∷ args) h = put_bytes-cut cap out s
convert-cut cap out c as_text (text s ∷ args) h = put_bytes-cut cap out s
convert-cut cap out c as_unsigned (unsigned v ∷ args) h = put_number-cut cap out v
convert-cut cap out c as_signed (signed (pos v) ∷ args) h = put_number-cut cap out v
convert-cut cap out c as_signed (signed (negsuc v) ∷ args) h = put_negative cap out (suc v) h
convert-cut cap out c as_char (char v ∷ args) h = cut_char cap out v h
convert-cut cap out c _ _ h = sym (cut_nil cap out)

convert_left :
    (cap : ℕ) (out : Bytes) (c : ℕ) (k : Conversion) (args : List Arg)
    → (convert cap out c k args).1 ≡ (piece c k args).1
unfolding convert
convert_left cap out c as_is args = refl
convert_left cap out c as_str (str none ∷ args) = refl
convert_left cap out c as_str (str (some s) ∷ args) = refl
convert_left cap out c as_text (text s ∷ args) = refl
convert_left cap out c as_unsigned (unsigned v ∷ args) = refl
convert_left cap out c as_signed (signed (pos v) ∷ args) = refl
convert_left cap out c as_signed (signed (negsuc v) ∷ args) = refl
convert_left cap out c as_char (char v ∷ args) = refl
convert_left cap out c _ _ = refl

-- Behind a `%` there is room for a byte.
abbrev Room : Bool → ℕ → Bytes → Type 0
Room true cap out = length out < cap
Room false cap out = length out ≤ cap

format_from-cut :
    (cap : ℕ) (out : Bytes) (percent : Bool) (fmt : Bytes) (args : List Arg)
    → Room percent cap out
    → format_from cap out percent fmt args ≡ cut cap out (render percent fmt args)
unfolding format_from render
format_from-cut cap out true [] args h = sym (cut_nil cap out)
format_from-cut cap out false [] args h = sym (cut_nil cap out)
format_from-cut cap out true (c ∷ fmt) args h =
    let r = piece c (conversion c) args in
    rw (convert-cut cap out c (conversion c) args h, convert_left cap out c (conversion c) args)
      (format_from-cut cap (cut cap out r.0) false fmt r.1 (length-cut cap out r.0 (omega arith))
        ∙ cut_all cap out r.0 (render false fmt r.1))
format_from-cut cap out false (c ∷ fmt) args h = elim (Bool-cases (ltb (length out) cap)) [
  | inr full ↦ rw full (sym (cut_none cap out _ (ground arith)))
  | inl room ↦ elim (Bool-cases (c == b'%')) [
    | inl percent ↦ rw (room, percent) (format_from-cut cap out true fmt args (ground arith))
    | inr plain ↦
        rw (room, plain)
          (format_from-cut cap (out ++ c ∷ []) false fmt args
              (omega (arith, length-append out (c ∷ []), ltb→lt (length out) cap room))
            ∙ sym (cut_one cap out _ c (ground arith)))
  ]
]

-- `hm_vformat` writes the text of its format and arguments, cut off at the end of the array: it
-- never writes behind it, and it drops nothing that fits.
pub vformat-render :
    (cap : ℕ) (fmt : Bytes) (args : List Arg)
    → vformat cap fmt args ≡ take cap (render false fmt args)
unfolding vformat
vformat-render cap fmt args =
    let e : cap - 0 ≡ cap = omega arith in
    format_from-cut cap [] false fmt args (omega arith) ∙ ap (λ n. take n (render false fmt args)) e
