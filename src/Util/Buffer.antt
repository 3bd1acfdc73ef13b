-- ===== src/Util/Buffer.antt =====
-- src/cache.c, the append loops that fill a fixed buffer and leave room for a NUL. A buffer is the
-- bytes written so far, together with its capacity.
use hacman.Util.Number.{decimal}
use hacman.Base.{
  ℕ, ◌+◌, ◌<◌, true, false, ◌||◌, [], ◌∷◌, ◌++◌, map, append_assoc, append-nil, ◌≡◌, ◌-◌, sym, ap,
  ◌∙◌, take, take_of_le, take-append_length, inl, inr, Bool-cases, arith, ltb, ◌==◌, if◌then◌else◌,
  length, length-append, length-map, Bytes, ℤ, pos, negsuc,
}

-- `while (... && o + 1 < size) dst[o++] = *s++`
fill : ℕ → Bytes → Bytes → Bytes
fill size out [] = out
fill size out (c ∷ s) = elim (ltb (length out + 1) size) [
  | true ↦ fill size (out ++ c ∷ []) s
  | false ↦ out
]

-- What `append_clean` puts for a byte.
unfoldable pub clean_byte : ℕ → ℕ
clean_byte c = if c == b'\t' || c == b'\n' || c == b'\r' then b' ' else c

unfoldable pub append_str : ℕ → Bytes → Bytes → Bytes
unfolding fill
append_str size out s = fill size out s

unfoldable pub append_clean : ℕ → Bytes → Bytes → Bytes
unfolding fill clean_byte
append_clean size out s = fill size out (map clean_byte s)

-- A negative number is written as 0.
abbrev pub magnitude : ℤ → ℕ
magnitude (pos n) = n
magnitude (negsuc n) = 0

unfoldable pub append_long : ℕ → Bytes → ℤ → Bytes
unfolding fill decimal
append_long size out v = fill size out (decimal (magnitude v))

fill-eq-append :
    (size : ℕ) (out s : Bytes) → length out + length s < size → fill size out s ≡ out ++ s
unfolding fill
fill-eq-append size out [] h = sym (append-nil out)
fill-eq-append size out (c ∷ s) h = ground (
  arith,
  fill-eq-append size (out ++ c ∷ []) s,
  length-append out (c ∷ []),
  append_assoc out (c ∷ []) s,
)

-- What does not fit is cut off.
fill-take :
    (size : ℕ) (out s : Bytes) → length out < size → fill size out s ≡ take (size - 1) (out ++ s)
unfolding fill
fill-take size out [] h =
    sym (append-nil out)
    ∙ sym (take_of_le (size - 1) (out ++ []) (omega (arith, length-append out [])))
fill-take size out (c ∷ s) h = elim (Bool-cases (ltb (length out + 1) size)) [
  | inl more ↦
      rw (more, fill)
        (fill-take size (out ++ c ∷ []) s (ground (arith, more, length-append out (c ∷ [])))
          ∙ ap (take (size - 1)) (append_assoc out (c ∷ []) s))
  | inr full ↦
      let last : length out ≡ size - 1 = ground (arith, full) in
      rw (full, fill)
        (sym (take-append_length out (c ∷ s)) ∙ ap (λ (n : ℕ). take n (out ++ (c ∷ s))) last)
]

length-fill : (size : ℕ) (out s : Bytes) → length out < size → length (fill size out s) < size
unfolding fill
length-fill size out [] h = h
length-fill size out (c ∷ s) h =
    ground (arith, length-fill size (out ++ c ∷ []) s, length-append out (c ∷ []))

pub append_str-eq-append :
    (size : ℕ) (out s : Bytes) → length out + length s < size → append_str size out s ≡ out ++ s
unfolding append_str
append_str-eq-append = fill-eq-append

pub append_str-eq-take :
    (size : ℕ) (out s : Bytes)
    → length out < size
    → append_str size out s ≡ take (size - 1) (out ++ s)
unfolding append_str
append_str-eq-take = fill-take

pub length-append_str :
    (size : ℕ) (out s : Bytes) → length out < size → length (append_str size out s) < size
unfolding append_str
length-append_str = length-fill

pub append_clean-eq-append :
    (size : ℕ) (out s : Bytes)
    → length out + length s < size
    → append_clean size out s ≡ out ++ map clean_byte s
unfolding append_clean
append_clean-eq-append size out s h =
    fill-eq-append size out (map clean_byte s) (omega (arith, length-map clean_byte s))

pub append_long-eq-append :
    (size : ℕ) (out : Bytes) (v : ℤ)
    → length out + length (decimal (magnitude v)) < size
    → append_long size out v ≡ out ++ decimal (magnitude v)
unfolding append_long
append_long-eq-append size out v h =
    unfold decimal in fill-eq-append size out (decimal (magnitude v)) h
