-- ===== src/Util/Output/Stream.antt =====
-- The prefixed output does not depend on how the text is cut into calls.
use hacman.Util.Output.{stderr_prefix, line_prefix, write_lines, write_prefixed}
use hacman.Base.{
  ℕ, zero, suc, ◌≤◌, ◌<◌, Bool, true, false, none, some, [], ◌∷◌, ◌++◌, append_assoc, append-nil,
  ◌≡◌, refl, sym, ap, ap₂, ◌∙◌, inl, inr, arith, ◌==◌, if◌then◌else◌, length, length-append, Lacks,
  Bytes, split_at, Option-cases,
}

-- Byte by byte: the mark in front of each line's first byte.
abbrev pub marked_bytes : Bool → Bytes → Bytes
marked_bytes start [] = []
marked_bytes start (c ∷ s) =
    (if start then stderr_prefix else []) ++ c ∷ marked_bytes (c == b'\n') s

-- Whether the next byte begins a line.
abbrev pub at_start : Bool → Bytes → Bool
at_start start [] = start
at_start start (c ∷ s) = at_start (c == b'\n') s

split_at-Lacks :
    (b : ℕ) (s : Bytes) {q : Bytes × Bytes}
    → split_at b s ≡ some q
    → (s ≡ q.0 ++ b ∷ q.1) × Lacks b q.0
unfolding split_at
split_at-Lacks b [] e = cc
split_at-Lacks b (c ∷ s) {q} e = elim (Option-cases (split_at b s)) [
  | inl w ↦ ground (arith, e, w)
  | inr (r, w) ↦ ground (arith, e, w, split_at-Lacks b s w)
]

Lacks-split_at : (b : ℕ) (s : Bytes) → split_at b s ≡ none → Lacks b s
unfolding split_at
Lacks-split_at b [] e = tt
Lacks-split_at b (c ∷ s) e = elim (Option-cases (split_at b s)) [
  | inl w ↦ (ground (arith, e), Lacks-split_at b s w)
  | inr (r, w) ↦ absurd ground (arith, e, w)
]

-- Behind its first byte, a line is written as it is.
marked_bytes-line :
    (l rest : Bytes) → Lacks b'\n' l → marked_bytes false (l ++ rest) ≡ l ++ marked_bytes false rest
marked_bytes-line [] rest h = refl
marked_bytes-line (c ∷ l) rest (hc, h) = ground (arith, marked_bytes-line l rest h)

marked_bytes_line_end :
    (start : Bool) (l rest : Bytes)
    → Lacks b'\n' l
    → marked_bytes start (l ++ b'\n' ∷ rest)
      ≡ (if start then stderr_prefix else []) ++ (l ++ (b'\n' ∷ marked_bytes true rest))
marked_bytes_line_end start [] rest h = refl
marked_bytes_line_end start (c ∷ l) rest (hc, h) =
    ground (arith, marked_bytes-line l (b'\n' ∷ rest) h)

marked_bytes_last :
    (start : Bool) (c : ℕ) (l : Bytes)
    → Lacks b'\n' (c ∷ l)
    → marked_bytes start (c ∷ l) ≡ (if start then stderr_prefix else []) ++ c ∷ l
marked_bytes_last start c l (hc, h) = ground (arith, marked_bytes-line l [] h, append-nil l)

at_start-line :
    (start : Bool) (l rest : Bytes) → at_start start (l ++ b'\n' ∷ rest) ≡ at_start true rest
at_start-line start [] rest = refl
at_start-line start (c ∷ l) rest = at_start-line (c == b'\n') l rest

at_start_last :
    (start : Bool) (c : ℕ) (l : Bytes) → Lacks b'\n' (c ∷ l) → at_start start (c ∷ l) ≡ false
at_start_last start c [] (hc, h) = ground arith
at_start_last start c (d ∷ l) (hc, h) = at_start_last (c == b'\n') d l h

line_prefix-eq-if :
    (start : Bool) (s : Bytes) → line_prefix false start s ≡ (if start then stderr_prefix else [])
unfolding line_prefix
line_prefix-eq-if true s = refl
line_prefix-eq-if false s = refl

length-split_at : (s : Bytes) (q : Bytes × Bytes) → s ≡ q.0 ++ b'\n' ∷ q.1 → length q.1 < length s
length-split_at s q e =
    omega (arith, ap (λ (x : Bytes). length x) e, length-append q.0 (b'\n' ∷ q.1))

write_lines-eq-marked_bytes :
    (fuel : ℕ) (start : Bool) (s : Bytes)
    → length s ≤ fuel
    → write_lines fuel false start s ≡ (marked_bytes start s, at_start start s)
unfolding write_lines
write_lines-eq-marked_bytes zero start [] h = refl
write_lines-eq-marked_bytes zero start (c ∷ s) h = absurd (omega arith)
write_lines-eq-marked_bytes (suc fuel) start [] h = refl
write_lines-eq-marked_bytes (suc fuel) start (c ∷ s) h =
    elim (Option-cases (split_at b'\n' (c ∷ s))) [
      | inl e ↦
          let l = Lacks-split_at b'\n' (c ∷ s) e in
          rw (e, write_lines, line_prefix-eq-if)
            (ap₂ (λ (x : Bytes) (y : Bool). (x, y)) (sym (marked_bytes_last start c s l))
              (sym (at_start_last start c s l)))
      | inr (q, e) ↦
          let (split, l) = split_at-Lacks b'\n' (c ∷ s) e in
          let less = length-split_at (c ∷ s) q split in
          rw
            (
              e,
              write_lines,
              line_prefix-eq-if,
              write_lines-eq-marked_bytes fuel true q.1 (omega arith),
            )
            (ap₂ (λ (x : Bytes) (y : Bool). (x, y)) (sym (marked_bytes_line_end start q.0 q.1 l))
                (sym (at_start-line start q.0 q.1))
              ∙ ap (λ (x : Bytes). (marked_bytes start x, at_start start x)) (sym split))
    ]

marked_bytes-append :
    (start : Bool) (s t : Bytes)
    → marked_bytes start (s ++ t) ≡ marked_bytes start s ++ marked_bytes (at_start start s) t
marked_bytes-append start [] t = refl
marked_bytes-append start (c ∷ s) t =
    ap (λ (x : Bytes). (if start then stderr_prefix else []) ++ c ∷ x)
      (marked_bytes-append (c == b'\n') s t)
    ∙ sym (
        append_assoc (if start then stderr_prefix else []) (c ∷ marked_bytes (c == b'\n') s)
          (marked_bytes (at_start (c == b'\n') s) t))

at_start-append :
    (start : Bool) (s t : Bytes) → at_start start (s ++ t) ≡ at_start (at_start start s) t
at_start-append start [] t = refl
at_start-append start (c ∷ s) t = at_start-append (c == b'\n') s t

-- For hacman's own output the mark stands in front of the first byte of each line and nowhere else,
-- and the state says whether a line is to begin.
pub write_prefixed-eq-marked_bytes :
    (start : Bool) (s : Bytes)
    → write_prefixed false start s ≡ (marked_bytes start s, at_start start s)
unfolding write_prefixed
write_prefixed-eq-marked_bytes start s =
    write_lines-eq-marked_bytes (length s) start s (omega arith)

-- Two calls write what one call on the whole text writes, and leave the same state, wherever the
-- text is cut.
pub write_prefixed-append :
    (start : Bool) (s t : Bytes)
    → write_prefixed false start (s ++ t) ≡ (
      (write_prefixed false start s).0
          ++ (write_prefixed false (write_prefixed false start s).1 t).0,
      (write_prefixed false (write_prefixed false start s).1 t).1,
    )
write_prefixed-append start s t =
    rw
      (
        write_prefixed-eq-marked_bytes start (s ++ t),
        write_prefixed-eq-marked_bytes start s,
        write_prefixed-eq-marked_bytes (at_start start s) t,
        marked_bytes-append start s t,
        at_start-append start s t,
      )
      refl
