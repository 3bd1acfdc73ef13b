-- ===== src/Util/Format/Buffered.antt =====
-- src/util.c: the buffer of `hm_out` over many calls.
use hacman.Util.Format.{Out, out_cap, out_flush, out_line}
use hacman.Base.{
  ◌-◌, ◌≤◌, List, [], ◌∷◌, ◌++◌, ltb, length, length-append, append_assoc, append-nil, Bytes, ◌≡◌,
  refl, sym, ap, ◌∙◌, arith, inl, inr, Bool-cases,
}

-- The bytes of an output, written or not.
abbrev pub all_bytes : Out → Bytes
all_bytes o = o.written ++ o.buf

-- The calls of `hm_out` with these lines.
unfoldable pub out_lines : Out → List Bytes → Out
out_lines o [] = o
out_lines o (line ∷ more) = out_lines (out_line o line) more

unfoldable pub concat : List Bytes → Bytes
concat [] = []
concat (line ∷ more) = line ++ concat more

out_flush_bytes : (o : Out) → all_bytes (out_flush o) ≡ all_bytes o
unfolding out_flush
out_flush_bytes o = append-nil (all_bytes o)

out_line_bytes :
    (o : Out) (line : Bytes)
    → length o.buf ≤ out_cap
    → (all_bytes (out_line o line) ≡ all_bytes o ++ line) × (length (out_line o line).buf ≤ out_cap)
unfolding out_line out_flush
out_line_bytes o line h = elim (Bool-cases (ltb (out_cap - length o.buf) (length line))) [
  | inl full ↦ elim (Bool-cases (ltb out_cap (length line))) [
    | inl long ↦ rw (full, long) (append-nil _, omega arith)
    | inr short ↦ rw (full, short) (refl, ground arith)
  ]
  | inr room ↦ elim (Bool-cases (ltb out_cap (length line))) [
    | inl long ↦ absurd (ground arith)
    | inr short ↦
        rw (room, short)
          (sym (append_assoc o.written o.buf line), ground (arith, length-append o.buf line))
  ]
]

-- Whatever is printed, and in whatever pieces, the bytes written and buffered are those of the
-- pieces in their order, and the buffer (filled within its array before) stays within its array.
pub out_lines-concat :
    (o : Out) (lines : List Bytes)
    → length o.buf ≤ out_cap
    → (all_bytes (out_lines o lines) ≡ all_bytes o ++ concat lines)
      × (length (out_lines o lines).buf ≤ out_cap)
unfolding out_lines concat
out_lines-concat o [] h = (sym (append-nil (all_bytes o)), h)
out_lines-concat o (line ∷ more) h =
    let (bytes, fits) = out_line_bytes o line h in
    let (all, bound) = out_lines-concat (out_line o line) more fits in
    (all ∙ ap (λ s. s ++ concat more) bytes ∙ append_assoc (all_bytes o) line (concat more), bound)
