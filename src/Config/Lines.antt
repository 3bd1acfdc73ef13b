-- ===== src/Config/Lines.antt =====
-- src/config.c, `hm_file_next_line` and `hm_install_next_line`: the lines of a block, without its
-- indentation; and the loops over them in src/install.c. A cursor is the text from it to the end of
-- the block.
use hacman.Project.{Project, EmbeddedFile}
use hacman.Base.{
  ℕ, zero, suc, ◌≤◌, ◌<◌, Option, none, some, List, [], ◌∷◌, ◌++◌, ◌≡◌, ◌≢◌, refl, ap, ◌∙◌, arith,
  ◌==◌, if◌then◌else◌, length, length-append, All, All-append, Lacks, Bytes, codes, split_at,
  split_at-append,
}

unfoldable pub strip : ℕ → Bytes → Bytes
strip zero s = s
strip (suc n) [] = []
strip (suc n) (c ∷ s) = if c == b' ' then strip n s else c ∷ s

-- The line up to `eol`, and the cursor behind it.
unfoldable pub cut_line : Bytes → Bytes × Bytes
unfolding split_at
cut_line s = elim (split_at b'\n' s) [ none ↦ (s, []) | some p ↦ p ]

unfoldable pub file_next_line : ℕ → Bytes → Option (Bytes × Bytes)
unfolding strip cut_line
file_next_line indent [] = none
file_next_line indent (c ∷ s) =
    let (line, rest) = cut_line (c ∷ s) in some (strip indent line, rest)

unfoldable pub install_next_line : Project → Bytes → Option (Bytes × Bytes)
unfolding file_next_line
install_next_line p cursor = file_next_line p.install_indent cursor

-- `while (hm_file_next_line(...))`, on fuel: each round reads a byte at least.
unfoldable pub lines_from : ℕ → ℕ → Bytes → List Bytes
unfolding file_next_line
lines_from zero indent s = []
lines_from (suc fuel) indent s = elim (file_next_line indent s) [
  | none ↦ []
  | some p ↦ p.0 ∷ lines_from fuel indent p.1
]

unfoldable pub file_lines : EmbeddedFile → List Bytes
unfolding lines_from
file_lines f = lines_from (length f.content) f.content_indent f.content

-- `fwrite(line)` and `fputc('\n')` for each line.
unfoldable pub written : List Bytes → Bytes
written [] = []
written (l ∷ ls) = l ++ (b'\n' ∷ written ls)

-- What `write_embedded_file` puts in the file.
unfoldable pub file_text : EmbeddedFile → Bytes
unfolding file_lines written
file_text f = written (file_lines f)

-- What `write_script` puts in the script; `HM_SHELL` is a setting of the build.
unfoldable pub script_text : Bytes → Project → Bytes
unfolding lines_from written
script_text shell p =
    codes "#!"
    ++ (shell ++ (b'\n' ∷ written (lines_from (length p.install) p.install_indent p.install)))

abbrev pub spaces : ℕ → Bytes
spaces zero = []
spaces (suc n) = b' ' ∷ spaces n

-- A line of a block in the input: a blank line stays empty.
abbrev pub indent_line : ℕ → Bytes → Bytes
indent_line n [] = []
indent_line n (c ∷ s) = spaces n ++ c ∷ s

-- The raw region of a block, which ends with its last line of text.
abbrev pub indented : ℕ → List Bytes → Bytes → Bytes
indented n [] last = indent_line n last
indented n (l ∷ ls) last = indent_line n l ++ (b'\n' ∷ indented n ls last)

strip-spaces : (n : ℕ) (s : Bytes) → strip n (spaces n ++ s) ≡ s
unfolding strip
strip-spaces zero s = refl
strip-spaces (suc n) s = strip-spaces n s

strip-indent_line : (n : ℕ) (l : Bytes) → strip n (indent_line n l) ≡ l
unfolding strip
strip-indent_line zero [] = refl
strip-indent_line (suc n) [] = refl
strip-indent_line n (c ∷ s) = strip-spaces n (c ∷ s)

spaces-Lacks : (n : ℕ) → Lacks b'\n' (spaces n)
spaces-Lacks zero = tt
spaces-Lacks (suc n) = (omega arith, spaces-Lacks n)

indent_line-Lacks : (n : ℕ) (l : Bytes) → Lacks b'\n' l → Lacks b'\n' (indent_line n l)
indent_line-Lacks n [] h = tt
indent_line-Lacks n (c ∷ s) h = All-append (λ d. d ≢ b'\n') (spaces n) (c ∷ s) (spaces-Lacks n) h

split_at-none : (b : ℕ) (s : Bytes) → Lacks b s → split_at b s ≡ none
unfolding split_at
split_at-none b [] h = refl
split_at-none b (c ∷ s) (hc, hs) = ground (arith, split_at-none b s hs)

cut_line-append : (l rest : Bytes) → Lacks b'\n' l → cut_line (l ++ b'\n' ∷ rest) ≡ (l, rest)
unfolding cut_line
cut_line-append l rest h = rw (split_at-append b'\n' l rest h, cut_line)

cut_line_last : (l : Bytes) → Lacks b'\n' l → cut_line l ≡ (l, [])
unfolding cut_line
cut_line_last l h = rw (split_at-none b'\n' l h, cut_line)

file_next_line-cut_line :
    (n : ℕ) (s : Bytes) {line rest : Bytes}
    → s ≢ []
    → cut_line s ≡ (line, rest)
    → file_next_line n s ≡ some (strip n line, rest)
unfolding file_next_line
file_next_line-cut_line n [] h e = absurd (h refl)
file_next_line-cut_line n (c ∷ s) h e = rw (e, file_next_line)

append-ne-nil : (s : Bytes) (c : ℕ) (t : Bytes) → s ++ c ∷ t ≢ []
append-ne-nil [] c t e = cc
append-ne-nil (d ∷ s) c t e = cc

indent_line-ne-nil : (n : ℕ) (l : Bytes) → l ≢ [] → indent_line n l ≢ []
indent_line-ne-nil n [] h = h
indent_line-ne-nil n (c ∷ s) h = append-ne-nil (spaces n) c s

lines_from_end : (fuel n : ℕ) → lines_from fuel n [] ≡ []
unfolding lines_from
lines_from_end zero n = refl
lines_from_end (suc fuel) n = refl

nonempty-length : (s : Bytes) → s ≢ [] → 0 < length s
nonempty-length [] h = absurd (h refl)
nonempty-length (c ∷ s) h = omega arith

-- One line in front of the rest.
lines_from_step :
    (fuel n : ℕ) (s : Bytes) {line rest : Bytes}
    → s ≢ []
    → cut_line s ≡ (line, rest)
    → lines_from (suc fuel) n s ≡ strip n line ∷ lines_from fuel n rest
unfolding lines_from
lines_from_step fuel n s h e = rw (file_next_line-cut_line n s h e, lines_from)

-- Whatever lines a block holds, with blank ones among them, and whatever its indentation, its raw
-- region is read back as those lines; as much fuel as there are bytes is enough.
pub lines_from-indented :
    (fuel n : ℕ) (ls : List Bytes) (last : Bytes)
    → length (indented n ls last) ≤ fuel
    → All (Lacks b'\n') ls
    → Lacks b'\n' last
    → last ≢ []
    → lines_from fuel n (indented n ls last) ≡ ls ++ last ∷ []
lines_from-indented zero n [] last h w wl e =
    absurd (omega (arith, nonempty-length (indent_line n last) (indent_line-ne-nil n last e)))
lines_from-indented zero n (l ∷ ls) last h w wl e =
    absurd (omega (arith, length-append (indent_line n l) (b'\n' ∷ indented n ls last)))
lines_from-indented (suc fuel) n [] last h w wl e =
    lines_from_step fuel n (indent_line n last) (indent_line-ne-nil n last e)
      (cut_line_last (indent_line n last) (indent_line-Lacks n last wl))
    ∙ ap (◌∷◌ (strip n (indent_line n last))) (lines_from_end fuel n)
    ∙ ap (λ (s : Bytes). s ∷ []) (strip-indent_line n last)
lines_from-indented (suc fuel) n (l ∷ ls) last h (w, ws) wl e =
    lines_from_step fuel n (indented n (l ∷ ls) last)
      (append-ne-nil (indent_line n l) b'\n' (indented n ls last))
      (cut_line-append (indent_line n l) (indented n ls last) (indent_line-Lacks n l w))
    ∙ ap (◌∷◌ (strip n (indent_line n l))) (
        lines_from-indented fuel n ls last
          (omega (arith, length-append (indent_line n l) (b'\n' ∷ indented n ls last))) ws wl e)
    ∙ ap (λ (s : Bytes). s ∷ (ls ++ last ∷ [])) (strip-indent_line n l)

-- The file that is written for an embedded block holds the block's lines, each with its LF.
pub file_text-indented :
    (f : EmbeddedFile) (ls : List Bytes) (last : Bytes)
    → f.content ≡ indented f.content_indent ls last
    → All (Lacks b'\n') ls
    → Lacks b'\n' last
    → last ≢ []
    → file_text f ≡ written (ls ++ last ∷ [])
unfolding file_text file_lines
file_text-indented f ls last c w wl e = ap written (
    ap (λ (s : Bytes). lines_from (length s) f.content_indent s) c
    ∙ lines_from-indented (length (indented f.content_indent ls last)) f.content_indent ls last
        (omega arith) w wl e)
