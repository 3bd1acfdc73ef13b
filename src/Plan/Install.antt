-- ===== src/Plan/Install.antt =====
-- src/plan.c: the install block of a plan, and the script of src/install.c.
use hacman.Plan.{out, block_line, install_heading, print_install}
use hacman.Config.Lines.{
  indented, indent_line, spaces, lines_from, lines_from-indented, written, script_text,
}
use hacman.Project.{Project}
use hacman.Util.Format.{text, conversion, format_from, vformat, line_cap}
use hacman.Util.Format.Buffered.{concat}
use hacman.Util.Format.Truncated.{render, vformat-render}
use hacman.Base.{
  ℕ, ◌<◌, ◌==◌, ◌+◌, ◌≤◌, List, [], ◌∷◌, ◌++◌, map, length, length-append, append_assoc, append-nil,
  take_of_le, All, Lacks, Bytes, codes, ◌≡◌, ◌≢◌, refl, sym, ap, ◌∙◌, arith, false,
}

-- A line that `hm_out` prints behind two spaces without cutting it off.
abbrev pub IsShort : Bytes → Type 0
IsShort l = length l + 3 ≤ line_cap

render_line :
    (s : Bytes) → render false (codes "  %S\n") (text s ∷ []) ≡ b' ' ∷ b' ' ∷ (s ++ b'\n' ∷ [])
unfolding render conversion
render_line s = refl

out_line : (s : Bytes) → IsShort s → out "  %S\n" (text s ∷ []) ≡ b' ' ∷ b' ' ∷ (s ++ b'\n' ∷ [])
unfolding out
out_line s h =
    vformat-render line_cap (codes "  %S\n") (text s ∷ [])
    ∙ rw (render_line s) (
        take_of_le line_cap (b' ' ∷ b' ' ∷ (s ++ b'\n' ∷ []))
          (omega (arith, length-append s (b'\n' ∷ []))))

block_line-indent_line :
    (l : Bytes) → IsShort l → block_line "  %S\n" l ≡ indent_line 2 l ++ b'\n' ∷ []
unfolding block_line out vformat format_from
block_line-indent_line [] h = refl
block_line-indent_line (x ∷ s) h = out_line (x ∷ s) h

concat-append : (xs ys : List Bytes) → concat (xs ++ ys) ≡ concat xs ++ concat ys
unfolding concat
concat-append [] ys = refl
concat-append (x ∷ xs) ys = rw (concat-append xs ys) (sym (append_assoc x (concat xs) (concat ys)))

concat_block :
    (ls : List Bytes) (last : Bytes)
    → All IsShort ls
    → IsShort last
    → concat (map (block_line "  %S\n") (ls ++ last ∷ [])) ≡ indented 2 ls last ++ b'\n' ∷ []
unfolding concat
concat_block [] last hs h = append-nil _ ∙ block_line-indent_line last h
concat_block (l ∷ ls) last (hl, hs) h =
    rw (block_line-indent_line l hl, concat_block ls last hs h)
      (append_assoc (indent_line 2 l) (b'\n' ∷ []) (indented 2 ls last ++ b'\n' ∷ [])
        ∙ sym (append_assoc (indent_line 2 l) (b'\n' ∷ indented 2 ls last) (b'\n' ∷ [])))

install_lines-indented :
    (p : Project) (ls : List Bytes) (last : Bytes)
    → p.install ≡ indented p.install_indent ls last
    → All (Lacks b'\n') ls
    → Lacks b'\n' last
    → last ≢ []
    → lines_from (length p.install) p.install_indent p.install ≡ ls ++ last ∷ []
install_lines-indented p ls last e w wl h =
    ap (λ (s : Bytes). lines_from (length s) p.install_indent s) e
    ∙ lines_from-indented (length (indented p.install_indent ls last)) p.install_indent ls last
        (omega arith) w wl h

indented-ne-nil :
    (n : ℕ) (ls : List Bytes) (last : Bytes) → last ≢ [] → 0 < length (indented n ls last)
indented-ne-nil n [] [] h = absurd (h refl)
indented-ne-nil n [] (x ∷ s) h = omega (arith, length-append (spaces n) (x ∷ s))
indented-ne-nil n (l ∷ ls) last h =
    omega (arith, length-append (indent_line n l) (b'\n' ∷ indented n ls last))

-- The install block of a plan, for a script whose lines are short enough to be printed whole, is a
-- block of the input format with an indentation of two; a project with that block gets the same
-- script.
pub print_install-indented :
    (shell : Bytes) (p : Project) (ls : List Bytes) (last : Bytes)
    → p.install ≡ indented p.install_indent ls last
    → All (Lacks b'\n') ls
    → Lacks b'\n' last
    → last ≢ []
    → All IsShort ls
    → IsShort last
    → (concat (print_install shell p)
        ≡ concat (install_heading shell p) ++ (indented 2 ls last ++ b'\n' ∷ []))
      × (script_text shell (record p { install = indented 2 ls last; install_indent = 2 })
          ≡ script_text shell p)
unfolding print_install script_text
print_install-indented shell p ls last e w wl h s sl =
    let lines = install_lines-indented p ls last e w wl h in
    let again =
      install_lines-indented (record p { install = indented 2 ls last; install_indent = 2 }) ls last
        refl w wl h in
    let some_text : (length p.install == 0) ≡ false =
      ground (arith, ap (λ (t : Bytes). length t) e, indented-ne-nil p.install_indent ls last h) in
    let printed = map (block_line "  %S\n") (ls ++ last ∷ []) in
    (
      rw (some_text, lines)
          (concat-append (install_heading shell p) printed
            ∙ ap (λ t. concat (install_heading shell p) ++ t) (concat_block ls last s sl)),
      ap (λ l. codes "#!" ++ (shell ++ (b'\n' ∷ written l))) (again ∙ sym lines),
    )
