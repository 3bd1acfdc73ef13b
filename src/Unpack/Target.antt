-- ===== src/Unpack/Target.antt =====
-- src/unpack.c: the target of an extraction in terms of the project's blocks.
use hacman.Unpack.{Store, UnpackCalls, mode, has_shebang, extracted_text, script_file, unpack}
use hacman.Unpack.Extracted.{IsSpared, IsExtracted, ScriptIsExtracted, unpack-Whole}
use hacman.Config.Lines.{file_text, file_lines, written, lines_from}
use hacman.Environment.{has_prefix}
use hacman.Project.{Project, EmbeddedFile, file_path_max}
use hacman.Util.Text.{str_copy}
use hacman.Base.{
  ℕ, ◌+◌, ◌<◌, Bool, true, false, some, List, [], ◌∷◌, ◌++◌, ◌==◌, length, All, All-imp, Bytes,
  codes, failure, ◌≡◌, ◌⊎◌, refl, sym, ◌∙◌, arith, inl, inr, Bool-cases,
}

-- The lines of a block without their indentation, each with its LF.
abbrev pub block_text : ℕ → Bytes → Bytes
block_text indent block = written (lines_from (length block) indent block)

-- The first two bytes are `#!`.
abbrev pub IsScript : Bytes → Type 0
IsScript text = (rest : Bytes) × (text ≡ codes "#!" ++ rest)

-- The text of a script: that of the block when it begins with `#!`, or else the block behind a line
-- that names the shell.
pub data ScriptText (shell block : Bytes) : Bytes → Type 0 where
  own_line : IsScript block → ScriptText shell block block
  shell_line : ¬ IsScript block → ScriptText shell block (codes "#!" ++ (shell ++ (b'\n' ∷ block)))

-- At the path stands a file with this mode, and its text is a script of the block.
abbrev pub HasScript : Bytes → Store → Bytes → Bytes → Type 0
HasScript shell after path block =
    (text : Bytes) × (after path ≡ some (text, 448)) × ScriptText shell block text

-- The script of the command, or else of the setup, or no script.
pub data HoldsScript (shell : Bytes) (p : Project) (after : Store) : Type 0 where
  of_command :
      0 < length p.command
      → HasScript shell after (codes "command.sh") (block_text 0 p.command)
      → HoldsScript shell p after
  of_install :
      length p.command ≡ 0
      → 0 < length p.install
      → HasScript shell after (codes "install.sh") (block_text p.install_indent p.install)
      → HoldsScript shell p after
  of_neither : length p.command ≡ 0 → length p.install ≡ 0 → HoldsScript shell p after

-- An embedded file with its text and the mode 0600.
abbrev pub HoldsFile : Store → EmbeddedFile → Type 0
HoldsFile after f =
    after (str_copy (file_path_max + 1) f.path) ≡ some (block_text f.content_indent f.content, 384)

IsExtracted-HoldsFile :
    (shell : Bytes) (after : Store) (f : EmbeddedFile)
    → IsExtracted shell false after f
    → HoldsFile after f
unfolding extracted_text mode file_text file_lines
IsExtracted-HoldsFile shell after f h = h

has_prefix-IsScript : (text : Bytes) → has_prefix (codes "#!") text ≡ true → IsScript text
unfolding has_prefix
has_prefix-IsScript [] h = absurd (ground arith)
has_prefix-IsScript (a ∷ []) h = absurd (ground arith)
has_prefix-IsScript (a ∷ b ∷ s) h =
    let first : a ≡ b'#' = ground arith in
    let second : b ≡ b'!' = ground arith in (s, rw (first, second) refl)

IsScript-has_prefix : (text : Bytes) → IsScript text → has_prefix (codes "#!") text ≡ true
unfolding has_prefix
IsScript-has_prefix text (rest, e) = rw e refl

-- A first line that begins with `#!` is a text that does.
has_prefix-line :
    (line more : Bytes)
    → has_prefix (codes "#!") (line ++ b'\n' ∷ more) ≡ has_prefix (codes "#!") line
unfolding has_prefix
has_prefix-line [] more = refl
has_prefix-line (a ∷ []) more = ground arith
has_prefix-line (a ∷ b ∷ s) more = refl

has_shebang-written :
    (lines : List Bytes) → has_shebang lines ≡ has_prefix (codes "#!") (written lines)
unfolding has_shebang written
has_shebang-written [] = unfold has_prefix in refl
has_shebang-written (l ∷ ls) = sym (has_prefix-line l (written ls))

extracted_text-ScriptText :
    (shell : Bytes) (f : EmbeddedFile)
    → ScriptText shell (block_text f.content_indent f.content) (extracted_text shell f true)
unfolding extracted_text file_text file_lines
extracted_text-ScriptText shell f =
    let text = block_text f.content_indent f.content in
    let same = has_shebang-written (file_lines f) in
    elim (Bool-cases (has_prefix (codes "#!") text)) [
      | inl e ↦ rw (same ∙ e) (own_line (has_prefix-IsScript text e))
      | inr e ↦ rw (same ∙ e) (
          shell_line
            (λ (h : IsScript text). absurd (ground (arith, e, IsScript-has_prefix text h))))
    ]

script-HoldsScript :
    (shell : Bytes) (p : Project) (after : Store)
    → ScriptIsExtracted shell (script_file p) after
    → HoldsScript shell p after
unfolding script_file str_copy mode
script-HoldsScript shell p after h = elim (Bool-cases (length p.command == 0)) [
  | inr e ↦
      let f : EmbeddedFile = record {
        path = codes "command.sh";
        content = p.command;
        content_indent = 0;
        line = 0;
      } in
      let there : IsExtracted shell true after f = rw e at h in
      of_command (ground (arith, e))
        (extracted_text shell f true, there, extracted_text-ScriptText shell f)
  | inl e ↦ elim (Bool-cases (length p.install == 0)) [
    | inr g ↦
        let f : EmbeddedFile = record {
          path = codes "install.sh";
          content = p.install;
          content_indent = p.install_indent;
          line = 0;
        } in
        let there : IsExtracted shell true after f = rw (e, g) at h in
        of_install (ground (arith, e)) (ground (arith, g))
          (extracted_text shell f true, there, extracted_text-ScriptText shell f)
    | inl g ↦ of_neither (ground (arith, e)) (ground (arith, g))
  ]
]

-- When `hm_unpack` returns 0, each embedded file stands in the target at its path with the lines of
-- its block and the mode 0600, and the command of the project as command.sh, or else its setup as
-- install.sh, stands there with the mode 0700, behind a line that names the shell unless it has one
-- of its own. Whatever the result is, a name `q` that was taken before still has its old file.
pub unpack-HoldsScript :
    (calls : ℕ → UnpackCalls) (made : Bytes → Bool) (is_dir root_opens : Bool) (shell : Bytes)
    (p : Project) (target : Bytes) (store : Store) (q : Bytes)
    → let after = unpack calls made is_dir root_opens shell p target store in
      IsSpared store after.0 q
      × ((after.1 ≡ failure) ⊎ (All (HoldsFile after.0) p.files × HoldsScript shell p after.0))
unpack-HoldsScript calls made is_dir root_opens shell p target store q =
    let after = unpack calls made is_dir root_opens shell p target store in
    let (spared, result) = unpack-Whole calls made is_dir root_opens shell p target store q in
    (
      spared,
      elim result [
        | inl bad ↦ inl bad
        | inr (files, script) ↦ inr (
          All-imp p.files (IsExtracted-HoldsFile shell after.0) files,
          script-HoldsScript shell p after.0 script,
        )
      ],
    )
