-- ===== src/Tests/Unpacking.antt =====
-- src/unpack.c at concrete inputs.
use hacman.Config.Lines.{
  file_text, file_lines, file_next_line, cut_line, lines_from, strip, written,
}
use hacman.Environment.{has_prefix}
use hacman.Install.Files.{workdir_ensure, mkdir_p, make_dirs}
use hacman.Cache.Save.{dirs_from}
use hacman.Project.{Project, EmbeddedFile, zeroed}
use hacman.Unpack.{
  Store, UnpackCalls, set_file, descend, extracted_text, mode, has_shebang, unpack_file,
  unpack_files, script_file, script_conflicts, conflicts, unpack_script, unpack,
}
use hacman.Unpack.Extracted.{IsSpared}
use hacman.Unpack.Target.{HoldsFile, HoldsScript, unpack-HoldsScript}
use hacman.Util.Text.{str_copy}
use hacman.Base.{
  ℕ, true, false, Option, none, some, [], ◌∷◌, ◌++◌, ◌≡◌, ◌⊎◌, refl, All, Bytes, bytes_eq, codes,
  failure, split_at,
}

abbrev willing : UnpackCalls
willing = record {
  dups = true;
  makes = λ name. true;
  enters = λ name. true;
  opens = true;
  fdopens = true;
  writes = true;
  closes = true;
  unlinks = true;
}

abbrev patch : EmbeddedFile
patch = record { path = codes "src/a"; content = codes "  x"; content_indent = 2; line = 4 }

abbrev tool : Project
tool = record zeroed { install = codes "make"; files = patch ∷ [] }

abbrev empty : Store
empty q = none

abbrev extracted : Bytes → Option (Bytes × ℕ)
extracted =
    (unpack (λ i. willing) (λ d. true) true true (codes "/bin/sh") tool (codes "out") empty).0

patch_extracted : extracted (codes "src/a") ≡ some (codes "x" ++ (10 ∷ []), 384)
unfolding unpack script_file script_conflicts conflicts workdir_ensure mkdir_p make_dirs dirs_from
    unpack_files unpack_file unpack_script descend extracted_text file_text file_lines set_file
    lines_from file_next_line cut_line strip written has_prefix has_shebang str_copy split_at
    bytes_eq mode
patch_extracted = refl

-- A file below the script's name is in the way.
taken_name :
    script_conflicts (script_file tool) (record patch { path = codes "install.sh/a" } ∷ []) ≡ true
unfolding script_conflicts script_file conflicts has_prefix
taken_name = refl

longer_name :
    script_conflicts (script_file tool) (record patch { path = codes "install.sh.in" } ∷ []) ≡ false
unfolding script_conflicts script_file conflicts has_prefix
longer_name = refl

unpack-HoldsScript_example :
    let after =
      unpack (λ i. willing) (λ d. true) true true (codes "/bin/sh") tool (codes "out") empty in
    IsSpared empty after.0 (codes "src/a")
    × ((after.1 ≡ failure)
        ⊎ (All (HoldsFile after.0) tool.files × HoldsScript (codes "/bin/sh") tool after.0))
unpack-HoldsScript_example =
    unpack-HoldsScript (λ i. willing) (λ d. true) true true (codes "/bin/sh") tool (codes "out")
      empty (codes "src/a")
