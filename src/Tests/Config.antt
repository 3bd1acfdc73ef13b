-- ===== src/Tests/Config.antt =====
-- src/config.c at concrete inputs.
use hacman.Project.{Project, zeroed, EmbeddedFile, command_kind, never}
use hacman.Config.State.{Environment}
use hacman.Config.Path.{valid_relative_path, valid_relative_path_iff, IsBelow}
use hacman.Config.Template.{expand_template, checked, expand_from}
use hacman.Config.Template.Bounds.{expand_from-fuel, expand_template_bounds}
use hacman.Config.Template.Pieces.{
  Piece, literal, variable, IsPiece, render, contents, expand_template-render,
}
use hacman.Config.Lines.{written, file_text, file_text-indented, indented}
use hacman.Config.Events.{
  Events, stream_end, event, stream_start, document_start, mapping_start, scalar, mapping_end,
  document_end,
}
use hacman.Base.{
  ◌≤◌, ◌<◌, true, false, none, some, List, [], ◌∷◌, ◌≡◌, ◌↔◌, ◌⊎◌, All, refl, arith, length, get_or,
  Bytes, codes, pos,
}

-- Paths and templates.
valid_relative_path_iff_example :
    (valid_relative_path (codes "a/b.c") 128 ≡ true)
    ↔ ((length (codes "a/b.c") ≤ 128) × IsBelow (codes "a/b.c"))
valid_relative_path_iff_example = valid_relative_path_iff (codes "a/b.c") 128

climbs : valid_relative_path (codes "a/../b") 128 ≡ false
unfolding valid_relative_path
climbs = refl

abbrev env : Environment
env = record { home = some (codes "/h"); getenv = λ n. none }

abbrev home_bin : List Piece
home_bin = variable (codes "HOME") (codes "/h") ∷ literal (codes "/bin") ∷ []

expand_from-fuel_example :
    expand_from env 64 "bin-path" 3 9
      (record { written = []; too_long = false })
      (codes "a{{HOME}}")
    ≡ expand_from env 64 "bin-path" 3 20
        (record { written = []; too_long = false })
        (codes "a{{HOME}}")
expand_from-fuel_example =
    expand_from-fuel env 64 "bin-path" 3 9 20 (record { written = []; too_long = false })
      (codes "a{{HOME}}") (omega arith) (omega arith)

expand_template_bounds_example :
    (length (codes "/h/bin") < 64) × ((true ≡ false) ⊎ (get_or (codes "/h/bin") 0 0 ≡ b'/'))
unfolding expand_template
expand_template_bounds_example =
    expand_template_bounds env 64 "bin-path" 3 (render home_bin) true {t = codes "/h/bin"}
      (omega arith) refl

home_bin-IsPiece : All (IsPiece env) home_bin
home_bin-IsPiece = ground arith

expand_template-render_example :
    expand_template env (render home_bin) "bin-path" 64 3 true
    ≡ checked "bin-path" 3 true (record { written = contents home_bin; too_long = false })
unfolding expand_template
expand_template-render_example =
    expand_template-render env 64 "bin-path" 3 home_bin true home_bin-IsPiece (omega arith)

-- Blocks.
abbrev lines : List Bytes
lines = codes "all:" ∷ [] ∷ []

abbrev makefile : EmbeddedFile
makefile = record {
  path = codes "Makefile";
  content = indented 4 lines (codes "x");
  content_indent = 4;
  line = 2;
}

file_text-indented_example : file_text makefile ≡ written (codes "all:" ∷ [] ∷ codes "x" ∷ [])
file_text-indented_example =
    file_text-indented makefile lines (codes "x") refl (ground arith) (ground arith) (ground arith)

-- A whole project file.
abbrev events : Events
events = event stream_start (
    event (document_start 1) (
      event (mapping_start 1) (
        event (scalar (codes "name") (codes "demo") 1) (
          event (scalar (codes "schedule") (codes "never") 2) (
            event (scalar (codes "command") (codes "make") 3)
              (event (mapping_end 4) (event document_end stream_end)))))))

abbrev demo : Project
demo = record zeroed {
  kind = command_kind;
  name = codes "demo";
  command = codes "make";
  sched_kind = never;
  sched_interval = pos 86400;
  schedule_explicit = true;
  sandboxed = true;
  line = 1;
}
