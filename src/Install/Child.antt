-- ===== src/Install/Child.antt =====
-- src/install.c, the forked child of `hm_install` and of `hm_command_run`: its environment, its
-- directory, its sandbox, and the shell that takes its place.
pub mod Confined
pub mod Planned
use hacman.Plan.{check_name}
use hacman.Project.{Project, name_max, url_max, command_max}
use hacman.Sandbox.{SandboxCalls, Confinement, sandbox_enter}
use hacman.Util.Text.{str_copy}
use hacman.Base.{
  ℕ, ◌+◌, Bool, true, false, not, ◌&&◌, ◌||◌, Option, none, some, List, [], ◌∷◌, ◌++◌,
  if◌then◌else◌, Bytes, codes, Rc, success, failure,
}

-- `true` is success; `alive` is `child_signals_init`.
pub record ChildAnswers : Type 0 where
  pub alive : Bool
  pub dup : Bool
  pub redirect : Bool
  pub chdir : Bool
  pub sandbox : SandboxCalls
  pub exec : Bool

pub data Step : Type 0 where
  sets : Bytes → Bytes → Step
  unsets : Bytes → Step
  enters : Bytes → Step
  confines : Confinement → Step
  execs : List Bytes → Step

-- The steps, and the exit code of a child that stays hacman.
abbrev pub Child : Type 0
Child = List Step × Option ℕ

abbrev pub quits : ℕ → Child
quits code = ([], some code)

infixr 5 ◌▹◌
abbrev pub ◌▹◌ : List Step → Child → Child
steps ▹ c = (steps ++ c.0, c.1)

-- `execv` and what follows when it returns.
unfoldable pub run_shell : ChildAnswers → List Bytes → Child
run_shell k argv = if k.exec then (execs argv ∷ [], none) else (execs argv ∷ [], some 127)

abbrev pub unless_failed : Rc → Child → Child
unless_failed success rest = rest
unless_failed failure rest = quits 126

-- `if (p->sandboxed) ...`
unfoldable pub confine : Bool → Confinement → Bytes → Bytes → Child → Child
confine true c workdir cache_dir rest =
    (sets (codes "TMPDIR") workdir ∷ sets (codes "HACMAN_CACHE") cache_dir ∷ confines c ∷ [])
    ▹ unless_failed c.rc rest
confine false c workdir cache_dir rest = rest

unfoldable pub confined : ChildAnswers → Project → Bytes → Bytes → Child → Child
confined k p workdir cache_dir rest =
    confine p.sandboxed (sandbox_enter k.sandbox p workdir cache_dir) workdir cache_dir rest

-- The redirections: stderr to the pipe with --trace, or both streams to the capture.
unfoldable pub redirected : ChildAnswers → Bool → Child → Child
redirected k trace rest =
    if not k.alive
    then quits 126
    else if trace && not k.dup
    then quits 126
    else if not trace && not k.redirect
    then quits 126
    else rest

abbrev pub response_env : Option Bytes → Step
response_env none = unsets (codes "HACMAN_RESPONSE")
response_env (some path) = sets (codes "HACMAN_RESPONSE") path

abbrev pub old_or_empty : Option Bytes → Bytes
old_or_empty none = []
old_or_empty (some mark) = mark

-- The variables of a setup.
unfoldable pub install_env : Project → Option Bytes → Bytes → Option Bytes → List Step
install_env p old new response =
    sets (codes "HACMAN_NAME") (str_copy (name_max + 1) p.name)
    ∷ sets (codes "HACMAN_URL") (str_copy (url_max + 1) p.url)
    ∷ sets (codes "HACMAN_CHECK") (check_name p.check)
    ∷ sets (codes "HACMAN_VERSION") new
    ∷ sets (codes "HACMAN_PREVIOUS") (old_or_empty old)
    ∷ response_env response
    ∷ unsets (codes "HACMAN_WORKDIR")
    ∷ []

abbrev pub install_argv : Bytes → Bool → Bytes → List Bytes
install_argv shell false script = shell ∷ codes "-e" ∷ script ∷ []
install_argv shell true script = shell ∷ codes "-e" ∷ codes "-x" ∷ script ∷ []

-- The child of `hm_install`.
unfoldable pub install_child :
    ChildAnswers
    → Bytes
    → Project
    → Option Bytes
    → Bytes
    → Option Bytes
    → Bytes
    → Bytes
    → Bool
    → Bytes
    → Child
install_child k shell p old new response workdir cache_dir trace script = redirected k trace (
    install_env p old new response
    ▹ (if not k.chdir
        then quits 126
        else (enters workdir ∷ [])
          ▹ confined k p workdir cache_dir (run_shell k (install_argv shell trace script))))

abbrev pub command_env : Project → Bytes → List Step
command_env p workdir =
    sets (codes "HACMAN_NAME") (str_copy (name_max + 1) p.name)
    ∷ sets (codes "HACMAN_WORKDIR") workdir
    ∷ unsets (codes "HACMAN_URL")
    ∷ unsets (codes "HACMAN_CHECK")
    ∷ unsets (codes "HACMAN_VERSION")
    ∷ unsets (codes "HACMAN_PREVIOUS")
    ∷ unsets (codes "HACMAN_RESPONSE")
    ∷ []

abbrev pub command_argv : Bytes → Bool → Bytes → List Bytes
command_argv shell false command = shell ∷ codes "-c" ∷ command ∷ []
command_argv shell true command = shell ∷ codes "-x" ∷ codes "-c" ∷ command ∷ []

-- The child of `hm_command_run`.
unfoldable pub command_child : ChildAnswers → Bytes → Project → Bytes → Bytes → Bool → Child
command_child k shell p workdir cache_dir trace = redirected k trace (
    if not k.chdir
    then quits 127
    else (enters workdir ∷ command_env p workdir)
      ▹ confined k p workdir cache_dir
          (run_shell k (command_argv shell trace (str_copy (command_max + 1) p.command))))
