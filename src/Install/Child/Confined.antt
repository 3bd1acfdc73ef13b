-- ===== src/Install/Child/Confined.antt =====
-- src/install.c: the directory and the sandbox in which a shell is started.
use hacman.Install.Child.{
  ChildAnswers, Step, enters, confines, execs, Child, quits, ◌▹◌, run_shell, unless_failed, confine,
  confined, redirected, install_env, install_argv, install_child, command_env, command_argv,
  command_child,
}
use hacman.Sandbox.{SandboxCalls, Confinement, sandbox_enter}
use hacman.Sandbox.Writes.{mutates, sandbox_enter-may_write}
use hacman.Project.{Project, command_max}
use hacman.Util.Text.{str_copy}
use hacman.Base.{
  ℕ, ◌+◌, Bool, true, false, not, ◌&&◌, ◌||◌, Option, none, some, List, [], ◌∷◌, ◌++◌,
  if◌then◌else◌, Bytes, bytes_eq, bytes_eq_refl, Rc, success, failure, ◌≡◌, refl, ◌∙◌, arith, inl,
  inr, Bool-cases,
}

-- What is known when a shell is started: the directory, and whether the process is confined.
pub record Place : Type 0 where
  pub inside : Bool
  pub bound : Bool

abbrev pub outside : Place
outside = record { inside = false; bound = false }

-- Every shell starts in `workdir`, and confined where `sandboxed` says so.
unfoldable pub starts_well : Bool → Bytes → Place → List Step → Bool
starts_well sandboxed workdir at [] = true
starts_well sandboxed workdir at (enters d ∷ more) =
    starts_well sandboxed workdir (record at { inside = bytes_eq d workdir }) more
starts_well sandboxed workdir at (confines c ∷ more) =
    starts_well sandboxed workdir (record at { bound = c.enforced }) more
starts_well sandboxed workdir at (execs argv ∷ more) =
    at.inside && (not sandboxed || at.bound) && starts_well sandboxed workdir at more
starts_well sandboxed workdir at (_ ∷ more) = starts_well sandboxed workdir at more

run_shell-starts_well :
    (sandboxed : Bool) (workdir : Bytes) (at : Place) (k : ChildAnswers) (argv : List Bytes)
    → at.inside ≡ true
    → (not sandboxed || at.bound) ≡ true
    → starts_well sandboxed workdir at (run_shell k argv).0 ≡ true
unfolding run_shell starts_well
run_shell-starts_well sandboxed workdir at k argv i b = elim (Bool-cases k.exec) [
  | inl e ↦ rw (e, i, b) refl
  | inr e ↦ rw (e, i, b) refl
]

entered-enforced :
    (k : SandboxCalls) (p : Project) (workdir cache_dir : Bytes)
    → (sandbox_enter k p workdir cache_dir).rc ≡ success
    → (sandbox_enter k p workdir cache_dir).enforced ≡ true
entered-enforced k p workdir cache_dir h =
    (sandbox_enter-may_write k p workdir cache_dir [] 1 h (unfold mutates in refl) (omega arith)).0

unless_failed-starts_well :
    (workdir : Bytes) (k : ChildAnswers) (argv : List Bytes) (c : Confinement) (rc : Rc)
    → (rc ≡ success → c.enforced ≡ true)
    → starts_well true workdir
        (record { inside = true; bound = c.enforced })
        (unless_failed rc (run_shell k argv)).0
      ≡ true
unfolding starts_well
unless_failed-starts_well workdir k argv c success h =
    run_shell-starts_well true workdir (record { inside = true; bound = c.enforced }) k argv refl
      (h refl)
unless_failed-starts_well workdir k argv c failure h = refl

confine-starts_well :
    (sandboxed : Bool) (c : Confinement) (k : ChildAnswers) (workdir cache_dir : Bytes)
    (argv : List Bytes)
    → (c.rc ≡ success → c.enforced ≡ true)
    → starts_well sandboxed workdir
        (record { inside = true; bound = false })
        (confine sandboxed c workdir cache_dir (run_shell k argv)).0
      ≡ true
unfolding confine starts_well
confine-starts_well true c k workdir cache_dir argv h =
    unless_failed-starts_well workdir k argv c c.rc h
confine-starts_well false c k workdir cache_dir argv h =
    run_shell-starts_well false workdir (record { inside = true; bound = false }) k argv refl refl

confined-starts_well :
    (k : ChildAnswers) (p : Project) (workdir cache_dir : Bytes) (argv : List Bytes)
    → starts_well p.sandboxed workdir
        (record { inside = true; bound = false })
        (confined k p workdir cache_dir (run_shell k argv)).0
      ≡ true
unfolding confined
confined-starts_well k p workdir cache_dir argv =
    confine-starts_well p.sandboxed (sandbox_enter k.sandbox p workdir cache_dir) k workdir
      cache_dir argv (entered-enforced k.sandbox p workdir cache_dir)

redirected-starts_well :
    (k : ChildAnswers) (trace sandboxed : Bool) (workdir : Bytes) (rest : Child)
    → starts_well sandboxed workdir outside rest.0 ≡ true
    → starts_well sandboxed workdir outside (redirected k trace rest).0 ≡ true
unfolding redirected starts_well
redirected-starts_well k trace sandboxed workdir rest h = elim (Bool-cases k.alive) [
  | inr e ↦ rw e refl
  | inl e ↦ elim (Bool-cases (trace && not k.dup)) [
    | inl f ↦ rw (e, f) refl
    | inr f ↦ elim (Bool-cases (not trace && not k.redirect)) [
      | inl g ↦ rw (e, f, g) refl
      | inr g ↦ rw (e, f, g) h
    ]
  ]
]

-- Setting variables changes neither the directory nor the sandbox.
install_env_skip :
    (sandboxed : Bool) (workdir : Bytes) (at : Place) (p : Project) (old : Option Bytes)
    (new : Bytes) (response : Option Bytes) (more : List Step)
    → starts_well sandboxed workdir at (install_env p old new response ++ more)
      ≡ starts_well sandboxed workdir at more
unfolding starts_well install_env
install_env_skip sandboxed workdir at p old new none more = refl
install_env_skip sandboxed workdir at p old new (some path) more = refl

entering :
    (sandboxed : Bool) (workdir : Bytes) (more : List Step)
    → starts_well sandboxed workdir (record { inside = true; bound = false }) more ≡ true
    → starts_well sandboxed workdir outside (enters workdir ∷ more) ≡ true
unfolding starts_well
entering sandboxed workdir more h = rw (bytes_eq_refl workdir) h

chdir_lem :
    (sandboxed : Bool) (workdir : Bytes) (ok : Bool) (code : ℕ) (started : Child)
    → starts_well sandboxed workdir outside started.0 ≡ true
    → starts_well sandboxed workdir outside (if not ok then quits code else started).0 ≡ true
unfolding starts_well
chdir_lem sandboxed workdir true code started h = h
chdir_lem sandboxed workdir false code started h = refl

install_child-starts_well :
    (k : ChildAnswers) (shell : Bytes) (p : Project) (old : Option Bytes) (new : Bytes)
    (response : Option Bytes) (workdir cache_dir : Bytes) (trace : Bool) (script : Bytes)
    → starts_well p.sandboxed workdir outside
        (install_child k shell p old new response workdir cache_dir trace script).0
      ≡ true
unfolding install_child
install_child-starts_well k shell p old new response workdir cache_dir trace script =
    let started =
      (enters workdir ∷ [])
      ▹ confined k p workdir cache_dir (run_shell k (install_argv shell trace script)) in
    redirected-starts_well k trace p.sandboxed workdir
      (install_env p old new response ▹ (if not k.chdir then quits 126 else started))
      (install_env_skip p.sandboxed workdir outside p old new response _
        ∙ chdir_lem p.sandboxed workdir k.chdir 126 started (
            entering p.sandboxed workdir _
              (confined-starts_well k p workdir cache_dir (install_argv shell trace script))))

command_child-starts_well :
    (k : ChildAnswers) (shell : Bytes) (p : Project) (workdir cache_dir : Bytes) (trace : Bool)
    → starts_well p.sandboxed workdir outside (command_child k shell p workdir cache_dir trace).0
      ≡ true
unfolding command_child
command_child-starts_well k shell p workdir cache_dir trace =
    let argv = command_argv shell trace (str_copy (command_max + 1) p.command) in
    let started =
      (enters workdir ∷ command_env p workdir)
      ▹ confined k p workdir cache_dir (run_shell k argv) in
    redirected-starts_well k trace p.sandboxed workdir (if not k.chdir then quits 127 else started)
      (chdir_lem p.sandboxed workdir k.chdir 127 started (
        entering p.sandboxed workdir _
          (unfold starts_well in confined-starts_well k p workdir cache_dir argv)))

-- Whatever the kernel answers, the shell of a setup and of a command starts in the project's work
-- directory, and a sandboxed project's only once its sandbox is enforced.
pub child-starts_well :
    (k : ChildAnswers) (shell : Bytes) (p : Project) (old : Option Bytes) (new : Bytes)
    (response : Option Bytes) (workdir cache_dir : Bytes) (trace : Bool) (script : Bytes)
    → (starts_well p.sandboxed workdir outside
          (install_child k shell p old new response workdir cache_dir trace script).0
        ≡ true)
      × (starts_well p.sandboxed workdir outside (command_child k shell p workdir cache_dir trace).0
          ≡ true)
child-starts_well k shell p old new response workdir cache_dir trace script = (
  install_child-starts_well k shell p old new response workdir cache_dir trace script,
  command_child-starts_well k shell p workdir cache_dir trace,
)
