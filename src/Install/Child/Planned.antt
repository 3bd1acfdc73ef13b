-- ===== src/Install/Child/Planned.antt =====
-- src/plan.c and src/install.c: the variables of a setup, and those that a plan lists.
use hacman.Install.Child.{
  ChildAnswers, Step, sets, unsets, enters, confines, execs, Child, run_shell, unless_failed,
  confine, confined, redirected, ◌▹◌, install_env, install_argv, install_child,
}
use hacman.Sandbox.{Confinement, sandbox_enter}
use hacman.Plan.{out, print_env, response_env}
use hacman.Project.{Project, CheckKind, etag, hash, version}
use hacman.Util.Format.{vformat, format_from}
use hacman.Util.Format.Buffered.{concat}
use hacman.Base.{
  Option, none, some, List, [], ◌∷◌, ◌++◌, Bytes, codes, ◌≡◌, refl, ap, ◌∙◌, Bool, true, false, inl,
  inr, Bool-cases, Rc, success, failure,
}

-- The names that are set, in their order.
unfoldable pub names_set : List Step → List Bytes
names_set [] = []
names_set (sets name value ∷ more) = name ∷ names_set more
names_set (_ ∷ more) = names_set more

unfoldable pub joined : List Bytes → Bytes
joined [] = []
joined (name ∷ []) = name
joined (name ∷ next ∷ more) = name ++ (b',' ∷ joined (next ∷ more))

-- The response file: a check of headers has no body to keep, the other checks have.
abbrev pub response_of : CheckKind → Bytes → Option Bytes
response_of etag path = none
response_of _ path = some path

names_set-append : (xs ys : List Step) → names_set (xs ++ ys) ≡ names_set xs ++ names_set ys
unfolding names_set
names_set-append [] ys = refl
names_set-append (sets name value ∷ xs) ys = ap (◌∷◌ name) (names_set-append xs ys)
names_set-append (unsets name ∷ xs) ys = names_set-append xs ys
names_set-append (enters path ∷ xs) ys = names_set-append xs ys
names_set-append (confines c ∷ xs) ys = names_set-append xs ys
names_set-append (execs argv ∷ xs) ys = names_set-append xs ys

-- The variables that say what the setup is for; a check of headers has no response.
abbrev pub planned : CheckKind → List Bytes
planned k =
    codes "HACMAN_NAME"
    ∷ codes "HACMAN_URL"
    ∷ codes "HACMAN_CHECK"
    ∷ codes "HACMAN_VERSION"
    ∷ codes "HACMAN_PREVIOUS"
    ∷ elim k [
      | etag ↦ []
      | hash ↦ codes "HACMAN_RESPONSE" ∷ []
      | version ↦ codes "HACMAN_RESPONSE" ∷ []
    ]

-- The variables of a sandbox.
abbrev pub sandbox_names : Bool → List Bytes
sandbox_names true = codes "TMPDIR" ∷ codes "HACMAN_CACHE" ∷ []
sandbox_names false = []

env_lem :
    (k : CheckKind)
    → concat (
        out "install-env: [HACMAN_NAME,HACMAN_URL,HACMAN_CHECK,HACMAN_VERSION,HACMAN_PREVIOUS" []
        ∷ (response_env k ++ out "]\n" [] ∷ []))
      ≡ codes "install-env: [" ++ (joined (planned k) ++ codes "]\n")
unfolding concat out vformat format_from response_env joined
env_lem etag = refl
env_lem hash = refl
env_lem version = refl

install_env-planned :
    (k : CheckKind) (p : Project) (old : Option Bytes) (new path : Bytes)
    → names_set (install_env p old new (response_of k path)) ≡ planned k
unfolding names_set install_env
install_env-planned etag p old new path = refl
install_env-planned hash p old new path = refl
install_env-planned version p old new path = refl

run_shell-names : (k : ChildAnswers) (argv : List Bytes) → names_set (run_shell k argv).0 ≡ []
unfolding run_shell names_set
run_shell-names k argv = elim (Bool-cases k.exec) [ inl e ↦ rw e refl | inr e ↦ rw e refl ]

unless_failed-names :
    (rc : Rc) (rest : Child) → names_set rest.0 ≡ [] → names_set (unless_failed rc rest).0 ≡ []
unfolding names_set
unless_failed-names success rest h = h
unless_failed-names failure rest h = refl

confine-names :
    (b : Bool) (c : Confinement) (workdir cache_dir : Bytes) (rest : Child)
    → names_set rest.0 ≡ []
    → names_set (confine b c workdir cache_dir rest).0 ≡ sandbox_names b
unfolding confine names_set
confine-names true c workdir cache_dir rest h =
    ap (λ (xs : List Bytes). codes "TMPDIR" ∷ codes "HACMAN_CACHE" ∷ xs)
      (unless_failed-names c.rc rest h)
confine-names false c workdir cache_dir rest h = h

redirected_open :
    (k : ChildAnswers) (trace : Bool) (rest : Child)
    → k.alive ≡ true
    → k.dup ≡ true
    → k.redirect ≡ true
    → redirected k trace rest ≡ rest
unfolding redirected
redirected_open k true rest ha hd hr = rw (ha, hd) refl
redirected_open k false rest ha hd hr = rw (ha, hr) refl

-- The line `install-env` of a plan lists, in their order, the variables that a setup sets in its
-- work directory, for a setup with a response file where the check has a body; a sandboxed setup
-- sets TMPDIR and HACMAN_CACHE behind them, which no plan lists.
pub print_env-names_set :
    (k : ChildAnswers) (shell : Bytes) (p : Project) (old : Option Bytes)
    (new path workdir cache_dir : Bytes) (trace : Bool) (script : Bytes)
    → k.alive ≡ true
    → k.dup ≡ true
    → k.redirect ≡ true
    → k.chdir ≡ true
    → (concat (print_env p) ≡ codes "install-env: [" ++ (joined (planned p.check) ++ codes "]\n"))
      × (names_set
            (install_child k shell p old new
              (response_of p.check path)
              workdir
              cache_dir
              trace
              script).0
          ≡ planned p.check ++ sandbox_names p.sandboxed)
unfolding print_env install_child confined names_set
print_env-names_set k shell p old new path workdir cache_dir trace script ha hd hr hc =
    let env = install_env p old new (response_of p.check path) in
    let last =
      confine-names p.sandboxed (sandbox_enter k.sandbox p workdir cache_dir) workdir cache_dir
        (run_shell k (install_argv shell trace script))
        (run_shell-names k (install_argv shell trace script)) in
    let inside =
      (enters workdir ∷ [])
      ▹ confined k p workdir cache_dir (run_shell k (install_argv shell trace script)) in
    let steps : install_child k shell p old new (response_of p.check path) workdir cache_dir trace
          script
        ≡ env ▹ inside =
      redirected_open k trace _ ha hd hr ∙ rw hc refl in
    (
      env_lem p.check,
      ap (λ (c : Child). names_set c.0) steps
          ∙ names_set-append env inside.0
          ∙ ap (λ (xs : List Bytes). xs ++ names_set inside.0)
              (install_env-planned p.check p old new path)
          ∙ ap (◌++◌ (planned p.check)) last,
    )
