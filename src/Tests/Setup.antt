-- ===== src/Tests/Setup.antt =====
-- src/util.c (formatting), src/env.c, src/plan.c, src/sandbox.c and the processes of src/install.c at
-- concrete inputs.
use hacman.Util.Format.{text, unsigned, vformat, format_from, conversion, convert, put_bytes}
use hacman.Util.Format.Truncated.{render, vformat-render}
use hacman.Util.Format.Buffered.{concat}
use hacman.Util.Hash.{hm_version}
use hacman.Environment.{env_get}
use hacman.Environment.Getenv.{getenv, env_get-getenv}
use hacman.Plan.{print_install, install_heading, print_env}
use hacman.Plan.Install.{print_install-indented}
use hacman.Config.Lines.{indented, script_text}
use hacman.Sandbox.{SandboxCalls, sandbox_enter, enter_abi, enter_at, add_rules, rules}
use hacman.Sandbox.Writes.{permitted, mutates, may_write, sandbox_enter-may_write}
use hacman.Install.Child.{ChildAnswers, install_child, command_child}
use hacman.Install.Child.Confined.{starts_well, outside, child-starts_well}
use hacman.Install.Child.Planned.{
  names_set, joined, response_of, planned, sandbox_names, print_env-names_set,
}
use hacman.Install.Setup.{
  Setup, exited, returns, install, temp_file, with_script, write_response, run_setup, waited,
  cleanup, reraise,
}
use hacman.Install.Setup.Results.{IsDone, install-IsDone}
use hacman.Install.Setup.Leftover.{install-remains}
use hacman.Install.Setup.Waited.{remains}
use hacman.Project.{Project, zeroed, hash}
use hacman.Base.{
  ◌⊎◌, true, false, none, some, List, [], ◌∷◌, ◌++◌, ◌≡◌, refl, arith, take, Bytes, bytes_eq, codes,
  places, pos, success, failure,
}

-- Formatting.
cut_off : vformat 6 (codes "%S is %u") (text (codes "ab") ∷ unsigned 7 ∷ []) ≡ codes "ab is "
unfolding vformat format_from conversion convert put_bytes
cut_off = refl

vformat-render_example :
    vformat 6 (codes "%S is %u") (text (codes "ab") ∷ unsigned 7 ∷ [])
    ≡ take 6 (render false (codes "%S is %u") (text (codes "ab") ∷ unsigned 7 ∷ []))
vformat-render_example = vformat-render 6 (codes "%S is %u") (text (codes "ab") ∷ unsigned 7 ∷ [])

version_text : hm_version (codes "1.0") 48879 ≡ codes "1.0+000000000000beef"
unfolding hm_version places
version_text = refl

-- The environment.
abbrev environ : List Bytes
environ = codes "HOME=/h" ∷ codes "HACMAN_CACHE=" ∷ codes "HACMAN=-q" ∷ codes "HACMAN_CACHE=/x" ∷ []

env_get-getenv_example : env_get environ ≡ record {
  options = getenv (codes "HACMAN=") environ;
  debug = getenv (codes "HACMAN_DEBUG=") environ;
  cache = getenv (codes "HACMAN_CACHE=") environ;
  home = getenv (codes "HOME=") environ;
}
env_get-getenv_example = env_get-getenv environ

-- A plan.
abbrev project : Project
project = record zeroed {
  name = codes "p";
  url = codes "http://u";
  check = hash;
  install = codes "    a\n      b";
  install_indent = 4;
  sandboxed = true;
}

print_install-indented_example :
    (concat (print_install (codes "/bin/sh") project)
      ≡ concat (install_heading (codes "/bin/sh") project)
        ++ (indented 2 (codes "a" ∷ []) (codes "  b") ++ b'\n' ∷ []))
    × (script_text (codes "/bin/sh") (record project {
      install = indented 2 (codes "a" ∷ []) (codes "  b");
      install_indent = 2;
    })
        ≡ script_text (codes "/bin/sh") project)
print_install-indented_example =
    print_install-indented (codes "/bin/sh") project (codes "a" ∷ []) (codes "  b") refl
      ((omega arith, tt), tt) (omega arith, (omega arith, (omega arith, tt))) (λ e. cc)
      (omega arith, tt) (omega arith)

-- The sandbox.
abbrev sandbox_calls : SandboxCalls
sandbox_calls = record {
  abi = pos 4;
  create = true;
  adds = λ i. true;
  no_new_privs = true;
  restrict = true;
}

sandbox_entered : (sandbox_enter sandbox_calls project (codes "/c/w") (codes "/c")).rc ≡ success
unfolding sandbox_enter enter_abi enter_at add_rules rules
sandbox_entered = refl

sandbox_enter-may_write_example :
    ((sandbox_enter sandbox_calls project (codes "/c/w") (codes "/c")).enforced ≡ true)
    × (permitted (sandbox_enter sandbox_calls project (codes "/c/w") (codes "/c")) (codes "/etc") 8
        ≡ may_write project (codes "/c/w") (codes "/c") (codes "/etc") 8)
sandbox_enter-may_write_example =
    sandbox_enter-may_write sandbox_calls project (codes "/c/w") (codes "/c") (codes "/etc") 8
      sandbox_entered (unfold mutates in refl) (omega arith)

abbrev child_answers : ChildAnswers
child_answers = record {
  alive = true;
  dup = true;
  redirect = true;
  chdir = true;
  sandbox = sandbox_calls;
  exec = true;
}

print_env-names_set_example :
    (concat (print_env project) ≡ codes "install-env: [" ++ (joined (planned hash) ++ codes "]\n"))
    × (names_set
          (install_child child_answers
            (codes "/bin/sh")
            project
            none
            (codes "m")
            (response_of hash (codes "/t/r"))
            (codes "/c/w")
            (codes "/c")
            false
            (codes "/t/s")).0
        ≡ planned hash ++ sandbox_names true)
print_env-names_set_example =
    print_env-names_set child_answers (codes "/bin/sh") project none (codes "m") (codes "/t/r")
      (codes "/c/w") (codes "/c") false (codes "/t/s") refl refl refl refl

child-starts_well_example :
    (starts_well project.sandboxed
        (codes "/c/w")
        outside
        (install_child child_answers
          (codes "/bin/sh")
          project
          none
          (codes "m")
          none
          (codes "/c/w")
          (codes "/c")
          false
          (codes "/t/s")).0
      ≡ true)
    × (starts_well project.sandboxed
          (codes "/c/w")
          outside
          (command_child child_answers
            (codes "/bin/sh")
            project
            (codes "/c/w")
            (codes "/c")
            false).0
        ≡ true)
child-starts_well_example =
    child-starts_well child_answers (codes "/bin/sh") project none (codes "m") none (codes "/c/w")
      (codes "/c") false (codes "/t/s")

-- A setup that succeeds, and one whose script exits with 3.
abbrev setup : Setup
setup = record {
  ensure = true;
  script = some (codes "/t/s");
  script_opens = true;
  script_writes = true;
  response = some (codes "/t/r");
  response_opens = true;
  response_writes = true;
  capture = true;
  pipe = true;
  fork = true;
  wait = some (exited 0);
  signal = 0;
  keep_temp = false;
}

abbrev failing : Setup
failing = record setup { wait = some (exited 3) }

setup_done : (install setup project (codes "body") false).ended ≡ returns success
unfolding install temp_file with_script write_response run_setup waited cleanup reraise
setup_done = refl

script_kept :
    remains (codes "/t/s") (install failing project (codes "body") false).actions false ≡ true
unfolding install temp_file with_script write_response run_setup waited remains bytes_eq
script_kept = refl

install-IsDone_example : IsDone setup
install-IsDone_example = install-IsDone setup project (codes "body") false (omega arith) setup_done

install-remains_example :
    ((failing.script ≡ some (codes "/t/s"))
      × ((install failing project (codes "body") false).ended ≡ returns failure)
      × (failing.signal ≡ 0))
    ⊎ ((failing.response ≡ some (codes "/t/s")) × (failing.response_writes ≡ false))
install-remains_example =
    install-remains (codes "/t/s") failing project (codes "body") false refl script_kept
