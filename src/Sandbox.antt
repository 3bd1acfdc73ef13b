-- ===== src/Sandbox.antt =====
-- src/sandbox.c: the Landlock rules for a project's setup and the calls that enforce them. An
-- access right is the position of its bit, a mask is the list of its bits.
pub mod Writes
use hacman.Project.{Project, SandboxWriteDir}
use hacman.Base.{
  ℕ, suc, Bool, true, false, not, ◌&&◌, ◌||◌, List, [], ◌∷◌, ◌++◌, map, leb, ltb, ◌==◌,
  if◌then◌else◌, Bytes, bytes_eq, codes, ℤ, pos, negsuc, Rc, success, failure,
}

abbrev pub execute : ℕ
execute = 0

abbrev pub write_file : ℕ
write_file = 1

abbrev pub read_file : ℕ
read_file = 2

abbrev pub read_dir : ℕ
read_dir = 3

-- The bits from REMOVE_DIR to MAKE_SYM.
abbrev pub dir_changes : List ℕ
dir_changes = 4 ∷ 5 ∷ 6 ∷ 7 ∷ 8 ∷ 9 ∷ 10 ∷ 11 ∷ 12 ∷ []

abbrev pub refer : ℕ
refer = 13

abbrev pub truncate : ℕ
truncate = 14

abbrev pub ioctl_dev : ℕ
ioctl_dev = 15

abbrev pub resolve_unix : ℕ
resolve_unix = 16

abbrev pub min_abi : ℕ
min_abi = 3

unfoldable pub handled_access : ℕ → List ℕ
handled_access abi =
    execute
    ∷ write_file
    ∷ read_file
    ∷ read_dir
    ∷ (dir_changes
        ++ ((if leb 2 abi then refer ∷ [] else [])
            ++ ((if leb 3 abi then truncate ∷ [] else [])
                ++ ((if leb 5 abi then ioctl_dev ∷ [] else [])
                    ++ (if leb 9 abi then resolve_unix ∷ [] else [])))))

unfoldable pub readonly_access : ℕ → List ℕ
readonly_access abi = execute ∷ read_file ∷ read_dir ∷ (if leb 9 abi then resolve_unix ∷ [] else [])

-- The arguments of `add_path_rule`.
pub record Rule : Type 0 where
  pub path : Bytes
  pub access : List ℕ
  pub directory : Bool

abbrev pub rule : List ℕ → Bytes → Rule
rule access path = record { path = path; access = access; directory = true }

abbrev pub write_dir_rules : ℕ → List SandboxWriteDir → List Rule
write_dir_rules abi dirs = map (λ (d : SandboxWriteDir). rule (handled_access abi) d.path) dirs

-- The calls of `add_path_rule` in their order.
unfoldable pub rules : ℕ → Project → Bytes → Bytes → List Rule
rules abi p workdir cache_dir =
    rule (readonly_access abi) (codes "/")
    ∷ rule (handled_access abi) workdir
    ∷ rule (handled_access abi) cache_dir
    ∷ (write_dir_rules abi p.sandbox_write_dirs
        ++ (record { path = codes "/dev/null"; access = write_file ∷ []; directory = false } ∷ []))

-- The answers; `adds` is the result of the `i`-th call of `add_path_rule`.
pub record SandboxCalls : Type 0 where
  pub abi : ℤ
  pub create : Bool
  pub adds : ℕ → Bool
  pub no_new_privs : Bool
  pub restrict : Bool

-- The rules in the ruleset, and whether it is enforced on this process.
pub record Confinement : Type 0 where
  pub handled : List ℕ
  pub added : List Rule
  pub enforced : Bool
  pub rc : Rc

-- The chain of `add_path_rule(...) != 0`, from the `i`-th call on.
unfoldable pub add_rules : (ℕ → Bool) → ℕ → List Rule → List Rule × Bool
add_rules adds i [] = ([], true)
add_rules adds i (r ∷ more) =
    let rest = add_rules adds (suc i) more in if adds i then (r ∷ rest.0, rest.1) else ([], false)

-- From `handled_access(abi)` on.
unfoldable pub enter_at : SandboxCalls → ℕ → Project → Bytes → Bytes → Confinement
enter_at k abi p workdir cache_dir =
    let r = add_rules k.adds 0 (rules abi p workdir cache_dir) in
    let done = k.create && r.1 && k.no_new_privs && k.restrict in
    record {
      handled = if k.create then handled_access abi else [];
      added = if k.create then r.0 else [];
      enforced = done;
      rc = if done then success else failure;
    }

abbrev pub not_entered : Confinement
not_entered = record { handled = []; added = []; enforced = false; rc = failure }

-- With the answer of the version call.
unfoldable pub enter_abi : SandboxCalls → Project → Bytes → Bytes → ℤ → Confinement
enter_abi k p workdir cache_dir (negsuc n) = not_entered
enter_abi k p workdir cache_dir (pos abi) =
    if ltb abi min_abi then not_entered else enter_at k abi p workdir cache_dir

-- `hm_sandbox_enter`
unfoldable pub sandbox_enter : SandboxCalls → Project → Bytes → Bytes → Confinement
sandbox_enter k p workdir cache_dir = enter_abi k p workdir cache_dir k.abi
