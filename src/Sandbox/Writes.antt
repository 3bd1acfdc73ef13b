-- ===== src/Sandbox/Writes.antt =====
-- src/sandbox.c: where a confined setup may write.
use hacman.Sandbox.{
  min_abi, truncate, execute, write_file, read_file, read_dir, resolve_unix, handled_access,
  readonly_access, Rule, write_dir_rules, rules, SandboxCalls, Confinement, add_rules, enter_at,
  enter_abi, sandbox_enter,
}
use hacman.Project.{Project, SandboxWriteDir}
use hacman.Base.{
  ℕ, suc, Bool, true, false, not, ◌&&◌, ◌||◌, List, [], ◌∷◌, ◌++◌, ltb, ◌==◌, Bytes, bytes_eq,
  codes, ℤ, pos, negsuc, success, ◌≤◌, ◌≡◌, refl, arith, inl, inr, Bool-cases,
}

-- A right in a mask.
unfoldable pub has : ℕ → List ℕ → Bool
has r [] = false
has r (s ∷ more) = r == s || has r more

-- What the kernel grants for the very path `q`: some rule for it has the right.
unfoldable pub granted : List Rule → Bytes → ℕ → Bool
granted [] q r = false
granted (x ∷ more) q r = bytes_eq q x.path && has r x.access || granted more q r

-- What Landlock lets the process do at the very path `q`: all that an enforced ruleset does not
-- handle, and what a rule grants.
unfoldable pub permitted : Confinement → Bytes → ℕ → Bool
permitted x q r = not x.enforced || not (has r x.handled) || granted x.added q r

-- Rights that change something: all but executing, reading and connecting to a socket.
unfoldable pub mutates : ℕ → Bool
mutates r = not (r == execute || r == read_file || r == read_dir || r == resolve_unix)

unfoldable pub is_listed : List SandboxWriteDir → Bytes → Bool
is_listed [] q = false
is_listed (d ∷ dirs) q = bytes_eq q d.path || is_listed dirs q

-- The policy: the two directories of the cache, those that the project lists, and the null device.
unfoldable pub may_write : Project → Bytes → Bytes → Bytes → ℕ → Bool
may_write p workdir cache_dir q r =
    bytes_eq q workdir
    || bytes_eq q cache_dir
    || is_listed p.sandbox_write_dirs q
    || bytes_eq q (codes "/dev/null") && r == write_file

readonly_lem : (abi r : ℕ) → mutates r ≡ true → has r (readonly_access abi) ≡ false
unfolding mutates readonly_access has
readonly_lem abi r h = ground arith

granted-append :
    (xs ys : List Rule) (q : Bytes) (r : ℕ)
    → granted (xs ++ ys) q r ≡ (granted xs q r || granted ys q r)
unfolding granted
granted-append [] ys q r = refl
granted-append (x ∷ xs) ys q r = ground (arith, granted-append xs ys q r)

granted-write_dir_rules :
    (abi : ℕ) (dirs : List SandboxWriteDir) (q : Bytes) (r : ℕ)
    → has r (handled_access abi) ≡ true
    → granted (write_dir_rules abi dirs) q r ≡ is_listed dirs q
unfolding granted is_listed
granted-write_dir_rules abi [] q r h = refl
granted-write_dir_rules abi (d ∷ dirs) q r h =
    rw (h, granted-write_dir_rules abi dirs q r h) (and_true (bytes_eq q d.path) (is_listed dirs q))
  where
    and_true : (a b : Bool) → (a && true || b) ≡ (a || b)
    and_true true b = refl
    and_true false b = refl

granted-rules :
    (abi : ℕ) (p : Project) (workdir cache_dir q : Bytes) (r : ℕ)
    → mutates r ≡ true
    → has r (handled_access abi) ≡ true
    → granted (rules abi p workdir cache_dir) q r ≡ may_write p workdir cache_dir q r
unfolding granted rules may_write
granted-rules abi p workdir cache_dir q r m h =
    let listed = granted-write_dir_rules abi p.sandbox_write_dirs q r h in
    rw
      (
        readonly_lem abi r m,
        h,
        granted-append (write_dir_rules abi p.sandbox_write_dirs) _ q r,
        listed,
      )
      (ground (arith, null_lem r))
  where
    null_lem : (r : ℕ) → has r (write_file ∷ []) ≡ (r == write_file)
    null_lem r = unfold has in ground arith

add_rules_all :
    (adds : ℕ → Bool) (i : ℕ) (rs : List Rule)
    → (add_rules adds i rs).1 ≡ true
    → (add_rules adds i rs).0 ≡ rs
unfolding add_rules
add_rules_all adds i [] h = refl
add_rules_all adds i (r ∷ more) h = elim (Bool-cases (adds i)) [
  | inl e ↦ ground (arith, add_rules_all adds (suc i) more)
  | inr e ↦ absurd (ground arith)
]

-- What a successful call has done.
abbrev pub IsEntered : ℕ → Project → Bytes → Bytes → Confinement → Type 0
IsEntered abi p workdir cache_dir x =
    (x.enforced ≡ true)
    × (x.handled ≡ handled_access abi)
    × (x.added ≡ rules abi p workdir cache_dir)

enter_at-IsEntered :
    (k : SandboxCalls) (abi : ℕ) (p : Project) (workdir cache_dir : Bytes)
    → (enter_at k abi p workdir cache_dir).rc ≡ success
    → IsEntered abi p workdir cache_dir (enter_at k abi p workdir cache_dir)
unfolding enter_at
enter_at-IsEntered k abi p workdir cache_dir h =
    let rs = rules abi p workdir cache_dir in
    elim (Bool-cases (k.create && (add_rules k.adds 0 rs).1 && k.no_new_privs && k.restrict)) [
      | inl e ↦ ground (arith, add_rules_all k.adds 0 rs)
      | inr e ↦ absurd (ground arith)
    ]

handled_lem : (abi r : ℕ) → min_abi ≤ abi → r ≤ truncate → has r (handled_access abi) ≡ true
unfolding handled_access has
handled_lem abi r h l = ground arith

entered_lem :
    (p : Project) (workdir cache_dir q : Bytes) (r abi : ℕ) (x : Confinement)
    → mutates r ≡ true
    → r ≤ truncate
    → min_abi ≤ abi
    → IsEntered abi p workdir cache_dir x
    → (x.enforced ≡ true) × (permitted x q r ≡ may_write p workdir cache_dir q r)
unfolding permitted
entered_lem p workdir cache_dir q r abi x m l a (on, handled, added) =
    let known = handled_lem abi r a l in
    (on, rw (on, handled, added, known) (granted-rules abi p workdir cache_dir q r m known))

enter_abi_lem :
    (k : SandboxCalls) (p : Project) (workdir cache_dir q : Bytes) (r : ℕ) (abi : ℤ)
    → (enter_abi k p workdir cache_dir abi).rc ≡ success
    → mutates r ≡ true
    → r ≤ truncate
    → ((enter_abi k p workdir cache_dir abi).enforced ≡ true)
      × (permitted (enter_abi k p workdir cache_dir abi) q r ≡ may_write p workdir cache_dir q r)
unfolding enter_abi
enter_abi_lem k p workdir cache_dir q r (negsuc n) h m l = absurd (ground arith)
enter_abi_lem k p workdir cache_dir q r (pos abi) h m l = elim (Bool-cases (ltb abi min_abi)) [
  | inl old ↦ absurd (ground arith)
  | inr new ↦
      let entered : (enter_at k abi p workdir cache_dir).rc ≡ success = ground arith in
      rw new (
        entered_lem p workdir cache_dir q r abi (enter_at k abi p workdir cache_dir) m l
          (ground arith) (enter_at-IsEntered k abi p workdir cache_dir entered))
]

-- When `hm_sandbox_enter` returns 0, its ruleset is enforced, and each right to change something
-- that every supported kernel knows (up to truncating a file) is handled by it and granted by a
-- rule for exactly the paths of the policy: the work directory, the cache directory, the directories that the project lists,
-- and, for writing only, /dev/null.
pub sandbox_enter-may_write :
    (k : SandboxCalls) (p : Project) (workdir cache_dir q : Bytes) (r : ℕ)
    → (sandbox_enter k p workdir cache_dir).rc ≡ success
    → mutates r ≡ true
    → r ≤ truncate
    → ((sandbox_enter k p workdir cache_dir).enforced ≡ true)
      × (permitted (sandbox_enter k p workdir cache_dir) q r ≡ may_write p workdir cache_dir q r)
unfolding sandbox_enter
sandbox_enter-may_write k p workdir cache_dir q r h m l =
    enter_abi_lem k p workdir cache_dir q r k.abi h m l
