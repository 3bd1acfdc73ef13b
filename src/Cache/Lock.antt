-- ===== src/Cache/Lock.antt =====
-- src/cache.c, `hm_cache_lock`: the update lock of a record, and the walk over the processes above
-- this one which keeps a setup from waiting for itself. What the kernel answers is a value
-- `LockCalls`; process numbers do not overflow a `long`.
pub mod Ancestors
pub mod Refuses
use hacman.Cache.Save.{mkdir_p, cache_parent}
use hacman.Cache.Record.{Cache}
use hacman.Project.{path_max}
use hacman.Util.Buffer.{append_str, append_long}
use hacman.Util.Text.{c_str}
use hacman.Base.{
  ℕ, zero, suc, ◌+◌, ◌-◌, ◌*◌, Bool, true, false, ◌&&◌, ◌||◌, Option, none, some, List, [], ◌∷◌,
  ◌++◌, ltb, leb, ◌==◌, if◌then◌else◌, Bytes, codes, ℤ, pos, negsuc, Rc, success, failure,
}

-- `/proc/<pid>/stat`; the walk reads it for positive numbers only.
unfoldable pub stat_path : ℕ → Bytes
stat_path pid =
    append_str 48 (append_long 48 (append_str 48 [] (codes "/proc/")) (pos pid)) (codes "/stat")

-- `strrchr(buf, ')')`: the text behind the last `)`.
unfoldable pub after_last : ℕ → Bytes → Option Bytes
after_last b [] = none
after_last b (c ∷ s) = elim (after_last b s) [
  | none ↦ if c == b then some s else none
  | some t ↦ some t
]

-- The digit loop of `parent_pid`.
unfoldable pub read_pid : ℕ → Bytes → ℕ
read_pid v [] = v
read_pid v (c ∷ s) = if leb b'0' c && leb c b'9' then read_pid (v * 10 + (c - b'0')) s else v

-- `" <state> <ppid> ..."`
unfoldable pub parent_field : Bytes → ℤ
unfolding read_pid
parent_field (a ∷ b ∷ c ∷ s) = if a == b' ' && c == b' ' then pos (read_pid 0 s) else negsuc 0
parent_field _ = negsuc 0

unfoldable pub parse_stat : Bytes → ℤ
parse_stat [] = negsuc 0
parse_stat (c ∷ s) = elim (after_last b')' (c_str (c ∷ s))) [
  | none ↦ negsuc 0
  | some t ↦ parent_field t
]

-- `parent_pid`; `proc` gives the bytes that one `read` of a file yields, when it can be opened and
-- read.
unfoldable pub parent_pid : (Bytes → Option Bytes) → ℕ → ℤ
parent_pid proc pid = elim (proc (stat_path pid)) [ none ↦ negsuc 0 | some text ↦ parse_stat text ]

-- The loop of `is_ancestor`, with the rounds that are left; `parent` is `parent_pid`.
unfoldable pub climb : (ℕ → ℤ) → ℕ → ℕ → ℤ → Bool
climb parent pid zero cur = false
climb parent pid (suc depth) (negsuc n) = false
climb parent pid (suc depth) (pos zero) = false
climb parent pid (suc depth) (pos (suc n)) =
    let above = climb parent pid depth (parent (suc n)) in
    if suc n == pid then true else if suc n == 1 then false else above

abbrev pub depth_max : ℕ
depth_max = 256

-- `is_ancestor`; `ppid` is the answer of `getppid`.
unfoldable pub is_ancestor : (ℕ → ℤ) → ℤ → ℕ → Bool
is_ancestor parent ppid pid = climb parent pid depth_max ppid

pub data Opened : Type 0 where
  opened : Opened
  no_entry : Opened
  denied : Opened

pub data Tried : Type 0 where
  taken : Tried
  busy : Tried
  broken : Tried

-- One call of `fcntl` with `F_SETLKW`.
pub data Wait : Type 0 where
  interrupted : Wait
  refused : Wait
  granted : Wait

-- `probe` is the process that `F_GETLK` names, if any. Behind the list `waits` the lock is granted.
pub record LockCalls : Type 0 where
  pub first_open : Opened
  pub second_open : Bool
  pub set_lock : Tried
  pub probe : Option ℕ
  pub ppid : ℤ
  pub proc : Bytes → Option Bytes
  pub waits : List Wait

pub data LockAction : Type 0 where
  opening : Bytes → Bool → LockAction
  making : List Bytes → LockAction
  trying : LockAction
  probing : LockAction
  waiting : LockAction
  closing : LockAction

-- `held_by_ancestor`: with the holder when it is one.
unfoldable pub held_by_ancestor : LockCalls → Option ℕ
held_by_ancestor k = elim k.probe [
  | none ↦ none
  | some holder ↦ if is_ancestor (parent_pid k.proc) k.ppid holder then some holder else none
]

-- The loop over `F_SETLKW`.
unfoldable pub wait_loop : List Wait → List LockAction × Rc
wait_loop [] = (waiting ∷ [], success)
wait_loop (granted ∷ more) = (waiting ∷ [], success)
wait_loop (refused ∷ more) = (waiting ∷ closing ∷ [], failure)
wait_loop (interrupted ∷ more) = let r = wait_loop more in (waiting ∷ r.0, r.1)

-- A busy lock.
unfoldable pub contend : LockCalls → List LockAction × Rc
contend k = elim (held_by_ancestor k) [
  | some holder ↦ (probing ∷ closing ∷ [], failure)
  | none ↦ let r = wait_loop k.waits in (probing ∷ r.0, r.1)
]

-- From the first `fcntl` on. Another error goes to the loop without a probe.
unfoldable pub take_lock : LockCalls → List LockAction × Rc
take_lock k = elim k.set_lock [
  | taken ↦ (trying ∷ [], success)
  | busy ↦ let r = contend k in (trying ∷ r.0, r.1)
  | broken ↦ let r = wait_loop k.waits in (trying ∷ r.0, r.1)
]

unfoldable pub lock_path : Cache → Bytes
lock_path c = append_str (path_max + 6) (append_str (path_max + 6) [] c.path) (codes ".lock")

-- The `open` of the lock file, tried again below a new directory, and then the given calls.
unfoldable pub open_lock :
    Opened → Bool → Bytes → List Bytes → List LockAction × Rc → List LockAction × Rc
open_lock opened again path dirs taking = (opening path true ∷ taking.0, taking.1)
open_lock denied again path dirs taking = (opening path false ∷ [], failure)
open_lock no_entry true path dirs taking =
    (opening path false ∷ making dirs ∷ opening path true ∷ taking.0, taking.1)
open_lock no_entry false path dirs taking =
    (opening path false ∷ making dirs ∷ opening path false ∷ [], failure)

-- `hm_cache_lock`: its calls in their order, and whether it returns a descriptor.
unfoldable pub lock : LockCalls → Cache → List LockAction × Rc
unfolding open_lock
lock k c =
    open_lock k.first_open k.second_open (lock_path c) (mkdir_p (cache_parent c)) (take_lock k)
