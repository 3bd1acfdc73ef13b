-- ===== src/Cache/Lock/Ancestors.antt =====
-- src/cache.c: the processes above this one, and `is_ancestor`.
use hacman.Cache.Lock.{climb, depth_max, is_ancestor}
use hacman.Base.{
  ℕ, zero, suc, ◌<◌, true, ◌≡◌, refl, ap, ◌↔◌, inl, inr, arith, ◌==◌, if◌then◌else◌, Bool-cases,
  ==_iff, ℤ, pos, negsuc,
}

-- The process above a process; init has none.
abbrev pub parent_of : (ℕ → ℤ) → ℤ → ℤ
parent_of parent (negsuc n) = negsuc 0
parent_of parent (pos zero) = negsuc 0
parent_of parent (pos (suc n)) = if suc n == 1 then negsuc 0 else parent (suc n)

-- The process `k` steps above `cur`.
abbrev pub nth_parent : (ℕ → ℤ) → ℤ → ℕ → ℤ
nth_parent parent cur zero = cur
nth_parent parent cur (suc k) = nth_parent parent (parent_of parent cur) k

no_pid : (parent : ℕ → ℤ) (pid k : ℕ) → nth_parent parent (negsuc 0) k ≡ pos pid → pid ≡ 0
no_pid parent pid zero h = absurd (ground arith)
no_pid parent pid (suc k) h = no_pid parent pid k h

climb_here :
    (parent : ℕ → ℤ) (pid depth : ℕ) → 0 < pid → climb parent pid (suc depth) (pos pid) ≡ true
unfolding climb
climb_here parent zero depth h = absurd (omega arith)
climb_here parent (suc pid) depth h = rw ((==_iff (suc pid) (suc pid)).1 refl) refl

-- What is found above is found from here.
climb_up :
    (parent : ℕ → ℤ) (pid depth : ℕ) (cur : ℤ)
    → climb parent pid depth (parent_of parent cur) ≡ true
    → climb parent pid (suc depth) cur ≡ true
unfolding climb
climb_up parent pid zero cur h = absurd (ground arith)
climb_up parent pid (suc depth) (negsuc n) h = absurd (ground arith)
climb_up parent pid (suc depth) (pos zero) h = absurd (ground arith)
climb_up parent pid (suc depth) (pos (suc n)) h = elim (Bool-cases (suc n == pid)) [
  | inl same ↦ rw same refl
  | inr differ ↦ elim (Bool-cases (suc n == 1)) [
    | inl init ↦ absurd (ground arith)
    | inr other ↦ ground arith
  ]
]

climb-finds :
    (parent : ℕ → ℤ) (pid depth k : ℕ) (cur : ℤ)
    → k < depth
    → 0 < pid
    → nth_parent parent cur k ≡ pos pid
    → climb parent pid depth cur ≡ true
climb-finds parent pid zero k cur l h e = absurd (omega arith)
climb-finds parent pid (suc depth) zero cur l h e = rw e (climb_here parent pid depth h)
climb-finds parent pid (suc depth) (suc k) cur l h e =
    climb_up parent pid depth cur
      (climb-finds parent pid depth k (parent_of parent cur) (omega arith) h e)

-- A process `k` steps above `cur`, in fewer than `depth`.
abbrev Above : (ℕ → ℤ) → ℕ → ℕ → ℤ → Type 0
Above parent pid depth cur = (k : ℕ) × (k < depth) × (nth_parent parent cur k ≡ pos pid)

Above-up :
    (parent : ℕ → ℤ) (pid depth : ℕ) (cur : ℤ)
    → Above parent pid depth (parent_of parent cur)
    → Above parent pid (suc depth) cur
Above-up parent pid depth cur (k, l, e) = (suc k, omega arith, e)

climb-Above :
    (parent : ℕ → ℤ) (pid depth : ℕ) (cur : ℤ)
    → climb parent pid depth cur ≡ true
    → Above parent pid depth cur
unfolding climb
climb-Above parent pid zero cur h = absurd (ground arith)
climb-Above parent pid (suc depth) (negsuc n) h = absurd (ground arith)
climb-Above parent pid (suc depth) (pos zero) h = absurd (ground arith)
climb-Above parent pid (suc depth) (pos (suc n)) h = elim (Bool-cases (suc n == pid)) [
  | inl same ↦ (0, omega arith, ap pos ((==_iff (suc n) pid).0 same))
  | inr differ ↦ elim (Bool-cases (suc n == 1)) [
    | inl init ↦ absurd (ground arith)
    | inr other ↦
        let more : climb parent pid depth (parent (suc n)) ≡ true = ground arith in
        let next : parent_of parent (pos (suc n)) ≡ parent (suc n) = ground arith in
        Above-up parent pid depth (pos (suc n))
          (rw next (climb-Above parent pid depth (parent (suc n)) more))
  ]
]

-- `is_ancestor` finds exactly the processes among the first 256 above this one: its parent, the
-- parent's parent and so on, up to init.
pub is_ancestor_iff :
    (parent : ℕ → ℤ) (ppid : ℤ) (pid : ℕ)
    → 0 < pid
    → (is_ancestor parent ppid pid ≡ true)
      ↔ ((k : ℕ) × (k < depth_max) × (nth_parent parent ppid k ≡ pos pid))
unfolding is_ancestor
is_ancestor_iff parent ppid pid h = (
  climb-Above parent pid depth_max ppid,
  λ (k, l, e). climb-finds parent pid depth_max k ppid l h e,
)
