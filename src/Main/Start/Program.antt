-- ===== src/Main/Start/Program.antt =====
-- The path of the program that is handed over to.
use hacman.Main.Start.{resolve_cached_bin}
use hacman.Main.Run.{is_empty}
use hacman.Cache.Record.{Cache}
use hacman.Project.{Project, path_max}
use hacman.Base.{
  ◌+◌, ◌≤◌, true, ◌||◌, some, [], ◌∷◌, ◌++◌, ◌≡◌, ◌⊎◌, inl, inr, refl, arith, ltb, ◌==◌, length,
  length-append, get_or, Bytes, Bool-cases, sym,
}

-- No program, or an absolute path.
abbrev pub IsRunnable : Bytes → Type 0
IsRunnable path = (path ≡ []) ⊎ (get_or path 0 0 ≡ b'/')

get_or-append_slash : (s t : Bytes) → get_or s 0 0 ≡ b'/' → get_or (s ++ t) 0 0 ≡ b'/'
get_or-append_slash [] t h = absurd (omega arith)
get_or-append_slash (c ∷ s) t h = h

IsRunnable-kept :
    (path : Bytes) → (is_empty path || get_or path 0 0 == b'/') ≡ true → IsRunnable path
IsRunnable-kept [] t = inl refl
IsRunnable-kept (c ∷ path) t = inr (ground arith)

-- When the program's path fits its array and the work directory is absolute, a resolved path is
-- absent or absolute, and it fits the array.
pub resolve_cached_bin-IsRunnable :
    (p : Project) (c : Cache) {q : Project}
    → length p.bin_path ≤ path_max
    → get_or c.workdir 0 0 ≡ b'/'
    → resolve_cached_bin p c ≡ some q
    → IsRunnable q.bin_path × (length q.bin_path ≤ path_max)
unfolding resolve_cached_bin
resolve_cached_bin-IsRunnable p c {q} l w h =
    elim (Bool-cases (is_empty p.bin_path || get_or p.bin_path 0 0 == b'/')) [
      | inl t ↦
          let eq : p ≡ q = cc (rw (t, resolve_cached_bin) at h) in
          rw (sym eq) (IsRunnable-kept p.bin_path t, l)
      | inr t ↦ elim (Bool-cases (ltb path_max (length c.workdir + 1 + length p.bin_path))) [
        | inl long ↦ cc (rw (t, resolve_cached_bin, long) at h)
        | inr fits ↦
            let eq : record p { bin_path = c.workdir ++ (b'/' ∷ p.bin_path) } ≡ q =
              cc (rw (t, resolve_cached_bin, fits) at h) in
            rw (sym eq) (
              inr (get_or-append_slash c.workdir (b'/' ∷ p.bin_path) w),
              ground (arith, fits, length-append c.workdir (b'/' ∷ p.bin_path)),
            )
      ]
    ]
