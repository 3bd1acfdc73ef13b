-- ===== src/Cache/Save/Atomic.antt =====
-- src/cache.c: the states that another process can see while `hm_cache_save` runs.
use hacman.Cache.Save.{
  Files, put, tmp_path, write_loop, SaveCalls, give_up, writing, replace, save_opened, save,
}
use hacman.Cache.Load.{RecordFile, absent, content, load, Answer, interrupted, broken, got}
use hacman.Cache.Load.Chunks.{load-record_text}
use hacman.Cache.Record.{Cache, record_text}
use hacman.Cache.Record.RoundTrip.{IsRecordable, reloaded}
use hacman.Project.{path_max}
use hacman.Util.Buffer.{append_str, append_str-eq-append, append_long-eq-append}
use hacman.Util.Number.{ulong_mod, decimal, length-decimal}
use hacman.Base.{
  ℕ, ◌+◌, ◌≤◌, ◌<◌, Bool, true, false, Option, none, some, List, [], ◌∷◌, ◌++◌, take, drop, min,
  ◌≡◌, ◌≢◌, refl, ap, ◌∙◌, ◌⊎◌, inl, inr, arith, append_assoc, take-append-drop, append-nil, length,
  length-append, All, All-append, All-imp, Bytes, bytes_eq, bytes_eq_iff, bytes_eq_refl, codes, pos,
  Rc, success, failure, Bool-cases, if◌then◌else◌,
}

pub put_same : (path : Bytes) (t : Option Bytes) (files : Files) → put path t files path ≡ t
unfolding put
put_same path t files = rw (bytes_eq_refl path) refl

pub put_other :
    (path q : Bytes) (t : Option Bytes) (files : Files) → q ≢ path → put path t files q ≡ files q
unfolding put
put_other path q t files h = elim (Bool-cases (bytes_eq q path)) [
  | inl e ↦ absurd (h ((bytes_eq_iff q path).0 e))
  | inr e ↦ rw e refl
]

-- The temporary file has another name than the record: nothing is cut off.
pub tmp_path-eq-append :
    (c : Cache) (pid : ℕ)
    → length c.path ≤ path_max
    → pid < ulong_mod
    → tmp_path c pid ≡ c.path ++ (codes ".tmp." ++ decimal pid)
unfolding tmp_path
tmp_path-eq-append c pid h p =
    let d = length-decimal pid p in
    let size = path_max + 32 in
    let e0 : append_str size [] c.path ≡ c.path =
      append_str-eq-append size [] c.path (omega arith) in
    let e1 : append_str size c.path (codes ".tmp.") ≡ c.path ++ codes ".tmp." =
      append_str-eq-append size c.path (codes ".tmp.") (omega arith) in
    rw (e0, e1)
      (append_long-eq-append size (c.path ++ codes ".tmp.") (pos pid)
          (omega (arith, length-append c.path (codes ".tmp.")))
        ∙ append_assoc c.path (codes ".tmp.") (decimal pid))

longer : (a b : Bytes) → 0 < length b → a ≢ a ++ b
longer a b h e = omega (arith, length-append a b, ap (λ (s : Bytes). length s) e)

pub tmp_path-ne-path :
    (c : Cache) (pid : ℕ) → length c.path ≤ path_max → pid < ulong_mod → c.path ≢ tmp_path c pid
tmp_path-ne-path c pid h p e =
    longer c.path (codes ".tmp." ++ decimal pid)
      (omega (arith, length-append (codes ".tmp.") (decimal pid)))
      (e ∙ tmp_path-eq-append c pid h p)

-- The loop over `write` that ends well has written everything.
pub write_loop_all :
    (calls : List Answer) (done left : Bytes) {t : Bytes}
    → (write_loop calls done left).1 ≡ some t
    → t ≡ done ++ left
unfolding write_loop
write_loop_all [] done left h = ground arith
write_loop_all (interrupted ∷ calls) done left h = write_loop_all calls done left h
write_loop_all (broken ∷ calls) done left h = absurd (ground arith)
write_loop_all (got k ∷ calls) done [] h = ground (arith, append-nil done)
write_loop_all (got k ∷ calls) done (c ∷ left) h =
    let n = min (k + 1) (length (c ∷ left)) in
    write_loop_all calls (done ++ take n (c ∷ left)) (drop n (c ∷ left)) h
    ∙ append_assoc done (take n (c ∷ left)) (drop n (c ∷ left))
    ∙ ap (λ s. done ++ s) (take-append-drop n (c ∷ left))

-- A state in which the record is the old one or the new one.
abbrev pub IsOldOrNew : Cache → Files → Files → Type 0
IsOldOrNew c files now = (now c.path ≡ files c.path) ⊎ (now c.path ≡ some (record_text c))

writing-IsOldOrNew :
    (c : Cache) (tmp : Bytes) (files : Files) (texts : List Bytes)
    → c.path ≢ tmp
    → All (IsOldOrNew c files) (writing tmp files texts)
unfolding writing
writing-IsOldOrNew c tmp files [] h = tt
writing-IsOldOrNew c tmp files (text ∷ more) h =
    (inl (put_other tmp c.path (some text) files h), writing-IsOldOrNew c tmp files more h)

give_up-IsOldOrNew :
    (c : Cache) (u : Bool) (tmp : Bytes) (files : Files)
    → c.path ≢ tmp
    → All (IsOldOrNew c files) (give_up u tmp files)
give_up-IsOldOrNew c true tmp files h = (inl (put_other tmp c.path none files h), tt)
give_up-IsOldOrNew c false tmp files h = tt

replace-IsOldOrNew :
    (calls : SaveCalls) (c : Cache) (tmp : Bytes) (files : Files) (o : Option Bytes)
    → c.path ≢ tmp
    → ((t : Bytes) → o ≡ some t → t ≡ record_text c)
    → All (IsOldOrNew c files) (replace calls c.path tmp files o).0
unfolding replace
replace-IsOldOrNew calls c tmp files none h w = give_up-IsOldOrNew c calls.unlinks tmp files h
replace-IsOldOrNew calls c tmp files (some text) h w =
    elim calls.renames
      as (λ b.
        All (IsOldOrNew c files)
          (if◌then◌else◌ {A = List Files × Rc} b
            (put c.path (some text) (put tmp none files) ∷ [], success)
            (give_up calls.unlinks tmp files, failure)).0) [
              | true ↦ (
                inr (put_same c.path (some text) (put tmp none files) ∙ ap some (w text refl)),
                tt,
              )
              | false ↦ give_up-IsOldOrNew c calls.unlinks tmp files h
            ]

save-IsOldOrNew :
    (calls : SaveCalls) (pid : ℕ) (c : Cache) (files : Files)
    → length c.path ≤ path_max
    → pid < ulong_mod
    → All (IsOldOrNew c files) (save calls pid c files).states
unfolding save save_opened
save-IsOldOrNew calls pid c files h p =
    let differ = tmp_path-ne-path c pid h p in
    let w = write_loop calls.writes [] (record_text c) in
    elim calls.opens
      as (λ b.
        All (IsOldOrNew c files)
          (if◌then◌else◌ {A = List Files × Rc} b (save_opened calls c (tmp_path c pid) files)
            ([], failure)).0) [
              | true ↦
                  All-append (IsOldOrNew c files) (writing (tmp_path c pid) files ([] ∷ w.0)) _
                    (writing-IsOldOrNew c (tmp_path c pid) files ([] ∷ w.0) differ)
                    (replace-IsOldOrNew calls c (tmp_path c pid) files w.1 differ
                      (λ t e. write_loop_all calls.writes [] (record_text c) e))
              | false ↦ tt
            ]

abbrev record_file : Option Bytes → RecordFile
record_file none = absent
record_file (some text) = content text []

-- What `hm_cache_load` finds at a path.
abbrev pub found : Files → Bytes → RecordFile
found files path = record_file (files path)

-- What a load sees is what it saw before the save, or the whole new record.
abbrev pub LoadsOldOrNew : Cache → Files → Files → Type 0
LoadsOldOrNew c files now =
    (load c (found now c.path) ≡ load c (found files c.path))
    ⊎ (load c (found now c.path) ≡ (success, reloaded c))

-- At every moment of a save, whatever the kernel answers and wherever the process dies, a load of
-- the record (of a cache that can be recorded, with a path in its array) reads the old record, as
-- if the save had not begun, or the whole new one.
pub save-load :
    (calls : SaveCalls) (pid : ℕ) (c : Cache) (files : Files)
    → length c.path ≤ path_max
    → pid < ulong_mod
    → IsRecordable c
    → All (LoadsOldOrNew c files) (save calls pid c files).states
save-load calls pid c files h p r =
    All-imp (save calls pid c files).states
      (λ now. elim [
        | inl e ↦ inl (ap (λ o. load c (record_file o)) e)
        | inr e ↦ inr (ap (λ o. load c (record_file o)) e ∙ load-record_text c [] r tt)
      ])
      (save-IsOldOrNew calls pid c files h p)
