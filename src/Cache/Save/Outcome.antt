-- ===== src/Cache/Save/Outcome.antt =====
-- src/cache.c: the files at the end of `hm_cache_save`, for each of its two results.
use hacman.Cache.Save.Atomic.{put_same, put_other, write_loop_all, tmp_path-ne-path}
use hacman.Cache.Save.{
  Files, put, tmp_path, write_loop, SaveCalls, give_up, writing, replace, save_opened, save,
}
use hacman.Cache.Record.{Cache, record_text}
use hacman.Project.{path_max}
use hacman.Util.Number.{ulong_mod}
use hacman.Base.{
  ℕ, ◌≤◌, ◌<◌, Bool, true, false, Option, none, some, List, [], ◌∷◌, ◌++◌, ◌≡◌, ◌≢◌, refl, sym, ◌∙◌,
  length, Bytes, Rc, success, failure, if◌then◌else◌,
}

-- The file system at the end.
unfoldable pub last_state : Files → List Files → Files
last_state files [] = files
last_state files (s ∷ more) = last_state s more

last_state-append :
    (files : Files) (xs ys : List Files)
    → last_state files (xs ++ ys) ≡ last_state (last_state files xs) ys
unfolding last_state
last_state-append files [] ys = refl
last_state-append files (x ∷ xs) ys = last_state-append x xs ys

-- What a result says of the files at the end.
abbrev Promised : Cache → Bytes → Files → Rc → Files → Type 0
Promised c tmp files success end =
    (end c.path ≡ some (record_text c))
    × (end tmp ≡ none)
    × ((q : Bytes) → q ≢ c.path → q ≢ tmp → end q ≡ files q)
Promised c tmp files failure end = (q : Bytes) → q ≢ tmp → end q ≡ files q

-- All files but the temporary one are as they were.
abbrev SameBut : Bytes → Files → Files → Type 0
SameBut tmp files end = (q : Bytes) → q ≢ tmp → end q ≡ files q

last_state-writing :
    (tmp : Bytes) (files now : Files) (texts : List Bytes)
    → SameBut tmp files now
    → SameBut tmp files (last_state now (writing tmp files texts))
unfolding last_state writing
last_state-writing tmp files now [] h = h
last_state-writing tmp files now (text ∷ more) h =
    last_state-writing tmp files (put tmp (some text) files) more
      (λ q d. put_other tmp q (some text) files d)

last_state-give_up :
    (u : Bool) (tmp : Bytes) (files now : Files)
    → SameBut tmp files now
    → SameBut tmp files (last_state now (give_up u tmp files))
unfolding last_state
last_state-give_up true tmp files now h = λ q d. put_other tmp q none files d
last_state-give_up false tmp files now h = h

replaced-Promised :
    (c : Cache) (tmp : Bytes) (files : Files)
    → c.path ≢ tmp
    → Promised c tmp files success (put c.path (some (record_text c)) (put tmp none files))
replaced-Promised c tmp files h =
    let before = put tmp none files in
    (
      put_same c.path (some (record_text c)) before,
      put_other c.path tmp (some (record_text c)) before (λ e. h (sym e)) ∙ put_same tmp none files,
      λ q dp dt.
          put_other c.path q (some (record_text c)) before dp ∙ put_other tmp q none files dt,
    )

replace-Promised :
    (calls : SaveCalls) (c : Cache) (tmp : Bytes) (files now : Files) (o : Option Bytes)
    → c.path ≢ tmp
    → SameBut tmp files now
    → ((t : Bytes) → o ≡ some t → t ≡ record_text c)
    → Promised c tmp files
        (replace calls c.path tmp files o).1
        (last_state now (replace calls c.path tmp files o).0)
unfolding replace last_state
replace-Promised calls c tmp files now none h b w = last_state-give_up calls.unlinks tmp files now b
replace-Promised calls c tmp files now (some text) h b w =
    let stop = last_state-give_up calls.unlinks tmp files now b in
    elim calls.renames
      as (λ r.
        let s =
          if◌then◌else◌ {A = List Files × Rc} r
            (put c.path (some text) (put tmp none files) ∷ [], success)
            (give_up calls.unlinks tmp files, failure) in
        Promised c tmp files s.1 (last_state now s.0)) [
          | true ↦ rw (w text refl) (replaced-Promised c tmp files h)
          | false ↦ stop
        ]

save_opened-Promised :
    (calls : SaveCalls) (c : Cache) (tmp : Bytes) (files : Files)
    → c.path ≢ tmp
    → Promised c tmp files
        (save_opened calls c tmp files).1
        (last_state files (save_opened calls c tmp files).0)
unfolding save_opened
save_opened-Promised calls c tmp files h =
    let w = write_loop calls.writes [] (record_text c) in
    let states = writing tmp files ([] ∷ w.0) in
    rw (last_state-append files states (replace calls c.path tmp files w.1).0) (
      replace-Promised calls c tmp files (last_state files states) w.1 h
        (last_state-writing tmp files files ([] ∷ w.0) (λ q d. refl))
        (λ t e. write_loop_all calls.writes [] (record_text c) e))

save-Promised :
    (calls : SaveCalls) (pid : ℕ) (c : Cache) (files : Files)
    → length c.path ≤ path_max
    → pid < ulong_mod
    → Promised c
        (tmp_path c pid)
        files
        (save calls pid c files).rc
        (last_state files (save calls pid c files).states)
unfolding save last_state
save-Promised calls pid c files h p =
    elim calls.opens
      as (λ r.
        let s =
          if◌then◌else◌ {A = List Files × Rc} r (save_opened calls c (tmp_path c pid) files)
            ([], failure) in
        Promised c (tmp_path c pid) files s.1 (last_state files s.0)) [
          | true ↦ save_opened-Promised calls c (tmp_path c pid) files (tmp_path-ne-path c pid h p)
          | false ↦ λ q d. refl
        ]

-- The same for one path `q` that is neither the record's nor the temporary file's.
abbrev pub Kept : Cache → Bytes → Files → Bytes → Rc → Files → Type 0
Kept c tmp files q success end =
    (end c.path ≡ some (record_text c)) × (end tmp ≡ none) × (end q ≡ files q)
Kept c tmp files q failure end = (end c.path ≡ files c.path) × (end q ≡ files q)

Kept-of_Promised :
    (c : Cache) (tmp : Bytes) (files end : Files) (q : Bytes) (rc : Rc)
    → c.path ≢ tmp
    → q ≢ c.path
    → q ≢ tmp
    → Promised c tmp files rc end
    → Kept c tmp files q rc end
Kept-of_Promised c tmp files end q success h dp dt (new, gone, others) = (new, gone, others q dp dt)
Kept-of_Promised c tmp files end q failure h dp dt others = (others c.path h, others q dt)

-- When the save of a cache whose path fits its array returns 0, the new record is in its place and
-- the temporary file is gone; when it returns -1, the old record (or its absence) is as it was.
-- In both cases every file but the record and the temporary one is as it was.
pub save-Kept :
    (calls : SaveCalls) (pid : ℕ) (c : Cache) (files : Files) (q : Bytes)
    → length c.path ≤ path_max
    → pid < ulong_mod
    → q ≢ c.path
    → q ≢ tmp_path c pid
    → Kept c
        (tmp_path c pid)
        files
        q
        (save calls pid c files).rc
        (last_state files (save calls pid c files).states)
save-Kept calls pid c files q h p dp dt =
    let end = last_state files (save calls pid c files).states in
    Kept-of_Promised c (tmp_path c pid) files end q (save calls pid c files).rc
      (tmp_path-ne-path c pid h p) dp dt (save-Promised calls pid c files h p)
