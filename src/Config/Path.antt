-- ===== src/Config/Path.antt =====
-- src/config.c, `valid_relative_path` and `valid_file_path`: which paths stay below the directory
-- that they are taken from.
use native.Mathlib.Decide.{ℕ_discrete}
use hacman.Project.{file_path_max}
use hacman.Base.{
  ℕ, ◌-◌, ◌≤◌, Bool, true, false, not, ◌&&◌, ◌||◌, List, [], ◌∷◌, ◌++◌, append_assoc, append-nil,
  ◌≡◌, ◌≢◌, ◌↔◌, refl, sym, ap, ◌∙◌, arith, ltb, ◌==◌, if◌then◌else◌, length, get_or, All,
  All-append, Lacks, Bytes, codes,
}

-- The test of the part `path.ptr[start .. i)`.
unfoldable pub unsafe_part : Bytes → Bool
unsafe_part part =
    length part == 0
    || (length part == 1 && get_or part 0 0 == b'.')
    || (length part == 2 && get_or part 0 0 == b'.' && get_or part 1 0 == b'.')

-- The loop: the part read so far, and the bytes from `i` on.
unfoldable pub safe_parts : Bytes → Bytes → Bool
unfolding unsafe_part
safe_parts part [] = not (unsafe_part part)
safe_parts part (c ∷ s) =
    let next = safe_parts [] s in
    let same = safe_parts (part ++ c ∷ []) s in
    if c == b'/' then (if unsafe_part part then false else next) else same

unfoldable pub valid_relative_path : Bytes → ℕ → Bool
unfolding safe_parts
valid_relative_path path max =
    if length path == 0
      || ltb max (length path)
      || get_or path 0 0 == b'/'
      || get_or path (length path - 1) 0 == b'/'
    then false
    else safe_parts [] path

unfoldable pub valid_file_path : Bytes → Bool
unfolding valid_relative_path
valid_file_path path = valid_relative_path path file_path_max

-- A name in a directory.
pub record IsName (part : Bytes) : Type 0 where
  pub some_byte : part ≢ []
  pub not_here : part ≢ codes "."
  pub not_parent : part ≢ codes ".."
  pub no_slash : Lacks b'/' part

-- Parts with slashes between them.
abbrev pub join : Bytes → List Bytes → Bytes
join p [] = p
join p (q ∷ ps) = p ++ (b'/' ∷ join q ps)

length-ne-zero : (s : Bytes) → s ≢ [] → length s ≢ 0
length-ne-zero [] h = absurd (h refl)
length-ne-zero (c ∷ s) h = omega arith

-- A relative path whose every part is a name.
abbrev pub IsBelow : Bytes → Type 0
IsBelow path =
    (first : Bytes) × (more : List Bytes) × (path ≡ join first more) × All IsName (first ∷ more)

safe_part-IsName : (part : Bytes) → Lacks b'/' part → unsafe_part part ≡ false → IsName part
unfolding unsafe_part
safe_part-IsName [] l h = ground arith
safe_part-IsName (a ∷ []) l h = record {
  some_byte = λ e. cc;
  not_here = ground arith;
  not_parent = λ e. cc;
  no_slash = l;
}
safe_part-IsName (a ∷ b ∷ []) l h = record {
  some_byte = λ e. cc;
  not_here = λ e. cc;
  not_parent = ground arith;
  no_slash = l;
}
safe_part-IsName (a ∷ b ∷ c ∷ s) l h = record {
  some_byte = λ e. cc;
  not_here = λ e. cc;
  not_parent = λ e. cc;
  no_slash = l;
}

IsName-safe_part : (part : Bytes) → IsName part → unsafe_part part ≡ false
unfolding unsafe_part
IsName-safe_part [] n = absurd (n.some_byte refl)
IsName-safe_part (a ∷ []) n = ground (arith, n.not_here)
IsName-safe_part (a ∷ b ∷ []) n = ground (arith, n.not_parent)
IsName-safe_part (a ∷ b ∷ c ∷ s) n = ground arith

-- The text splits at the slash behind the part that has been read.
abbrev Splits : Bytes → Type 0
Splits text =
    (first : Bytes) × (more : List Bytes) × (text ≡ join first more) × All IsName (first ∷ more)

safe_parts-slash :
    (part s : Bytes)
    → safe_parts part (b'/' ∷ s) ≡ true
    → (unsafe_part part ≡ false) × (safe_parts [] s ≡ true)
unfolding safe_parts
safe_parts-slash part s h = ground arith

safe_parts-byte :
    (part s : Bytes) (c : ℕ) → c ≢ b'/' → safe_parts part (c ∷ s) ≡ safe_parts (part ++ c ∷ []) s
unfolding safe_parts
safe_parts-byte part s c h = ground arith

safe_parts_end : (part : Bytes) → safe_parts part [] ≡ true → unsafe_part part ≡ false
unfolding safe_parts
safe_parts_end part h = ground arith

Lacks-concat : (part : Bytes) (c : ℕ) → Lacks b'/' part → c ≢ b'/' → Lacks b'/' (part ++ c ∷ [])
Lacks-concat part c l h = All-append (λ d. d ≢ b'/') part (c ∷ []) l (h, tt)

safe_parts-Splits :
    (part s : Bytes) → Lacks b'/' part → safe_parts part s ≡ true → Splits (part ++ s)
safe_parts-Splits part [] l h =
    (part, [], append-nil part, (safe_part-IsName part l (safe_parts_end part h), tt))
safe_parts-Splits part (c ∷ s) l h = elim (ℕ_discrete c b'/') [
  | yes e ↦
      let (now, later) = safe_parts-slash part s (rw e at h) in
      let (first, more, eq, names) = safe_parts-Splits [] s tt later in
      (
        part,
        first ∷ more,
        rw e (ap (λ (t : Bytes). part ++ b'/' ∷ t) eq),
        (safe_part-IsName part l now, names),
      )
  | no e ↦
      let (first, more, eq, names) =
        safe_parts-Splits (part ++ c ∷ []) s (Lacks-concat part c l e)
          (rw (safe_parts-byte part s c e) at h) in
      (first, more, sym (append_assoc part (c ∷ []) s) ∙ eq, names)
]

safe_parts-append :
    (part w s : Bytes) → Lacks b'/' w → safe_parts part (w ++ s) ≡ safe_parts (part ++ w) s
safe_parts-append part [] s l = rw append-nil
safe_parts-append part (c ∷ w) s (lc, lw) =
    safe_parts-byte part (w ++ s) c lc
    ∙ safe_parts-append (part ++ c ∷ []) w s lw
    ∙ ap (λ (t : Bytes). safe_parts t s) (append_assoc part (c ∷ []) w)

safe_parts-join :
    (first : Bytes) (more : List Bytes)
    → All IsName (first ∷ more)
    → safe_parts [] (join first more) ≡ true
unfolding safe_parts
safe_parts-join first [] (n, _) =
    ap (safe_parts []) (sym (append-nil first))
    ∙ safe_parts-append [] first [] n.no_slash
    ∙ rw (IsName-safe_part first n)
safe_parts-join first (next ∷ more) (n, names) =
    safe_parts-append [] first (b'/' ∷ join next more) n.no_slash
    ∙ rw (safe_parts, IsName-safe_part first n) (safe_parts-join next more names)

-- A text that ends in a slash has an empty last part.
safe_parts_last :
    (part s : Bytes) → s ≢ [] → safe_parts part s ≡ true → get_or s (length s - 1) 0 ≢ b'/'
unfolding safe_parts unsafe_part
safe_parts_last part [] n h = absurd (n refl)
safe_parts_last part (c ∷ []) n h = ground arith
safe_parts_last part (c ∷ d ∷ s) n h =
    ground (arith, safe_parts_last [] (d ∷ s), safe_parts_last (part ++ c ∷ []) (d ∷ s))

safe_parts_first : (s : Bytes) → safe_parts [] s ≡ true → (s ≢ []) × (get_or s 0 0 ≢ b'/')
unfolding safe_parts unsafe_part
safe_parts_first [] h = ground arith
safe_parts_first (c ∷ s) h = ground arith

valid_relative_path_parts :
    (path : Bytes) (max : ℕ)
    → length path ≤ max
    → safe_parts [] path ≡ true
    → valid_relative_path path max ≡ true
unfolding valid_relative_path
valid_relative_path_parts path max len h =
    let (some, first) = safe_parts_first path h in
    ground (arith, safe_parts_last [] path some h, length-ne-zero path)

-- The test accepts exactly the relative paths of at most `max` bytes whose parts, between slashes,
-- are names: none is empty, `.` or `..`, so no such path leaves its directory.
pub valid_relative_path_iff :
    (path : Bytes) (max : ℕ)
    → (valid_relative_path path max ≡ true) ↔ ((length path ≤ max) × IsBelow path)
valid_relative_path_iff path max =
    ((λ h. ((parts_of h).0, safe_parts-Splits [] path tt (parts_of h).1)), given)
  where
    parts_of :
        valid_relative_path path max ≡ true → (length path ≤ max) × (safe_parts [] path ≡ true)
    parts_of h = unfold valid_relative_path in ground arith

    given : (length path ≤ max) × IsBelow path → valid_relative_path path max ≡ true
    given (len, (first, more, e, names)) =
        valid_relative_path_parts path max len (rw e (safe_parts-join first more names))
