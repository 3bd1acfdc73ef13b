-- ===== src/Util/Source.antt =====
-- src/util.c, `open_source` and `hm_read_all`: how the project file is opened and read.
use hacman.Cache.Load.{Answer, interrupted, broken, got}
use hacman.Cache.Load.Chunks.{NoneBroken}
use hacman.Config.Path.{unsafe_part, safe_parts}
use hacman.Project.{path_max}
use hacman.Base.{
  ℕ, zero, suc, ◌+◌, ◌-◌, min, ◌≤◌, ◌<◌, Bool, true, false, not, ◌&&◌, Option, none, some, List, [],
  ◌∷◌, ◌++◌, ltb, ◌==◌, if◌then◌else◌, length, length-append, length-take, take, take_of_le, drop,
  take-append-drop, append_assoc, append-nil, Bytes, ◌≡◌, refl, sym, ap, ◌∙◌, arith, Bool-cases,
  inl, inr,
}

-- The loop over an absolute path: as many bytes as it may still look at, the part read so far, and
-- the bytes from `i` on.
unfoldable pub canonical_parts : ℕ → Bytes → Bytes → Bool
canonical_parts zero part s = false
canonical_parts (suc room) part [] = not (unsafe_part part)
canonical_parts (suc room) part (c ∷ s) =
    let next = canonical_parts room [] s in
    let same = canonical_parts room (part ++ (c ∷ [])) s in
    if c == b'/' then (if unsafe_part part then false else next) else same

unfoldable pub is_canonical : Bytes → Bool
is_canonical [] = false
is_canonical (c ∷ s) = c == b'/' && canonical_parts path_max [] s

-- The descriptor, if there is one, and `*canonical`; the arguments are the answers of `openat2`
-- with RESOLVE_NO_SYMLINKS and of `open`.
unfoldable pub open_source : Option ℕ → Option ℕ → Bytes → Option ℕ × Bool
open_source (some fd) opened path = if is_canonical path then (some fd, true) else (opened, false)
open_source none opened path = (opened, false)

-- The loop of `hm_read_all`; `none` is -1. A call behind the answers delivers all that fits.
unfoldable pub read_rest : ℕ → List Answer → Bytes → Bytes → Option Bytes
read_rest cap [] buf rest =
    let all = buf ++ take (cap - length buf) rest in if length all == cap then none else some all
read_rest cap (interrupted ∷ calls) buf rest = read_rest cap calls buf rest
read_rest cap (broken ∷ calls) buf rest = none
read_rest cap (got k ∷ calls) buf [] = some buf
read_rest cap (got k ∷ calls) buf (c ∷ rest) =
    let n = min (k + 1) (cap - length buf) in
    let buf' = buf ++ take n (c ∷ rest) in
    let more = read_rest cap calls buf' (drop n (c ∷ rest)) in
    if length buf' == cap then none else more

-- Behind the first slash of an absolute path the test accepts fewer than `room` bytes whose parts
-- would also pass as the parts of a file's path in a project.
pub canonical_parts-safe_parts :
    (room : ℕ) (part s : Bytes)
    → canonical_parts room part s ≡ (ltb (length s) room && safe_parts part s)
unfolding canonical_parts safe_parts
canonical_parts-safe_parts zero part s = ground arith
canonical_parts-safe_parts (suc room) part [] =
    let some_room : ltb 0 (suc room) ≡ true = ground arith in rw some_room refl
canonical_parts-safe_parts (suc room) part (c ∷ s) = ground (
  arith,
  canonical_parts-safe_parts room [] s,
  canonical_parts-safe_parts room (part ++ (c ∷ [])) s,
)

one_read :
    (cap : ℕ) (buf rest : Bytes)
    → length buf < cap
    → (let all = buf ++ take (cap - length buf) rest in
        if length all == cap then none else some all)
      ≡ (if ltb (length (buf ++ rest)) cap then some (buf ++ rest) else none)
one_read cap buf rest fits =
    let n = cap - length buf in
    let whole = length-append buf rest in
    let read = length-append buf (take n rest) in
    let taken = length-take n rest in
    elim (Bool-cases (ltb (length (buf ++ rest)) cap)) [
      | inl small ↦
          let all : take n rest ≡ rest = take_of_le n rest (ground arith) in
          let other : (length (buf ++ rest) == cap) ≡ false = ground arith in
          rw (all, other, small) refl
      | inr large ↦
          let full : (length (buf ++ take n rest) == cap) ≡ true = ground arith in
          rw (full, large) refl
    ]

-- One call of `read` that delivers `n` bytes at most.
next_read :
    (cap n : ℕ) (buf rest : Bytes) (more : Option Bytes)
    → n ≤ cap - length buf
    → length buf < cap
    → (length (buf ++ take n rest) < cap
        → more ≡ (
            if ltb (length ((buf ++ take n rest) ++ drop n rest)) cap
            then some ((buf ++ take n rest) ++ drop n rest)
            else none))
    → (if length (buf ++ take n rest) == cap then none else more)
      ≡ (if ltb (length (buf ++ rest)) cap then some (buf ++ rest) else none)
next_read cap n buf rest more le fits next =
    let whole : (buf ++ take n rest) ++ drop n rest ≡ buf ++ rest =
      append_assoc buf (take n rest) (drop n rest) ∙ ap (◌++◌ buf) (take-append-drop n rest) in
    let read = length-append buf (take n rest) in
    let taken = length-take n rest in
    let lengths =
      sym (length-append (buf ++ take n rest) (drop n rest)) ∙ ap (λ (x : Bytes). length x) whole in
    elim (Bool-cases (length (buf ++ take n rest) == cap)) [
      | inl full ↦
          let large : ltb (length (buf ++ rest)) cap ≡ false = ground arith in rw (full, large) refl
      | inr room ↦
          let below : length (buf ++ take n rest) < cap = ground arith in
          rw room
            (next below ∙ ap (λ (x : Bytes). if ltb (length x) cap then some x else none) whole)
    ]

-- However a file comes in pieces, and whatever signals interrupt, it is read whole when it has
-- fewer than `cap` bytes, and refused when it has as many or more.
pub read_rest-whole :
    (cap : ℕ) (calls : List Answer) (buf rest : Bytes)
    → NoneBroken calls
    → length buf < cap
    → read_rest cap calls buf rest
      ≡ (if ltb (length (buf ++ rest)) cap then some (buf ++ rest) else none)
unfolding read_rest
read_rest-whole cap [] buf rest h fits = one_read cap buf rest fits
read_rest-whole cap (interrupted ∷ calls) buf rest (ok, h) fits =
    read_rest-whole cap calls buf rest h fits
read_rest-whole cap (broken ∷ calls) buf rest (ok, h) fits = absurd (ok refl)
read_rest-whole cap (got k ∷ calls) buf [] (ok, h) fits =
    let small : ltb (length buf) cap ≡ true = ground arith in rw (append-nil, small) refl
read_rest-whole cap (got k ∷ calls) buf (c ∷ rest) (ok, h) fits =
    let n = min (k + 1) (cap - length buf) in
    next_read cap n buf (c ∷ rest) _ (omega arith) fits
      (λ below. read_rest-whole cap calls (buf ++ take n (c ∷ rest)) (drop n (c ∷ rest)) h below)
