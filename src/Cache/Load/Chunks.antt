-- ===== src/Cache/Load/Chunks.antt =====
-- However `read` cuts a record file into pieces, the load sees the same record.
use hacman.Cache.Record.{Cache, record_max, cleared, record_text, parse_record, first_line}
use hacman.Cache.Record.RoundTrip.{
  IsRecordable, reloaded, parse_record-record_text, length-record_text, parse_record_other,
}
use hacman.Cache.Load.{
  Answer, interrupted, broken, got, room, two_lines, read_loop, content, finish_read, load,
}
use mathlib.Core.Bool.{false≢true}
use hacman.Base.{
  zero, suc, take_of_le, take-append_of_le, ℕ, ◌+◌, ◌-◌, ◌≤◌, ◌<◌, min, true, Option, some, List,
  [], ◌∷◌, ◌++◌, append_assoc, append-nil, ◌≡◌, ◌≢◌, refl, sym, ◌∙◌, ap, inl, inr, arith, leb,
  Bool-cases, if◌then◌else◌, length, length-append, length-take, take, take-append-drop, drop, All,
  Bytes, split_at, split_at_more, Option-cases, success,
}

-- No call of `read` fails for good.
abbrev pub NoneBroken : List Answer → Type 0
NoneBroken = All (λ a. a ≢ broken)

-- The loop stops with both lines, or with all that the buffer can hold.
data Stops (file : Bytes) : Bytes → Type 0 where
  filled : {buf : Bytes} → buf ≡ take (record_max - 1) file → Stops file buf
  enough :
      {buf : Bytes} (more : Bytes)
      → two_lines buf ≡ true
      → file ≡ buf ++ more
      → length buf ≤ record_max - 1
      → Stops file buf

take-append_more :
    (n : ℕ) (xs ys : Bytes) → length xs ≤ n → take n (xs ++ ys) ≡ xs ++ take (n - length xs) ys
take-append_more n [] ys h = rw (let e : n - 0 ≡ n = omega arith in e)
take-append_more zero (x ∷ xs) ys h = absurd (omega arith)
take-append_more (suc n) (x ∷ xs) ys h =
    ap (◌∷◌ x) (take-append_more n xs ys (omega arith) ∙ ap (λ k. xs ++ take k ys) (omega arith))

-- One round: the buffer grew to `buf'`, and the loop ends or goes on.
round-Stops :
    (buf' rest' : Bytes) {file : Bytes} (more : Option Bytes)
    → file ≡ buf' ++ rest'
    → length buf' ≤ record_max - 1
    → (length buf' + 1 < record_max → (b : Bytes) × (more ≡ some b) × Stops file b)
    → (b : Bytes) × ((if leb record_max (length buf' + 1)
          then some buf'
          else if two_lines buf'
          then some buf'
          else more)
        ≡ some b)
      × Stops file b
round-Stops buf' rest' more e fits next = elim (Bool-cases (leb record_max (length buf' + 1))) [
  | inl full ↦ (
    buf',
    rw full,
    filled (
        rw e (
          sym (
            take-append_of_le (record_max - 1) buf' rest' (ground arith)
            ∙ take_of_le (record_max - 1) buf' fits))),
  )
  | inr space ↦ elim (Bool-cases (two_lines buf')) [
    | inl both ↦ (buf', rw (space, both), enough rest' both e fits)
    | inr few ↦ rw (space, few) (next (ground arith))
  ]
]

read_loop-Stops :
    (calls : List Answer) (buf rest : Bytes)
    → NoneBroken calls
    → length buf + 1 < record_max
    → (b : Bytes) × (read_loop calls buf rest ≡ some b) × Stops (buf ++ rest) b
unfolding read_loop
read_loop-Stops [] buf rest w h = (
  buf ++ take (room buf) rest,
  refl,
  filled (
      let e : room buf ≡ record_max - 1 - length buf = omega arith in
      rw e (sym (take-append_more (record_max - 1) buf rest (omega arith)))),
)
read_loop-Stops (interrupted ∷ calls) buf rest w h = read_loop-Stops calls buf rest w.1 h
read_loop-Stops (broken ∷ calls) buf rest w h = absurd (w.0 refl)
read_loop-Stops (got k ∷ calls) buf [] w h = (
  buf,
  refl,
  filled (
      sym (
        take_of_le (record_max - 1) (buf ++ []) (omega (arith, length-append buf []))
        ∙ append-nil buf)),
)
read_loop-Stops (got k ∷ calls) buf (c ∷ rest) w h =
    let n = min (k + 1) (room buf) in
    let piece = take n (c ∷ rest) in
    let left = drop n (c ∷ rest) in
    let whole =
      ap (λ s. buf ++ s) (sym (take-append-drop n (c ∷ rest)))
      ∙ sym (append_assoc buf piece left) in
    let len = length-append buf piece in
    let len' = length-take n (c ∷ rest) in
    round-Stops (buf ++ piece) left (read_loop calls (buf ++ piece) left) whole (omega arith)
      (λ space. rw whole (read_loop-Stops calls (buf ++ piece) left w.1 space))

first_line_more :
    (s more : Bytes) {q : Bytes × Bytes}
    → split_at b'\n' s ≡ some q
    → first_line (s ++ more) ≡ first_line s
unfolding first_line
first_line_more s more e = rw (split_at_more b'\n' s more e, e, first_line)

-- A record is read from the first line and the second only.
parse_lines :
    (c : Cache) (s t : Bytes) {u v w : Bytes}
    → split_at b'\n' s ≡ some (u, v)
    → split_at b'\n' t ≡ some (u, w)
    → first_line w ≡ first_line v
    → parse_record c t ≡ parse_record c s
unfolding parse_record
parse_lines c s t {u} {v} {w} e f g = rw (e, f, parse_record, g)

-- Behind two complete lines, more text has no effect.
pub parse_record_more :
    (c : Cache) (b more : Bytes)
    → two_lines b ≡ true
    → parse_record c (b ++ more) ≡ parse_record c b
unfolding two_lines
parse_record_more c b more h = elim (Option-cases (split_at b'\n' b)) [
  | inl e ↦ absurd (false≢true (rw (e, two_lines) at h))
  | inr (p, e) ↦ elim (Option-cases (split_at b'\n' p.1)) [
    | inl e' ↦ absurd (false≢true (rw (e, two_lines, e') at h))
    | inr (q, e') ↦
        parse_lines c b (b ++ more) e (split_at_more b'\n' b more e) (first_line_more p.1 more e')
  ]
]

-- When no read fails for good, a load reads the record in the file's first 4095 bytes, in whatever
-- pieces it is read.
pub load-chunks :
    (c : Cache) (file : Bytes) (calls : List Answer)
    → NoneBroken calls
    → load c (content file calls) ≡ (success, parse_record (cleared c) (take (record_max - 1) file))
unfolding load finish_read
load-chunks c file calls w = stopped (read_loop-Stops calls [] file w (omega arith))
  where
    stopped :
        (b : Bytes) × (read_loop calls [] file ≡ some b) × Stops file b
        → load c (content file calls)
          ≡ (success, parse_record (cleared c) (take (record_max - 1) file))
    stopped (b, e, filled f) = rw (e, f)
    stopped (b, e, enough more both f fits) = rw (
      e,
      f,
      take-append_more (record_max - 1) b more fits,
      parse_record_more (cleared c) b (take (record_max - 1 - length b) more) both,
    )

-- A record that is saved and loaded again, in whatever pieces it is read, is the state that was
-- saved: its times, with 0 for a negative one, and its mark, with blanks for tabs and line ends. The
-- identity and the mark fit their arrays and are C strings, the identity is one line, and the times
-- are below 2 ^ 63; no read fails for good.
pub load-record_text :
    (c : Cache) (calls : List Answer)
    → IsRecordable c
    → NoneBroken calls
    → load c (content (record_text c) calls) ≡ (success, reloaded c)
load-record_text c calls h w =
    load-chunks c (record_text c) calls w
    ∙ ap (λ (d : Cache). (success, d))
        (ap (parse_record (cleared c))
            (take_of_le (record_max - 1) (record_text c) (length-record_text c h))
          ∙ parse_record-record_text c h)

-- Read for the project `c`, in whatever pieces, the record that was saved for a project `d` of
-- another identity leaves the cache cleared.
pub load-other_identity :
    (c d : Cache) (calls : List Answer)
    → IsRecordable d
    → NoneBroken calls
    → c.identity ≢ d.identity
    → load c (content (record_text d) calls) ≡ (success, cleared c)
load-other_identity c d calls h w ne =
    load-chunks c (record_text d) calls w
    ∙ ap (λ (d : Cache). (success, d))
        (ap (parse_record (cleared c))
            (take_of_le (record_max - 1) (record_text d) (length-record_text d h))
          ∙ parse_record_other (cleared c) d h (unfold cleared in ne))
