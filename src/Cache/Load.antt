-- ===== src/Cache/Load.antt =====
-- src/cache.c, `hm_cache_load`: opening the record file, the read loop with its early exit, and
-- the parse. The kernel's side is the file's content and the answers that `read` gives.
pub mod Chunks
pub mod Same
use hacman.Cache.Record.{Cache, record_max, cleared, parse_record}
use hacman.Base.{
  ℕ, ◌+◌, ◌-◌, min, Bool, true, false, Option, none, some, List, [], ◌∷◌, ◌++◌, leb, if◌then◌else◌,
  length, take, drop, Bytes, split_at, Rc, success, failure,
}

-- One call of `read`: interrupted by a signal, failed, or at most `k + 1` bytes. A list of answers
-- covers the first calls; a call behind them delivers all that fits.
pub data Answer : Type 0 where
  interrupted : Answer
  broken : Answer
  got : ℕ → Answer

-- The room that `read` is given.
abbrev pub room : Bytes → ℕ
room buf = record_max - length buf - 1

-- `memchr` twice: both lines are there.
unfoldable pub two_lines : Bytes → Bool
unfolding split_at
two_lines buf = elim (split_at b'\n' buf) [
  | none ↦ false
  | some p ↦ elim (split_at b'\n' p.1) [ none ↦ false | some q ↦ true ]
]

-- The loop: the bytes read so far, and what the file still holds. `none` is the error exit.
unfoldable pub read_loop : List Answer → Bytes → Bytes → Option Bytes
unfolding two_lines
read_loop [] buf rest = some (buf ++ take (room buf) rest)
read_loop (interrupted ∷ calls) buf rest = read_loop calls buf rest
read_loop (broken ∷ calls) buf rest = none
read_loop (got k ∷ calls) buf [] = some buf
read_loop (got k ∷ calls) buf (c ∷ rest) =
    let n = min (k + 1) (room buf) in
    let buf' = buf ++ take n (c ∷ rest) in
    let more = read_loop calls buf' (drop n (c ∷ rest)) in
    if leb record_max (length buf' + 1)
    then some buf'
    else if two_lines buf'
    then some buf'
    else more

-- What `open` finds.
pub data RecordFile : Type 0 where
  absent : RecordFile
  denied : RecordFile
  content : Bytes → List Answer → RecordFile

unfoldable pub finish_read : Cache → Option Bytes → Rc × Cache
unfolding parse_record
finish_read c none = (failure, c)
finish_read c (some text) = (success, parse_record c text)

unfoldable pub load : Cache → RecordFile → Rc × Cache
unfolding cleared read_loop finish_read
load c absent = (success, cleared c)
load c denied = (failure, cleared c)
load c (content file calls) = finish_read (cleared c) (read_loop calls [] file)
