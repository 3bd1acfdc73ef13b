-- ===== src/Util/Output.antt =====
-- src/util.c, `hm_write_prefixed_stderr` and `hm_err_stream_end`: every line on stderr gets
-- hacman's mark. The state is `stderr_line_start`.
pub mod Stream
use hacman.Base.{
  ℕ, zero, suc, Bool, true, false, not, ◌&&◌, ◌||◌, Option, none, some, [], ◌∷◌, ◌++◌,
  if◌then◌else◌, length, take, Bytes, bytes_eq, codes, split_at,
}

abbrev pub stderr_prefix : Bytes
stderr_prefix = codes "hacman: "

-- What stands in front of the text at the read position.
unfoldable pub line_prefix : Bool → Bool → Bytes → Bytes
line_prefix keep false s = []
line_prefix keep true s =
    if not keep || not (bytes_eq (take (length stderr_prefix) s) stderr_prefix)
    then stderr_prefix
    else []

-- The loop, on fuel: each round writes a byte at least. What it writes, and the new state.
unfoldable pub write_lines : ℕ → Bool → Bool → Bytes → Bytes × Bool
write_lines zero keep start s = ([], start)
write_lines (suc fuel) keep start [] = ([], start)
write_lines (suc fuel) keep start (c ∷ s) = elim (split_at b'\n' (c ∷ s)) [
  | none ↦ (line_prefix keep start (c ∷ s) ++ c ∷ s, false)
  | some q ↦
      let r = write_lines fuel keep true q.1 in
      (line_prefix keep start (c ∷ s) ++ (q.0 ++ (b'\n' ∷ r.0)), r.1)
]

unfoldable pub write_prefixed : Bool → Bool → Bytes → Bytes × Bool
write_prefixed keep start s = write_lines (length s) keep start s

-- `hm_err_stream_end`
unfoldable pub err_stream_end : Bool → Bytes × Bool
err_stream_end true = ([], true)
err_stream_end false = (b'\n' ∷ [], true)
