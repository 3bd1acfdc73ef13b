-- ===== src/Cache/Record.antt =====
-- src/cache.c: the cached state of a project (`hm_cache` of src/hacman.h), the text of a record as
-- `hm_cache_save` writes it, and how `hm_cache_load` reads it.
pub mod RoundTrip
use hacman.Util.Number.{parse_ulong, ulong_mod}
use hacman.Util.Text.{str_copy, c_str}
use hacman.Util.Buffer.{append_str, append_clean, append_long}
use hacman.Base.{
  ◌≡◌, refl, ℕ, ◌+◌, ◌-◌, ◌^◌, Bool, true, false, not, ◌&&◌, ◌||◌, Option, none, some, [], ◌∷◌, ltb,
  ◌==◌, if◌then◌else◌, length, take, drop, Bytes, bytes_eq, codes, split_at, ℤ, pos, negsuc,
}

-- Char arrays are the C strings in them.
pub record Cache : Type 0 where
  pub key : Bytes
  pub identity : Bytes
  pub path : Bytes
  pub workdir : Bytes
  pub mark : Bytes
  pub last_check : ℤ
  pub last_change : ℤ
  pub known : Bool

abbrev pub record_max : ℕ
record_max = 4096

abbrev pub mark_max : ℕ
mark_max = 255

abbrev pub identity_max : ℕ
identity_max = 127

abbrev pub magic : Bytes
magic = codes "#hacman-cache 1 "

-- `hm_cache_save`, the bytes of `record_buf` that are written.
unfoldable pub record_text : Cache → Bytes
unfolding append_str append_clean append_long
record_text c =
    let o = append_str record_max [] magic in
    let o = append_str record_max o c.identity in
    let o = append_str record_max o (b'\n' ∷ []) in
    let o = append_long record_max o c.last_check in
    let o = append_str record_max o (b'\t' ∷ []) in
    let o = append_long record_max o c.last_change in
    let o = append_str record_max o (b'\t' ∷ []) in
    let o = append_clean record_max o c.mark in append_str record_max o (b'\n' ∷ [])

-- `hm_cache_load` clears the record's fields first.
unfoldable pub cleared : Cache → Cache
cleared c = record c { mark = []; last_check = pos 0; last_change = pos 0; known = false }

-- `next_field`: the field, and what is left of the line.
unfoldable pub next_field : Bytes → Bytes × Bytes
next_field [] = ([], [])
next_field (c ∷ s) = let (f, left) = next_field s in if c == b'\t' then ([], s) else (c ∷ f, left)

-- The conversion of an `unsigned long` to `long`.
unfoldable pub to_long : ℕ → ℤ
to_long v = if ltb v (2 ^ 63) then pos v else negsuc (ulong_mod - v - 1)

unfoldable pub parse_epoch : Bytes → ℤ
unfolding parse_ulong to_long
parse_epoch s = elim (parse_ulong s) [ none ↦ pos 0 | some v ↦ to_long v ]

-- The first line is the magic and then the identity of this project.
unfoldable pub belongs : Bytes → Bytes → Bool
unfolding bytes_eq
belongs identity line =
    not (ltb (length line) (length magic) || not (bytes_eq (take (length magic) line) magic))
    && bytes_eq (drop (length magic) line) identity

-- The second line ends at its LF or at the end of the text.
unfoldable pub first_line : Bytes → Bytes
unfolding split_at
first_line rest = elim (split_at b'\n' rest) [ none ↦ rest | some p ↦ p.0 ]

-- The fields of the second line.
unfoldable pub read_fields : Cache → Bytes → Cache
unfolding next_field parse_epoch str_copy c_str
read_fields c line =
    let (checked, r1) = next_field line in
    let (changed, r2) = next_field r1 in
    let (mark, r3) = next_field r2 in
    record c {
      last_check = parse_epoch checked;
      last_change = parse_epoch changed;
      mark = c_str (str_copy (mark_max + 1) mark);
      known = true;
    }

-- `hm_cache_load` on the bytes that were read, from a cleared state.
unfoldable pub parse_record : Cache → Bytes → Cache
unfolding split_at first_line belongs read_fields
parse_record c text = elim (split_at b'\n' text) [
  | none ↦ c
  | some p ↦ if belongs c.identity p.0 then read_fields c (first_line p.1) else c
]
