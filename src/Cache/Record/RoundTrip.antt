-- ===== src/Cache/Record/RoundTrip.antt =====
-- A saved record is read back.
use hacman.Cache.Record.{
  Cache, record_max, mark_max, identity_max, magic, record_text, cleared, next_field, to_long,
  parse_epoch, belongs, first_line, read_fields, parse_record,
}
use hacman.Util.Number.{decimal, parse_ulong, parse_ulong-decimal, decimal-IsDigit, length-decimal}
use hacman.Util.Text.{str_copy_of_le, c_str-eq_self}
use hacman.Util.Buffer.{
  clean_byte, magnitude, append_str-eq-append, append_clean-eq-append, append_long-eq-append,
}
use hacman.Base.{
  All-imp, All-map, ◌⊎◌, inl, inr, Bool-cases, bytes_eq_iff, ℕ, ◌+◌, ◌-◌, ◌^◌, ◌≤◌, ◌<◌, true,
  false, some, [], ◌∷◌, ◌++◌, map, append_assoc, ◌≡◌, ◌≢◌, refl, sym, ◌∙◌, ap, arith, length,
  length-append, length-map, All-append, Lacks, Bytes, bytes_eq, bytes_eq_refl, split_at,
  split_at-append, ℤ, pos,
}

-- What can be recorded: the arrays' bounds, and numbers below 2 ^ 63. The arrays are C strings.
pub record IsRecordable (c : Cache) : Type 0 where
  pub identity_fits : length c.identity ≤ identity_max
  pub identity_line : Lacks b'\n' c.identity
  pub mark_fits : length c.mark ≤ mark_max
  pub mark_string : Lacks 0 c.mark
  pub check_fits : magnitude c.last_check < 2 ^ 63
  pub change_fits : magnitude c.last_change < 2 ^ 63

digits_part : ℤ → Bytes
digits_part v = decimal (magnitude v)

-- The second line.
second_line : Cache → Bytes
second_line c =
    digits_part c.last_check
    ++ (b'\t' ∷ (digits_part c.last_change ++ (b'\t' ∷ map clean_byte c.mark)))

-- The text with no capacity.
plain_text : Cache → Bytes
plain_text c = (magic ++ c.identity) ++ (b'\n' ∷ (second_line c ++ b'\n' ∷ []))

module _ (c : Cache) (h : IsRecordable c) where
  length_check : length (digits_part c.last_check) ≤ 20
  unfolding digits_part
  length_check = length-decimal (magnitude c.last_check) (omega arith)

  length_change : length (digits_part c.last_change) ≤ 20
  unfolding digits_part
  length_change = length-decimal (magnitude c.last_change) (omega arith)

  -- The buffer is large enough for every record.
  record_text-eq-plain_text : record_text c ≡ plain_text c
  unfolding record_text plain_text second_line digits_part
  record_text-eq-plain_text =
      let h1 = h.identity_fits in
      let h2 = h.mark_fits in
      let n1 = length_check in
      let n2 = length_change in
      let t2 = magic ++ c.identity in
      let t3 = t2 ++ b'\n' ∷ [] in
      let t4 = t3 ++ decimal (magnitude c.last_check) in
      let t5 = t4 ++ b'\t' ∷ [] in
      let t6 = t5 ++ decimal (magnitude c.last_change) in
      let t7 = t6 ++ b'\t' ∷ [] in
      let t8 = t7 ++ map clean_byte c.mark in
      let l2 = length-append magic c.identity in
      let l3 = length-append t2 (b'\n' ∷ []) in
      let l4 = length-append t3 (decimal (magnitude c.last_check)) in
      let l5 = length-append t4 (b'\t' ∷ []) in
      let l6 = length-append t5 (decimal (magnitude c.last_change)) in
      let l7 = length-append t6 (b'\t' ∷ []) in
      let l8 = length-append t7 (map clean_byte c.mark) in
      let l9 = length-map clean_byte c.mark in
      rw
        (
          append_str-eq-append record_max [] magic (omega arith),
          append_str-eq-append record_max magic c.identity (omega arith),
          append_str-eq-append record_max t2 (b'\n' ∷ []) (omega arith),
          append_long-eq-append record_max t3 c.last_check (omega arith),
          append_str-eq-append record_max t4 (b'\t' ∷ []) (omega arith),
          append_long-eq-append record_max t5 c.last_change (omega arith),
          append_str-eq-append record_max t6 (b'\t' ∷ []) (omega arith),
          append_clean-eq-append record_max t7 c.mark (omega arith),
          append_str-eq-append record_max t8 (b'\n' ∷ []) (omega arith),
        )
        (simp append_assoc)

next_field-append : (s rest : Bytes) → Lacks b'\t' s → next_field (s ++ b'\t' ∷ rest) ≡ (s, rest)
unfolding next_field
next_field-append [] rest h = refl
next_field-append (c ∷ s) rest (hc, hs) = ground (arith, next_field-append s rest hs)

next_field_last : (s : Bytes) → Lacks b'\t' s → next_field s ≡ (s, [])
unfolding next_field
next_field_last [] h = refl
next_field_last (c ∷ s) (hc, hs) = ground (arith, next_field_last s hs)

digits_part-Lacks : (b : ℕ) (v : ℤ) → b < b'0' → Lacks b (digits_part v)
unfolding digits_part
digits_part-Lacks b v h =
    All-imp (decimal (magnitude v)) (λ c d. omega arith) (decimal-IsDigit (magnitude v))

-- A cleaned mark breaks no line and no field.
clean-Lacks : (b : ℕ) (s : Bytes) → (b ≡ b'\t') ⊎ (b ≡ b'\n') → Lacks b (map clean_byte s)
unfolding clean_byte
clean-Lacks b [] h = tt
clean-Lacks b (c ∷ s) h = (ground arith, clean-Lacks b s h)

clean-Lacks_nul : (s : Bytes) → Lacks 0 s → Lacks 0 (map clean_byte s)
unfolding clean_byte
clean-Lacks_nul s h = All-map (λ c. c ≢ 0) clean_byte s (λ c d. ground arith) h

parse_epoch-some : (s : Bytes) {v : ℕ} → parse_ulong s ≡ some v → v < 2 ^ 63 → parse_epoch s ≡ pos v
unfolding parse_epoch to_long
parse_epoch-some s e h = rw (e, parse_epoch) (ground arith)

parse_epoch-decimal :
    (v : ℤ) → magnitude v < 2 ^ 63 → parse_epoch (digits_part v) ≡ pos (magnitude v)
unfolding digits_part
parse_epoch-decimal v h =
    parse_epoch-some (decimal (magnitude v)) (parse_ulong-decimal (magnitude v) (omega arith)) h

belongs_self : (identity : Bytes) → belongs identity (magic ++ identity) ≡ true
unfolding belongs
belongs_self identity = rw (bytes_eq_refl identity) (ground arith)

-- What a load finds in the record that was saved: the mark with its separators as blanks.
pub reloaded : Cache → Cache
reloaded c = record c {
  mark = map clean_byte c.mark;
  last_check = pos (magnitude c.last_check);
  last_change = pos (magnitude c.last_change);
  known = true;
}

read_fields-second_line :
    (c : Cache) (h : IsRecordable c) → read_fields (cleared c) (second_line c) ≡ reloaded c
unfolding read_fields second_line reloaded cleared
read_fields-second_line c h =
    let m = map clean_byte c.mark in
    let fits = h.mark_fits in
    let line = digits_part c.last_change ++ b'\t' ∷ m in
    rw (
      next_field-append (digits_part c.last_check) line
          (digits_part-Lacks b'\t' c.last_check (omega arith)),
      next_field-append (digits_part c.last_change) m
          (digits_part-Lacks b'\t' c.last_change (omega arith)),
      next_field_last m (clean-Lacks b'\t' c.mark (inl refl)),
      parse_epoch-decimal c.last_check h.check_fits,
      parse_epoch-decimal c.last_change h.change_fits,
      str_copy_of_le (mark_max + 1) m (omega (arith, length-map clean_byte c.mark)),
      c_str-eq_self m (clean-Lacks_nul c.mark h.mark_string),
    )

pub parse_record-belongs :
    (c : Cache) (text : Bytes) {u v : Bytes}
    → split_at b'\n' text ≡ some (u, v)
    → belongs c.identity u ≡ true
    → parse_record c text ≡ read_fields c (first_line v)
unfolding parse_record
parse_record-belongs c text e b = rw (e, parse_record, b)

first_line-append : (s rest : Bytes) → Lacks b'\n' s → first_line (s ++ b'\n' ∷ rest) ≡ s
unfolding first_line
first_line-append s rest h = rw (split_at-append b'\n' s rest h, first_line)

magic_line : (c : Cache) → IsRecordable c → Lacks b'\n' (magic ++ c.identity)
magic_line c h = All-append _ magic c.identity (omega arith) h.identity_line

second_line-Lacks : (c : Cache) → Lacks b'\n' (second_line c)
unfolding second_line
second_line-Lacks c =
    let m = map clean_byte c.mark in
    let last =
      All-append _ (digits_part c.last_change) (b'\t' ∷ m)
        (digits_part-Lacks b'\n' c.last_change (omega arith))
        (omega arith, clean-Lacks b'\n' c.mark (inr refl)) in
    All-append _ (digits_part c.last_check) (b'\t' ∷ (digits_part c.last_change ++ b'\t' ∷ m))
      (digits_part-Lacks b'\n' c.last_check (omega arith)) (omega arith, last)

-- Reading the text of a saved record gives the saved state.
pub parse_record-record_text :
    (c : Cache) → IsRecordable c → parse_record (cleared c) (record_text c) ≡ reloaded c
unfolding plain_text
parse_record-record_text c h = rw (record_text-eq-plain_text c h) (
    parse_record-belongs (cleared c) (plain_text c)
      (split_at-append b'\n' (magic ++ c.identity) (second_line c ++ b'\n' ∷ []) (magic_line c h))
      (unfold cleared in belongs_self c.identity)
    ∙ ap (read_fields (cleared c)) (first_line-append (second_line c) [] (second_line-Lacks c))
    ∙ read_fields-second_line c h)

-- A record with its identity and mark within their arrays fits the buffer of 4096 bytes with a byte
-- to spare, so that the load reads all of it.
pub length-record_text : (c : Cache) → IsRecordable c → length (record_text c) ≤ record_max - 1
unfolding plain_text second_line
length-record_text c h =
    let m = map clean_byte c.mark in
    let d1 = digits_part c.last_check in
    let d2 = digits_part c.last_change in
    let l1 = length-append (magic ++ c.identity) (b'\n' ∷ (second_line c ++ b'\n' ∷ [])) in
    let l2 = length-append magic c.identity in
    let l3 = length-append (second_line c) (b'\n' ∷ []) in
    let l4 = length-append d1 (b'\t' ∷ (d2 ++ b'\t' ∷ m)) in
    let l5 = length-append d2 (b'\t' ∷ m) in
    let l6 = length-map clean_byte c.mark in
    let n1 = length_check c h in
    let n2 = length_change c h in
    let h1 = h.identity_fits in
    let h2 = h.mark_fits in rw (record_text-eq-plain_text c h) (omega arith)

belongs_other : (a b : Bytes) → a ≢ b → belongs a (magic ++ b) ≡ false
unfolding belongs
belongs_other a b h = elim (Bool-cases (bytes_eq b a)) [
  | inl e ↦ absurd (h (sym ((bytes_eq_iff b a).0 e)))
  | inr e ↦ rw e (ground arith)
]

-- The record of another identity is passed over.
pub parse_record_other :
    (c d : Cache) → IsRecordable d → c.identity ≢ d.identity → parse_record c (record_text d) ≡ c
unfolding plain_text parse_record
parse_record_other c d h ne = rw (
  record_text-eq-plain_text d h,
  split_at-append b'\n' (magic ++ d.identity) (second_line d ++ b'\n' ∷ []) (magic_line d h),
  parse_record,
  belongs_other c.identity d.identity ne,
)
