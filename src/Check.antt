-- ===== src/Check.antt =====
-- src/check.c: what a response says of the mark of a project. The request itself, and the hash of a
-- body, are inputs.
pub mod Search
pub mod Trim
pub mod Headers
pub mod Last
pub mod Version
use hacman.Cache.Record.{mark_max}
use hacman.Project.{Project, CheckKind, etag, hash, version, url_max}
use hacman.Util.Text.{str_copy}
use mathlib.Core.Option
use hacman.Base.{
  ℕ, zero, suc, ◌+◌, ◌-◌, Bool, true, false, not, ◌&&◌, ◌||◌, Option, none, some, List, [], ◌∷◌,
  ltb, leb, ◌==◌, if◌then◌else◌, length, take, drop, Bytes, bytes_eq, codes, split_at, ℤ,
}

unfoldable pub lower : ℕ → ℕ
lower c = if leb b'A' c && leb c b'Z' then c - b'A' + b'a' else c

unfoldable pub ci_prefix : Bytes → Bytes → Bool
ci_prefix line [] = true
ci_prefix [] (n ∷ name) = false
ci_prefix (c ∷ line) (n ∷ name) = lower c == n && ci_prefix line name

abbrev pub is_blank : ℕ → Bool
is_blank c = c == b' ' || c == b'\t'

abbrev pub is_end : ℕ → Bool
is_end c = c == b'\r' || is_blank c

abbrev pub is_nil : Bytes → Bool
is_nil [] = true
is_nil (c ∷ s) = false

-- The loops that move the start and the end of a string.
unfoldable pub trim_left : Bytes → Bytes
trim_left [] = []
trim_left (c ∷ s) = let rest = trim_left s in if is_blank c then rest else c ∷ s

unfoldable pub trim_right : (ℕ → Bool) → Bytes → Bytes
trim_right f [] = []
trim_right f (c ∷ s) = let rest = trim_right f s in if is_nil rest && f c then [] else c ∷ rest

-- The value of one line, if it is the header's.
unfoldable pub header_value : Bytes → Bytes → Option Bytes
header_value name line =
    let l = trim_right (λ c. c == b'\r') line in
    if ci_prefix l name then some (trim_right is_blank (trim_left (drop (length name) l))) else none

-- `*out` and `found`: a later value replaces an earlier one.
abbrev pub later : Option Bytes → Option Bytes → Option Bytes
later found none = found
later found (some v) = some v

-- The loop over the lines, on fuel: each round reads a byte at least.
unfoldable pub last_from : ℕ → Bytes → Option Bytes → Bytes → Option Bytes
last_from zero name found s = found
last_from (suc fuel) name found [] = found
last_from (suc fuel) name found (c ∷ s) = elim (split_at b'\n' (c ∷ s)) [
  | none ↦ later found (header_value name (c ∷ s))
  | some q ↦ last_from fuel name (later found (header_value name q.0)) q.1
]

unfoldable pub last_header : Bytes → Bytes → Option Bytes
last_header buf name = last_from (length buf) name none buf

-- The loop of `find_sub`: the bytes in front of the place, and those from it on.
unfoldable pub find_from : Bytes → Bytes → Option (Bytes × Bytes)
find_from needle [] = none
find_from needle (c ∷ hay) =
    if ltb (length (c ∷ hay)) (length needle)
    then none
    else if bytes_eq (take (length needle) (c ∷ hay)) needle
    then some ([], c ∷ hay)
    else Option.map (λ (p : Bytes × Bytes). (c ∷ p.0, p.1)) (find_from needle hay)

unfoldable pub find_sub : Bytes → Bytes → Option (Bytes × Bytes)
find_sub hay needle =
    if length needle == 0 || ltb (length hay) (length needle) then none else find_from needle hay

-- Where the version ends; its text is in front of the place.
unfoldable pub version_text : Bytes → Bytes → Option Bytes
version_text suffix start =
    if ltb 0 (length suffix)
    then Option.map (λ (p : Bytes × Bytes). p.0) (find_sub start suffix)
    else elim (split_at b'\n' start) [ none ↦ some start | some q ↦ some q.0 ]

-- The blanks around the text do not count; an empty text is an error.
unfoldable pub trimmed_version : ℕ → Bytes → Option Bytes
trimmed_version size text =
    let v = trim_right is_end (trim_left text) in
    if length text == 0 then none else if length v == 0 then none else some (str_copy size v)

unfoldable pub extract_version : Project → Bytes → ℕ → Option Bytes
extract_version p body size = elim (find_sub body p.version_prefix) [
  | none ↦ none
  | some q ↦ elim (version_text p.version_suffix (drop (length p.version_prefix) q.1)) [
    | none ↦ none
    | some text ↦ trimmed_version size text
  ]
]

-- `hm_check_result`
pub record CheckResult : Type 0 where
  pub mark : Bytes
  pub body : Bytes

abbrev etag_name : Bytes
etag_name = codes "etag:"

abbrev modified_name : Bytes
modified_name = codes "last-modified:"

unfoldable pub etag_mark : Bytes → Option Bytes
etag_mark body = elim (last_header body etag_name) [
  | none ↦ last_header body modified_name
  | some v ↦ some v
]

unfoldable pub response_mark : (Bytes → Bytes) → Project → Bytes → Option CheckResult
response_mark hash_hex p body = elim p.check [
  | etag ↦
      Option.map (λ (v : Bytes). record { mark = str_copy (mark_max + 1) v; body = [] })
        (etag_mark body)
  | hash ↦ some (record { mark = hash_hex body; body = body })
  | version ↦
      Option.map (λ (v : Bytes). record { mark = v; body = body })
        (extract_version p body (mark_max + 1))
]

abbrev pub is_etag : CheckKind → Bool
is_etag etag = true
is_etag _ = false

-- `hm_check`; `curl` is given the URL and whether only the headers are asked for,
-- and the timeout.
unfoldable pub check_project :
    (Bytes → Bool → ℤ → Option Bytes) → (Bytes → Bytes) → Project → ℤ → Option CheckResult
check_project curl hash_hex p timeout =
    if ltb url_max (length p.url)
    then none
    else elim (curl (str_copy (url_max + 1) p.url) (is_etag p.check) timeout) [
      | none ↦ none
      | some body ↦ response_mark hash_hex p body
    ]
