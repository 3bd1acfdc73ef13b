-- ===== src/Tests/Responses.antt =====
-- src/check.c and the output of src/util.c at concrete inputs.
use hacman.Project.{Project, zeroed}
use hacman.Config.Lines.{written}
use hacman.Check.{
  last_from, header_value, ci_prefix, trim_right, lower, trim_left, find_sub, last_header,
}
use hacman.Check.Search.{Found, find_sub_iff}
use hacman.Util.Output.{write_prefixed}
use hacman.Util.Output.Stream.{marked_bytes, at_start, write_prefixed-eq-marked_bytes}
use hacman.Util.Source.{read_rest, read_rest-whole}
use hacman.Cache.Load.{interrupted, got}
use hacman.Base.{
  split_at, true, false, some, List, [], ◌∷◌, ◌++◌, ◌≡◌, ◌≢◌, ◌↔◌, refl, arith, Bytes, codes,
}

-- Responses.
find_sub_iff_example :
    (find_sub (codes "v=1;") (codes "=") ≡ some (codes "v", codes "=1;"))
    ↔ ((codes "=" ≢ []) × Found (codes "=") (codes "v=1;") (codes "v", codes "=1;"))
find_sub_iff_example = find_sub_iff (codes "v=1;") (codes "=") (codes "v", codes "=1;")

abbrev hop : List Bytes
hop = codes "HTTP/1.1 301\r" ∷ codes "ETag: \"a\"\r" ∷ codes "\r" ∷ []

redirected : last_header (written hop ++ codes "etag:b ") (codes "etag:") ≡ some (codes "b")
unfolding last_header last_from written split_at header_value ci_prefix trim_right lower trim_left
redirected = refl

abbrev tagged : Project
tagged = record zeroed { version_prefix = codes "v"; version_suffix = codes ";" }

-- Output.
write_prefixed-eq-marked_bytes_example :
    write_prefixed false true (codes "a\nb")
    ≡ (marked_bytes true (codes "a\nb"), at_start true (codes "a\nb"))
write_prefixed-eq-marked_bytes_example = write_prefixed-eq-marked_bytes true (codes "a\nb")

-- Input.
read_rest-whole_example :
    read_rest 4 (interrupted ∷ got 0 ∷ []) [] (codes "abc") ≡ some (codes "abc")
read_rest-whole_example =
    read_rest-whole 4 (interrupted ∷ got 0 ∷ []) [] (codes "abc") ((λ e. cc), ((λ e. cc), tt))
      (omega arith)
