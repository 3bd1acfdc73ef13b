-- ===== src/Check/Last.antt =====
-- src/check.c: which line of a response gives a header its value.
use hacman.Check.{lower}
use hacman.Base.{map, ◌≡◌, length, take, Bytes}

-- The line has the name, in any letters of upper or lower case.
abbrev pub HasName : Bytes → Bytes → Type 0
HasName name line = map lower (take (length name) line) ≡ name
