-- ===== src/Cache/Load/Same.antt =====
-- A load changes what a record says, and not whose it is or where it lies.
use hacman.Cache.Load.{RecordFile, absent, denied, content, finish_read, read_loop, load}
use hacman.Cache.Record.{Cache, cleared, parse_record, belongs, read_fields, first_line}
use hacman.Base.{
  [], Bool, true, false, Option, none, some, if◌then◌else◌, ◌≡◌, refl, ◌∙◌, Bytes, split_at,
}

-- Two states of one project's cache.
pub record IsSame (c d : Cache) : Type 0 where
  pub identity : d.identity ≡ c.identity
  pub path : d.path ≡ c.path
  pub workdir : d.workdir ≡ c.workdir

parse_record-IsSame : (c : Cache) (text : Bytes) → IsSame c (parse_record c text)
unfolding parse_record
parse_record-IsSame c text =
    elim (split_at b'\n' text)
      as (λ x. IsSame c (elim x [
        | none ↦ c
        | some p ↦ if belongs c.identity p.0 then read_fields c (first_line p.1) else c
      ])) [
        | none ↦ record { identity = refl; path = refl; workdir = refl }
        | some p ↦ by_line p.0 p.1 (belongs c.identity p.0)
      ]
  where
    by_line : (l r : Bytes) (b : Bool) → IsSame c (if b then read_fields c (first_line r) else c)
    by_line l r true = record { identity = refl; path = refl; workdir = refl }
    by_line l r false = record { identity = refl; path = refl; workdir = refl }

finish_read-IsSame :
    (c d : Cache) (text : Option Bytes) → IsSame c d → IsSame c (finish_read d text).1
unfolding finish_read
finish_read-IsSame c d none h = h
finish_read-IsSame c d (some text) h =
    let k = parse_record-IsSame d text in
    record {
      identity = k.identity ∙ h.identity;
      path = k.path ∙ h.path;
      workdir = k.workdir ∙ h.workdir;
    }

-- A load changes the record's content only.
pub load-IsSame : (c : Cache) (f : RecordFile) → IsSame c (load c f).1
unfolding load cleared
load-IsSame c absent = record { identity = refl; path = refl; workdir = refl }
load-IsSame c denied = record { identity = refl; path = refl; workdir = refl }
load-IsSame c (content file calls) =
    finish_read-IsSame c (cleared c) (read_loop calls [] file)
      (record { identity = refl; path = refl; workdir = refl })
