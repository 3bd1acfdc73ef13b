-- ===== src/Tests/Records.antt =====
-- src/cache.c, src/identity.c and the schedules of src/config.c at concrete inputs.
use hacman.Project.{Project, zeroed, every}
use hacman.Schedule.{sched_describe, parse_schedule}
use hacman.Schedule.RoundTrip.{parse_schedule-sched_describe, with_schedule}
use hacman.Util.Number.{decimal, parse_ulong, parse_ulong-decimal}
use hacman.Cache.Record.{Cache, record_text, cleared, parse_record}
use hacman.Cache.Record.RoundTrip.{IsRecordable, reloaded}
use hacman.Cache.Load.{Answer, interrupted, got, content, load}
use hacman.Cache.Load.Chunks.{load-chunks, load-record_text, load-other_identity, NoneBroken}
use hacman.Cache.Place.{cache_init, identity_build, address}
use hacman.Cache.Place.Layout.{IsPlaced, cache_init-IsPlaced, load_edited}
use hacman.Base.{
  take, length-take, length-append, true, false, none, some, List, [], ◌∷◌, ◌++◌, ◌≡◌, ◌≢◌, refl,
  ap, arith, length, get_or, Bytes, codes, pos, negsuc, success,
}

-- Schedules.
abbrev pub hourly : Project
hourly = record zeroed { sched_kind = every; sched_interval = pos 7200 }

hourly_text : sched_describe 32 hourly ≡ codes "2h"
unfolding sched_describe decimal
hourly_text = refl

parse_schedule-sched_describe_example :
    parse_schedule zeroed (sched_describe 32 hourly) ≡ some (with_schedule hourly zeroed)
parse_schedule-sched_describe_example =
    parse_schedule-sched_describe hourly zeroed 7200 refl (omega arith) (omega arith)

parse_ulong-decimal_example : parse_ulong (decimal 4095) ≡ some 4095
parse_ulong-decimal_example = parse_ulong-decimal 4095 (omega arith)

-- Records.
abbrev pub sample : Cache
sample = record {
  key = [];
  identity = codes "siml:0 hacman:1";
  path = [];
  workdir = [];
  mark = codes "v1\t2";
  last_check = pos 17;
  last_change = negsuc 4;
  known = false;
}

abbrev other : Cache
other = record sample { identity = codes "siml:1 hacman:1" }

sample_text : record_text sample ≡ codes "#hacman-cache 1 siml:0 hacman:1\n17\t0\tv1 2\n"
unfolding record_text
sample_text = refl

sample_read :
    parse_record (cleared sample) (record_text sample)
    ≡ record sample { mark = codes "v1 2"; last_change = pos 0; known = true }
unfolding record_text parse_record cleared
sample_read = refl

pub sample-IsRecordable : IsRecordable sample
sample-IsRecordable = ground arith

abbrev calls : List Answer
calls = got 10 ∷ interrupted ∷ got 2 ∷ []

calls-NoneBroken : NoneBroken calls
calls-NoneBroken = ground arith

identities_differ : other.identity ≢ sample.identity
identities_differ e = omega (arith, ap (λ (i : Bytes). get_or i 5 0) e)

load-chunks_example :
    load sample (content (codes "#hacman") calls)
    ≡ (success, parse_record (cleared sample) (codes "#hacman"))
load-chunks_example = load-chunks sample (codes "#hacman") calls calls-NoneBroken

load-record_text_example :
    load sample (content (record_text sample) calls) ≡ (success, reloaded sample)
load-record_text_example = load-record_text sample calls sample-IsRecordable calls-NoneBroken

load-other_identity_example :
    load other (content (record_text sample) calls) ≡ (success, cleared other)
load-other_identity_example =
    load-other_identity other sample calls sample-IsRecordable calls-NoneBroken identities_differ

-- Places.
abbrev digits_of : Bytes → Bytes
digits_of text = take 16 (text ++ codes "0000000000000000")

length-digits_of : (text : Bytes) → length (digits_of text) ≡ 16
length-digits_of text = omega (
  arith,
  length-take 16 (text ++ codes "0000000000000000"),
  length-append text (codes "0000000000000000"),
)

cache_init-IsPlaced_example :
    IsPlaced
      (codes "/c")
      (codes "url-")
      (digits_of (address zeroed none (codes "i")))
      (cache_init digits_of zeroed (codes "/c") none (codes "i"))
cache_init-IsPlaced_example =
    cache_init-IsPlaced digits_of zeroed (codes "/c") none (codes "i") (omega arith)
      length-digits_of

abbrev before_edit : Cache
before_edit = record sample { identity = identity_build digits_of (codes "1") (codes "a") 128 }

hashes_differ : digits_of (codes "a") ≢ digits_of (codes "b")
hashes_differ e = omega (arith, ap (λ (i : Bytes). get_or i 0 0) e)

before_edit-IsRecordable : IsRecordable before_edit
unfolding identity_build
before_edit-IsRecordable = ground arith

load_edited_example :
    load
      (cache_init digits_of zeroed
        (codes "/c")
        none
        (identity_build digits_of (codes "1") (codes "b") 128))
      (content (record_text before_edit) calls)
    ≡ (
      success,
      cache_init digits_of zeroed
          (codes "/c")
          none
          (identity_build digits_of (codes "1") (codes "b") 128),
    )
load_edited_example =
    load_edited digits_of (codes "1") zeroed (codes "/c") none (codes "a") (codes "b") before_edit
      calls (omega arith) length-digits_of hashes_differ refl before_edit-IsRecordable
      calls-NoneBroken
