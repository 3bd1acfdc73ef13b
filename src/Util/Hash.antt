-- ===== src/Util/Hash.antt =====
-- src/util.c, `hm_hash_hex`, and src/version.c, `hm_version`: a digest of 64 bits in hexadecimal.
-- The digest itself is a parameter: XXH3 of vendor/xxhash, or the slot that the build fills.
use hacman.Base.{
  ℕ, zero, suc, ◌<◌, Bool, true, ◌&&◌, Bool-cases, ==_iff, inl, inr, ◌^◌, [], ◌∷◌, ◌++◌, map,
  length, length-map, get_or, All, Bytes, codes, places, value_from, value_from-places_of_lt,
  length-places, places_lt, ◌≡◌, refl, ap, ◌∙◌, arith, ◌==◌, if◌then◌else◌,
}

abbrev pub hex : Bytes
hex = codes "0123456789abcdef"

abbrev pub hex_digit : ℕ → ℕ
hex_digit d = get_or hex d 0

-- The loop: the digits of the digest `h`, the highest first.
unfoldable pub hash_hex : ℕ → Bytes
hash_hex h = map hex_digit (places 16 16 h)

-- `hm_version`: the version of the project, `+` and the digits of the slot.
unfoldable pub hm_version : Bytes → ℕ → Bytes
hm_version project h = project ++ b'+' ∷ map hex_digit (places 16 16 h)

-- The value of a hexadecimal digit.
unfoldable pub index_from : ℕ → Bytes → ℕ → ℕ
index_from i [] c = i
index_from i (x ∷ s) c = let more = index_from (suc i) s c in if x == c then i else more

abbrev pub unhex : ℕ → ℕ
unhex c = index_from 0 hex c

-- A test of all numbers below `n`.
all_below : ℕ → (ℕ → Bool) → Bool
all_below zero test = true
all_below (suc n) test = test n && all_below n test

all_below_lem :
    (n : ℕ) (test : ℕ → Bool) → all_below n test ≡ true → (d : ℕ) → d < n → test d ≡ true
unfolding all_below
all_below_lem zero test h d l = absurd (omega arith)
all_below_lem (suc n) test h d l = elim (Bool-cases (d == n)) [
  | inl e ↦ let same : d ≡ n = (==_iff d n).0 e in rw same (ground arith)
  | inr e ↦ all_below_lem n test (ground arith) d (ground arith)
]

unhex-hex_digit : (d : ℕ) → d < 16 → unhex (hex_digit d) ≡ d
unfolding index_from all_below
unhex-hex_digit d h =
    (==_iff (unhex (hex_digit d)) d).0 (all_below_lem 16 (λ e. unhex (hex_digit e) == e) refl d h)

map-unhex : (ds : Bytes) → All (λ d. d < 16) ds → map unhex (map hex_digit ds) ≡ ds
map-unhex [] h = refl
map-unhex (d ∷ ds) (hd, hs) = rw (unhex-hex_digit d hd, map-unhex ds hs) refl

-- The sixteen digits of a 64-bit digest determine it: they are read back as the digest.
pub hash_hex-value : (h : ℕ) → h < 2 ^ 64 → value_from 16 0 (map unhex (hash_hex h)) ≡ h
unfolding hash_hex
hash_hex-value h l =
    ap (value_from 16 0) (map-unhex (places 16 16 h) (places_lt 16 16 h (omega arith)))
    ∙ value_from-places_of_lt 16 16 h (omega arith)

pub length-hash_hex : (h : ℕ) → length (hash_hex h) ≡ 16
unfolding hash_hex
length-hash_hex h = length-map hex_digit (places 16 16 h) ∙ length-places 16 16 h
