-- ===== src/Util/Text.antt =====
-- src/util.c, the comparisons and the copy of borrowed strings. An `hm_str` is its bytes; a C
-- string is its bytes in front of the NUL.
use hacman.Base.{
  ℕ, ◌+◌, ◌-◌, ◌≤◌, Bool, true, false, ◌&&◌, ◌||◌, [], ◌∷◌, ◌≡◌, ◌↔◌, refl, arith, ltb, ◌==◌,
  if◌then◌else◌, length, take, length-take, take_of_le, Lacks, Bytes, bytes_eq, bytes_eq_iff,
}

-- `hm_str_eq`: the loop over `a` stops at the literal's NUL or at a difference.
unfoldable pub str_eq : Bytes → Bytes → Bool
str_eq [] [] = true
str_eq [] (l ∷ lit) = false
str_eq (x ∷ a) [] = false
str_eq (x ∷ a) (l ∷ lit) = l == x && str_eq a lit

-- `hm_str_eq_str`, with `memcmp` on strings of one length.
unfoldable pub str_eq_str : Bytes → Bytes → Bool
unfolding bytes_eq
str_eq_str a b = length a == length b && (length a == 0 || bytes_eq a b)

-- `hm_str_copy`: the bytes that stand in front of the NUL which it writes.
unfoldable pub str_copy : ℕ → Bytes → Bytes
str_copy size s =
    if size == 0
    then []
    else let n = if ltb (size - 1) (length s) then size - 1 else length s in take n s

-- What `strlen` and `strcmp` see of a char array.
unfoldable pub c_str : Bytes → Bytes
c_str [] = []
c_str (c ∷ s) = if c == 0 then [] else c ∷ c_str s

pub str_eq_iff : (a lit : Bytes) → (str_eq a lit ≡ true) ↔ (a ≡ lit)
unfolding str_eq
str_eq_iff [] [] = ground arith
str_eq_iff [] (l ∷ lit) = ground arith
str_eq_iff (x ∷ a) [] = ground arith
str_eq_iff (x ∷ a) (l ∷ lit) = ground (arith, str_eq_iff a lit)

pub str_eq_str_iff : (a b : Bytes) → (str_eq_str a b ≡ true) ↔ (a ≡ b)
unfolding str_eq_str
str_eq_str_iff [] [] = ground arith
str_eq_str_iff [] (y ∷ b) = ground arith
str_eq_str_iff (x ∷ a) [] = ground arith
str_eq_str_iff (x ∷ a) (y ∷ b) = ground (arith, bytes_eq_iff (x ∷ a) (y ∷ b))

pub length-str_copy : (size : ℕ) (s : Bytes) → length (str_copy size s) ≤ size - 1
unfolding str_copy
length-str_copy size s = ground (arith, length-take (size - 1) s, length-take (length s) s)

pub str_copy_of_le : (size : ℕ) (s : Bytes) → length s + 1 ≤ size → str_copy size s ≡ s
unfolding str_copy
str_copy_of_le size s h = ground (arith, take_of_le (length s) s (omega arith))

-- A char array without a NUL among its bytes is the C string of those bytes.
pub c_str-eq_self : (s : Bytes) → Lacks 0 s → c_str s ≡ s
unfolding c_str
c_str-eq_self [] h = refl
c_str-eq_self (c ∷ s) (hc, hs) = ground (arith, c_str-eq_self s hs)

pub length-c_str : (s : Bytes) → length (c_str s) ≤ length s
unfolding c_str
length-c_str [] = omega arith
length-c_str (c ∷ s) = ground (arith, length-c_str s)

pub c_str-Lacks : (s : Bytes) → Lacks 0 (c_str s)
unfolding c_str
c_str-Lacks [] = tt
c_str-Lacks (c ∷ s) = ground (arith, c_str-Lacks s)
