-- ===== src/Stamp/Fields.antt =====
-- tools/stamp.c: reading and writing the slot's eight bytes.
use hacman.Stamp.{all_zero}
use hacman.Stamp.Slot.{Bits, in_order, rd, wr64}
use mathlib.Core.List.{reverse-reverse}
use native.Mathlib.Nat.{zero-div}
use hacman.Base.{
  ℕ, zero, suc, ◌+◌, ◌/◌, ◌%◌, ◌^◌, ◌≤◌, ◌<◌, Bool, true, false, [], ◌∷◌, ◌++◌, take, drop, length,
  length-take, length-drop, length-reverse, drop-append_length, take-append_length,
  take-append-drop, Bytes, places, value_from-places_of_lt, length-places, ◌≡◌, refl, sym, ap, ◌∙◌,
  arith,
}

drop_nil : (n : ℕ) → drop {A = ℕ} n [] ≡ []
drop_nil zero = refl
drop_nil (suc n) = refl

drop-drop : (a b : ℕ) (s : Bytes) → drop b (drop a s) ≡ drop (a + b) s
drop-drop zero b s = ap (λ n. drop n s) (omega arith)
drop-drop (suc a) b [] = drop_nil b ∙ sym (drop_nil (suc a + b))
drop-drop (suc a) b (c ∷ s) =
    let e : suc a + b ≡ suc (a + b) = omega arith in
    drop-drop a b s ∙ sym (ap (λ n. drop n (c ∷ s)) e)

-- The byte order.
in_order_twice : (msb : Bool) (s : Bytes) → in_order msb (in_order msb s) ≡ s
in_order_twice true s = refl
in_order_twice false s = reverse-reverse s

length-in_order : (msb : Bool) (s : Bytes) → length (in_order msb s) ≡ length s
length-in_order true s = refl
length-in_order false s = length-reverse s

-- The text behind `n` bytes, and in front.
drop_front : (n : ℕ) (a b : Bytes) → length a ≡ n → drop n (a ++ b) ≡ b
drop_front n a b e = ap (λ k. drop k (a ++ b)) (sym e) ∙ drop-append_length a b

take_front : (n : ℕ) (a b : Bytes) → length a ≡ n → take n (a ++ b) ≡ a
take_front n a b e = ap (λ k. take k (a ++ b)) (sym e) ∙ take-append_length a b

length_front : (off : ℕ) (b : Bytes) → off + 8 ≤ length b → length (take off b) ≡ off
length_front off b h = omega (arith, length-take off b)

length_slot : (msb : Bool) (v : ℕ) → length (in_order msb (places 256 8 v)) ≡ 8
length_slot msb v = length-in_order msb (places 256 8 v) ∙ length-places 256 8 v

-- What is behind the front of a written file.
drop-wr64 :
    (bits : Bits) (b : Bytes) (off v : ℕ)
    → off + 8 ≤ length b
    → drop off (wr64 bits b off v) ≡ in_order bits.msb (places 256 8 v) ++ drop (off + 8) b
unfolding wr64
drop-wr64 bits b off v h = drop_front off (take off b) _ (length_front off b h)

-- A field of eight bytes is read as it was written.
pub rd-wr64 :
    (bits : Bits) (b : Bytes) (off v : ℕ)
    → off + 8 ≤ length b
    → v < 2 ^ 64
    → rd bits (wr64 bits b off v) off 8 ≡ v
unfolding rd
rd-wr64 bits b off v h l =
    let slot = in_order bits.msb (places 256 8 v) in
    rw
      (
        drop-wr64 bits b off v h,
        take_front 8 slot (drop (off + 8) b) (length_slot bits.msb v),
        in_order_twice bits.msb (places 256 8 v),
      )
      (value_from-places_of_lt 256 8 v (omega arith))

-- The second of two writes counts.
pub wr64-wr64 :
    (bits : Bits) (b : Bytes) (off v w : ℕ)
    → off + 8 ≤ length b
    → wr64 bits (wr64 bits b off v) off w ≡ wr64 bits b off w
wr64-wr64 bits b off v w h =
    let slot = in_order bits.msb (places 256 8 v) in
    let front : take off (wr64 bits b off v) ≡ take off b =
      unfold wr64 in take_front off (take off b) _ (length_front off b h) in
    let behind : drop (off + 8) (wr64 bits b off v) ≡ drop (off + 8) b =
      sym (drop-drop off 8 (wr64 bits b off v))
      ∙ ap (drop 8) (drop-wr64 bits b off v h)
      ∙ drop_front 8 slot (drop (off + 8) b) (length_slot bits.msb v) in
    unfold wr64 in
    ap (λ t. t ++ (in_order bits.msb (places 256 8 w) ++ drop (off + 8) (wr64 bits b off v))) front
    ∙ ap (λ t. take off b ++ (in_order bits.msb (places 256 8 w) ++ t)) behind

-- Eight bytes that are 0.
eight_zeros : (s : Bytes) → length s ≡ 8 → all_zero s ≡ true → s ≡ places 256 8 0
unfolding all_zero places
eight_zeros s e h = zeros 8 s e h
  where
    zeros : (n : ℕ) (t : Bytes) → length t ≡ n → all_zero t ≡ true → t ≡ places 256 n 0
    zeros zero [] e h = refl
    zeros zero (c ∷ t) e h = absurd (omega arith)
    zeros (suc n) [] e h = absurd (omega arith)
    zeros (suc n) (c ∷ t) e h =
        let zero_byte : c ≡ 0 = ground (arith, h) in
        let rest : t ≡ places 256 n 0 = zeros n t (omega arith) (ground (arith, h)) in
        let zero_digit : 0 / 256 ^ n % 256 ≡ 0 = ap (λ q. q % 256) (zero-div (256 ^ n)) in
        rw (zero_byte, rest, zero_digit) refl

in_order_zeros : (msb : Bool) → in_order msb (places 256 8 0) ≡ places 256 8 0
unfolding places
in_order_zeros true = refl
in_order_zeros false = refl

-- Clearing a slot that is clear changes nothing.
pub wr64-zero :
    (bits : Bits) (b : Bytes) (off : ℕ)
    → off + 8 ≤ length b
    → all_zero (take 8 (drop off b)) ≡ true
    → wr64 bits b off 0 ≡ b
unfolding wr64
wr64-zero bits b off h z =
    let slot = take 8 (drop off b) in
    let e : slot ≡ places 256 8 0 =
      eight_zeros slot (omega (arith, length-take 8 (drop off b), length-drop off b)) z in
    ap (λ t. take off b ++ (t ++ drop (off + 8) b)) (in_order_zeros bits.msb ∙ sym e)
    ∙ ap (λ t. take off b ++ (slot ++ t)) (sym (drop-drop off 8 b))
    ∙ ap (λ t. take off b ++ t) (take-append-drop 8 (drop off b))
    ∙ take-append-drop off b
