-- ===== src/Base/Digits.antt =====
-- Numbers in a base: the digits of a number from the most significant one on, and their value.
use Prim.Native.Nat.{ℕ, zero, suc, ◌+◌, ◌*◌, ◌/◌, ◌%◌, ◌^◌, ◌<◌}
use mathlib.Core.Path.{◌≡◌, refl, sym, ap, ◌∙◌}
use mathlib.Core.List.{List, [], ◌∷◌}
use native.Mathlib.Omega.{arith, div_any}
use native.Mathlib.Nat.{pow-zero, pow-suc, div-div-eq-div-mul, div-eq_of_lt, mod-lt}
use hacman.Base.Lists.{length, All}

-- The `n` last digits of `v`; in base `2 ^ k`, `v / base ^ i` is `v >> (k * i)`.
unfoldable pub places : ℕ → ℕ → ℕ → List ℕ
places base zero v = []
places base (suc n) v = (v / base ^ n % base) ∷ places base n v

-- The value of more digits behind `v`.
unfoldable pub value_from : ℕ → ℕ → List ℕ → ℕ
value_from base v [] = v
value_from base v (d ∷ ds) = value_from base (v * base + d) ds

value_step : (base n v : ℕ) → v / base ^ suc n * base + v / base ^ n % base ≡ v / base ^ n
value_step base n v =
    let e : v / base ^ n / base ≡ v / base ^ suc n =
      div-div-eq-div-mul v (base ^ n) base ∙ ap (λ k. v / k) (sym (pow-suc base n)) in
    ap (λ q. q * base + v / base ^ n % base) (sym e) ∙ omega (arith, div_any (v / base ^ n) base)

value_from-places : (base n v : ℕ) → value_from base (v / base ^ n) (places base n v) ≡ v
unfolding places value_from
value_from-places base zero v = ap (λ k. v / k) (pow-zero base) ∙ omega arith
value_from-places base (suc n) v =
    ap (λ q. value_from base q (places base n v)) (value_step base n v) ∙ value_from-places base n v

-- As many digits as a number has give the number.
pub value_from-places_of_lt :
    (base n v : ℕ) → v < base ^ n → value_from base 0 (places base n v) ≡ v
value_from-places_of_lt base n v h =
    ap (λ q. value_from base q (places base n v)) (sym (div-eq_of_lt h))
    ∙ value_from-places base n v

pub length-places : (base n v : ℕ) → length (places base n v) ≡ n
unfolding places
length-places base zero v = refl
length-places base (suc n) v = ap suc (length-places base n v)

-- Every digit is smaller than the base.
pub places_lt : (base n v : ℕ) → 0 < base → All (λ d. d < base) (places base n v)
unfolding places
places_lt base zero v h = tt
places_lt base (suc n) v h = (mod-lt (v / base ^ n) h, places_lt base n v h)
