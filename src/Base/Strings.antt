-- ===== src/Base/Strings.antt =====
-- Byte strings: what the C code holds as a pointer and a length, or as a NUL-terminated array.
use Prim.Native.Char.{code}
use Prim.Native.Nat.{ℕ}
use Prim.Native.String.{String}
use mathlib.Core.Path.{◌≡◌, refl}
use mathlib.Core.Logic.{◌≢◌, ◌↔◌, inl, inr}
use mathlib.Core.Bool.{Bool, true, false, ◌&&◌}
use mathlib.Core.Option
use mathlib.Core.Option.{Option, none, some}
use mathlib.Core.List.{List, [], ◌∷◌, ◌++◌}
use native.Mathlib.Omega.{arith}
use hacman.Base.Tests.{Option-cases, ◌==◌, if◌then◌else◌}
use hacman.Base.Lists.{All}

abbrev pub Bytes : Type 0
Bytes = List ℕ

-- A text literal as bytes; every literal below is ASCII.
abbrev pub codes : String → Bytes
codes String.[] = []
codes (String.◌∷◌ c s) = code c ∷ codes s

-- `memcmp` on all bytes together with the lengths.
unfoldable pub bytes_eq : Bytes → Bytes → Bool
bytes_eq [] [] = true
bytes_eq (x ∷ xs) (y ∷ ys) = x == y && bytes_eq xs ys
bytes_eq _ _ = false

-- No byte of the string is `b`.
abbrev pub Lacks : ℕ → Bytes → Type 0
Lacks b = All (λ c. c ≢ b)

pub bytes_eq_iff : (a b : Bytes) → (bytes_eq a b ≡ true) ↔ (a ≡ b)
unfolding bytes_eq
bytes_eq_iff (x ∷ a) (y ∷ b) = ground (arith, bytes_eq_iff a b)
bytes_eq_iff _ _ = ground arith

pub bytes_eq_refl : (a : Bytes) → bytes_eq a a ≡ true
bytes_eq_refl a = (bytes_eq_iff a a).1 refl

-- `memchr`: the text in front of the first `b`, and the text behind it.
unfoldable pub split_at : ℕ → Bytes → Option (Bytes × Bytes)
split_at b [] = none
split_at b (c ∷ s) =
    if c == b
    then some ([], s)
    else Option.map (λ (p : Bytes × Bytes). (c ∷ p.0, p.1)) (split_at b s)

pub split_at-append :
    (b : ℕ) (s rest : Bytes) → Lacks b s → split_at b (s ++ b ∷ rest) ≡ some (s, rest)
unfolding split_at
split_at-append b [] rest h = ground arith
split_at-append b (c ∷ s) rest (hc, hs) = ground (arith, split_at-append b s rest hs)

-- What is found stays found in a longer text.
pub split_at_more :
    (b : ℕ) (s more : Bytes) {u v : Bytes}
    → split_at b s ≡ some (u, v)
    → split_at b (s ++ more) ≡ some (u, v ++ more)
unfolding split_at
split_at_more b [] more h = cc
split_at_more b (c ∷ s) more h = elim (Option-cases (split_at b s)) [
  | inl e ↦ ground arith
  | inr (p, e) ↦ ground (arith, split_at_more b s more {u = p.0} {v = p.1} e)
]
