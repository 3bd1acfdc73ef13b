-- ===== src/Check/Search.antt =====
-- `find_sub` finds the first place of a text.
use hacman.Check.{find_from, find_sub}
use mathlib.Core.Bool.{false≢true}
use hacman.Base.{
  ℕ, ◌≤◌, ◌<◌, true, false, ◌||◌, some, [], ◌∷◌, ◌++◌, ◌≡◌, ◌≢◌, ◌↔◌, refl, sym, ap, ◌∙◌, inl, inr,
  arith, ltb, ◌==◌, length, length-append, take, drop, take-append-drop, take-append_length, Bytes,
  bytes_eq, bytes_eq_iff, Bool-cases, Option-cases,
}

-- The text begins with the needle.
abbrev pub StartsWith : Bytes → Bytes → Type 0
StartsWith needle s = (t : Bytes) × (s ≡ needle ++ t)

-- At no place in `u` does the needle begin in `u ++ v`.
abbrev pub First : Bytes → Bytes → Bytes → Type 0
First needle [] v = Unit
First needle (c ∷ u) v = (StartsWith needle (c ∷ (u ++ v)) → ⊥) × First needle u v

take-StartsWith :
    (needle s : Bytes) → (bytes_eq (take (length needle) s) needle ≡ true) ↔ StartsWith needle s
take-StartsWith needle s = (
  (λ e. (
    drop (length needle) s,
    sym (take-append-drop (length needle) s)
        ∙ ap (λ (t : Bytes). t ++ drop (length needle) s) ((bytes_eq_iff _ needle).0 e),
  )),
  (λ (t, e). rw e ((bytes_eq_iff _ needle).1 (take-append_length needle t))),
)

nothing : (needle : Bytes) → StartsWith needle [] → needle ≡ []
nothing [] (t, e) = refl
nothing (c ∷ needle) (t, e) = cc

nonempty : (needle : Bytes) → needle ≢ [] → 0 < length needle
nonempty [] n = absurd (n refl)
nonempty (c ∷ needle) n = omega arith

module _ (needle : Bytes) where
  -- The three branches of a round.
  here :
      (c : ℕ) (s : Bytes) → StartsWith needle (c ∷ s) → find_from needle (c ∷ s) ≡ some ([], c ∷ s)
  unfolding find_from
  here c s h =
      let m = (take-StartsWith needle (c ∷ s)).1 h in
      let len = ap (λ (t : Bytes). length t) h.1 in
      let room : ltb (length (c ∷ s)) (length needle) ≡ false =
        ground (arith, length-append needle h.0, len) in
      rw (room, m, find_from)

  next :
      (c : ℕ) (s : Bytes) {p : Bytes × Bytes}
      → (StartsWith needle (c ∷ s) → ⊥)
      → length needle ≤ length (c ∷ s)
      → find_from needle s ≡ some p
      → find_from needle (c ∷ s) ≡ some (c ∷ p.0, p.1)
  unfolding find_from
  next c s h len e = elim (Bool-cases (bytes_eq (take (length needle) (c ∷ s)) needle)) [
    | inl m ↦ absurd (h ((take-StartsWith needle (c ∷ s)).0 m))
    | inr m ↦
        let room : ltb (length (c ∷ s)) (length needle) ≡ false = ground arith in
        rw (room, m, find_from, e)
  ]

  abbrev pub Found : Bytes → Bytes × Bytes → Type 0
  Found s p = (s ≡ p.0 ++ p.1) × StartsWith needle p.1 × First needle p.0 p.1

  Found-find_from : (s : Bytes) {p : Bytes × Bytes} → find_from needle s ≡ some p → Found s p
  unfolding find_from
  Found-find_from [] e = cc
  Found-find_from (c ∷ s) {p} e = elim (Bool-cases (ltb (length (c ∷ s)) (length needle))) [
    | inl t ↦ absurd ground (arith, t)
    | inr t ↦ elim (Bool-cases (bytes_eq (take (length needle) (c ∷ s)) needle)) [
      | inl m ↦
          let eq : p ≡ ([], c ∷ s) = cc (rw (t, m, find_from) at e) in
          rw eq (refl, (take-StartsWith needle (c ∷ s)).0 m, tt)
      | inr m ↦ elim (Option-cases (find_from needle s)) [
        | inl w ↦ absurd (ground (arith, t, m, w))
        | inr (q, w) ↦
            let eq : p ≡ (c ∷ q.0, q.1) = cc (rw (t, m, find_from, w) at e) in
            let (split, starts, first) = Found-find_from s w in
            rw eq (
              ap (◌∷◌ c) split,
              starts,
              ((λ h. false≢true (sym m ∙ (take-StartsWith needle (c ∷ s)).1 (rw split h))), first),
            )
      ]
    ]
  ]

  Found-find_sub :
      (s : Bytes) {p : Bytes × Bytes} → find_sub s needle ≡ some p → (needle ≢ []) × Found s p
  unfolding find_sub
  Found-find_sub s h = elim (Bool-cases (length needle == 0 || ltb (length s) (length needle))) [
    | inl t ↦ absurd (ground (arith, t))
    | inr t ↦
        ((λ e. ground (arith, t, ap (λ (n : Bytes). length n) e)), Found-find_from s (rw t at h))
  ]

  finds :
      (u v : Bytes)
      → needle ≢ []
      → StartsWith needle v
      → First needle u v
      → find_from needle (u ++ v) ≡ some (u, v)
  finds [] [] n h f = absurd (n (nothing needle h))
  finds [] (c ∷ v) n h f = here c v h
  finds (c ∷ u) v n (t, e) (away, f) =
      let len = ap (λ (t : Bytes). length t) e in
      next c (u ++ v) away (omega (arith, length-append u v, length-append needle t, len))
        (finds u v n (t, e) f)

-- `find_sub` gives a place exactly when the needle is not empty, the text is what stands in front of
-- the place and what stands from it on, the needle is there, and it is at no earlier place.
pub find_sub_iff :
    (s needle : Bytes) (p : Bytes × Bytes)
    → (find_sub s needle ≡ some p) ↔ ((needle ≢ []) × Found needle s p)
unfolding find_sub
find_sub_iff s needle p = (Found-find_sub needle s, given)
  where
    given : (needle ≢ []) × Found needle s p → find_sub s needle ≡ some p
    given (n, (split, (t, e), first)) =
        let len = ap (λ (x : Bytes). length x) e in
        let total = ap (λ (x : Bytes). length x) split in
        let some_byte = nonempty needle n in
        let room : (length needle == 0 || ltb (length s) (length needle)) ≡ false =
          ground (arith, length-append p.0 p.1, length-append needle t, len, total, some_byte) in
        rw room (rw split (finds needle p.0 p.1 n (t, e) first))
