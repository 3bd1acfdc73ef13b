-- ===== src/Check/Headers.antt =====
-- The last header of a name in a response: the lines of all its blocks, one after another.
use hacman.Check.{header_value, later, last_from, last_header}
use hacman.Config.Lines.{written}
use hacman.Base.{
  ℕ, zero, suc, ◌+◌, ◌≤◌, ◌<◌, Option, none, some, List, [], ◌∷◌, ◌++◌, append_assoc, ◌≡◌, refl,
  sym, ap, ◌∙◌, inl, inr, arith, length, length-append, All, Lacks, Bytes, split_at,
  split_at-append, Option-cases,
}

-- What the lines say of the header, the last of them first.
abbrev pub last_value : Bytes → List Bytes → Option Bytes
last_value name [] = none
last_value name (l ∷ ls) = later (header_value name l) (last_value name ls)

later_assoc : (a b c : Option Bytes) → later (later a b) c ≡ later a (later b c)
later_assoc a b none = refl
later_assoc a b (some v) = refl

later-none : (a : Option Bytes) → later none a ≡ a
later-none none = refl
later-none (some v) = refl

-- A found value stays, unless a later line has one.
last_from-later :
    (fuel : ℕ) (name : Bytes) (a : Option Bytes) (s : Bytes)
    → last_from fuel name a s ≡ later a (last_from fuel name none s)
unfolding last_from
last_from-later zero name a s = refl
last_from-later (suc fuel) name a [] = refl
last_from-later (suc fuel) name a (c ∷ s) = elim (Option-cases (split_at b'\n' (c ∷ s))) [
  | inl e ↦ rw (e, last_from, later-none)
  | inr (q, e) ↦
      let v = header_value name q.0 in
      rw (e, last_from)
        (last_from-later fuel name (later a v) q.1
          ∙ later_assoc a v (last_from fuel name none q.1)
          ∙ ap (later a) (
              sym (last_from-later fuel name v q.1)
              ∙ ap (λ w. last_from fuel name w q.1) (sym (later-none v))))
]

-- One line in front of the rest.
last_from_line :
    (fuel : ℕ) (name l s : Bytes) (a : Option Bytes)
    → Lacks b'\n' l
    → last_from (suc fuel) name a (l ++ b'\n' ∷ s)
      ≡ last_from fuel name (later a (header_value name l)) s
unfolding last_from
last_from_line fuel name [] s a h = rw (split_at-append b'\n' [] s h, last_from)
last_from_line fuel name (c ∷ l) s a h = rw (split_at-append b'\n' (c ∷ l) s h, last_from)

split_at_shorter :
    (b : ℕ) (s : Bytes) {q : Bytes × Bytes} → split_at b s ≡ some q → length q.1 < length s
unfolding split_at
split_at_shorter b [] e = cc
split_at_shorter b (c ∷ s) e = elim (Option-cases (split_at b s)) [
  | inl w ↦ ground (arith, e, w)
  | inr (r, w) ↦ ground (arith, e, w, split_at_shorter b s w)
]

last_from-fuel :
    (f g : ℕ) (name : Bytes) (a : Option Bytes) (s : Bytes)
    → length s ≤ f
    → length s ≤ g
    → last_from f name a s ≡ last_from g name a s
unfolding last_from
last_from-fuel zero zero name a s hf hg = refl
last_from-fuel zero (suc g) name a [] hf hg = refl
last_from-fuel zero (suc g) name a (c ∷ s) hf hg = absurd (omega arith)
last_from-fuel (suc f) zero name a [] hf hg = refl
last_from-fuel (suc f) zero name a (c ∷ s) hf hg = absurd (omega arith)
last_from-fuel (suc f) (suc g) name a [] hf hg = refl
last_from-fuel (suc f) (suc g) name a (c ∷ s) hf hg = elim (Option-cases (split_at b'\n' (c ∷ s))) [
  | inl e ↦ rw (e, last_from)
  | inr (q, e) ↦
      let less = split_at_shorter b'\n' (c ∷ s) e in
      rw (e, last_from)
        (last_from-fuel f g name (later a (header_value name q.0)) q.1 (omega arith) (omega arith))
]

-- For any lines `ls` and any text `s` behind them, the header's value is the last one in `s`, or if
-- it has none, the last one in `ls`: of a chain of redirects only the last hop that has the header
-- counts.
pub last_header-later :
    (name : Bytes) (ls : List Bytes) (s : Bytes)
    → All (Lacks b'\n') ls
    → last_header (written ls ++ s) name ≡ later (last_value name ls) (last_header s name)
unfolding last_header written
last_header-later name [] s h = sym (later-none (last_header s name))
last_header-later name (l ∷ ls) s (h, hs) =
    let t = written ls ++ s in
    let v = header_value name l in
    ap (λ (x : Bytes). last_from (length x) name none x) (append_assoc l (b'\n' ∷ written ls) s)
    ∙ last_from-fuel (length (l ++ b'\n' ∷ t)) (suc (length l + length t)) name none
        (l ++ b'\n' ∷ t) (omega arith) (omega (arith, length-append l (b'\n' ∷ t)))
    ∙ last_from_line (length l + length t) name l t none h
    ∙ last_from-later (length l + length t) name (later none v) t
    ∙ ap (later (later none v)) (
        last_from-fuel (length l + length t) (length t) name none t (omega arith) (omega arith)
        ∙ last_header-later name ls s hs)
    ∙ ap (λ (w : Option Bytes). later w (later (last_value name ls) (last_header s name)))
        (later-none v)
    ∙ sym (later_assoc v (last_value name ls) (last_header s name))
