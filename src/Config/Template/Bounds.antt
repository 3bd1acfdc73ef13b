-- ===== src/Config/Template/Bounds.antt =====
-- The output buffer of an expansion, and the fuel of its loop.
use hacman.Config.State.{Message, Result, ok, err, >>=-eq-ok, Environment}
use hacman.Config.Template.{
  Output, put, put_all, opens, closes, take_name, name_room, value_of, expand_from, checked,
  expand_template,
}
use hacman.Base.{
  ◌⊎◌, ℕ, zero, suc, ◌+◌, ◌≤◌, ◌<◌, Bool, true, false, some, [], ◌∷◌, ◌++◌, append_assoc,
  append-nil, ◌≡◌, refl, inl, inr, arith, Option-cases, length, length-append, get_or, Bytes,
  String,
}

abbrev Fits : ℕ → Output → Type 0
Fits size out = length out.written < size

put-Fits : (size : ℕ) (out : Output) (c : ℕ) → Fits size out → Fits size (put size out c)
unfolding put
put-Fits size out c h = ground (arith, length-append out.written (c ∷ []))

put_all-Fits :
    (size : ℕ) (out : Output) (v : Bytes) → Fits size out → Fits size (put_all size out v)
unfolding put_all
put_all-Fits size out [] h = h
put_all-Fits size out (c ∷ v) h = put_all-Fits size (put size out c) v (put-Fits size out c h)

put_all-eq-append :
    (size : ℕ) (out : Output) (v : Bytes)
    → length out.written + length v < size
    → put_all size out v ≡ record out { written = out.written ++ v }
unfolding put_all put
put_all-eq-append size out [] h = simp append-nil
put_all-eq-append size out (c ∷ v) h =
    let len = length-append out.written (c ∷ []) in
    ground (
      arith,
      put_all-eq-append size (record out { written = out.written ++ c ∷ [] }) v,
      append_assoc out.written (c ∷ []) v,
    )

put_all-too_long :
    (size : ℕ) (out : Output) (v : Bytes)
    → out.too_long ≡ true
    → (put_all size out v).too_long ≡ true
unfolding put_all put
put_all-too_long size out [] h = h
put_all-too_long size out (c ∷ v) h = ground (arith, put_all-too_long size (put size out c) v)

put_all_overflows :
    (size : ℕ) (out : Output) (v : Bytes)
    → length out.written < size
    → size ≤ length out.written + length v
    → (put_all size out v).too_long ≡ true
unfolding put_all put
put_all_overflows size out [] h k = absurd (omega arith)
put_all_overflows size out (c ∷ v) h k =
    let len = length-append out.written (c ∷ []) in
    ground (
      arith,
      put_all_overflows size (record out { written = out.written ++ c ∷ [] }) v,
      put_all-too_long size (record out { too_long = true }) v,
    )

pub put_all-append :
    (size : ℕ) (out : Output) (u v : Bytes)
    → put_all size (put_all size out u) v ≡ put_all size out (u ++ v)
unfolding put_all
put_all-append size out [] v = refl
put_all-append size out (c ∷ u) v = put_all-append size (put size out c) u v

-- The verdict on a whole text.
pub checked-put_all :
    (size : ℕ) (total : Bytes) (what : String) (line : ℕ) (require_absolute : Bool)
    → length total < size
    → checked what line require_absolute
        (put_all size (record { written = []; too_long = false }) total)
      ≡ checked what line require_absolute (record { written = total; too_long = false })
checked-put_all size total what line require_absolute h =
    rw (put_all-eq-append size (record { written = []; too_long = false }) total (omega arith))

pub put_all_long :
    (size : ℕ) (total : Bytes)
    → 0 < size
    → size ≤ length total
    → (put_all size (record { written = []; too_long = false }) total).too_long ≡ true
put_all_long size total p h =
    put_all_overflows size (record { written = []; too_long = false }) total p (omega arith)

take_name-shorter : (room : ℕ) (s : Bytes) → length (take_name room s).1 ≤ length s
unfolding take_name
take_name-shorter zero s = omega arith
take_name-shorter (suc room) [] = omega arith
take_name-shorter (suc room) (c ∷ s) = ground (arith, take_name-shorter room s)

opens-shorter : (s : Bytes) {t : Bytes} → opens s ≡ some t → length t + 2 ≤ length s
unfolding opens
opens-shorter [] h = ground arith
opens-shorter (a ∷ []) h = ground arith
opens-shorter (a ∷ b ∷ s) h = ground arith

closes-shorter : (s : Bytes) {t : Bytes} → closes s ≡ some t → length t + 2 ≤ length s
unfolding closes
closes-shorter [] h = ground arith
closes-shorter (a ∷ []) h = ground arith
closes-shorter (a ∷ b ∷ s) h = ground arith

module _ (env : Environment) (size : ℕ) (what : String) (line : ℕ) where
  -- How one round of the loop goes on.
  after_round :
      (P : Result Output → Result Output → Type 0) (f g : ℕ) (out : Output) (c : ℕ) (s : Bytes)
      → ((l : ℕ) (m : Message) → P (err l m) (err l m))
      → ((o : Output) (t : Bytes)
          → length t ≤ length s
          → (Fits size out → Fits size o)
          → P (expand_from env size what line f o t) (expand_from env size what line g o t))
      → P
          (expand_from env size what line (suc f) out (c ∷ s))
          (expand_from env size what line (suc g) out (c ∷ s))
  unfolding expand_from
  after_round P f g out c s fails goes = elim (Option-cases (opens (c ∷ s))) [
    | inl e ↦ rw (e, expand_from) (goes (put size out c) s (omega arith) (put-Fits size out c))
    | inr (inner, e) ↦ elim (Option-cases (closes (take_name name_room inner).1)) [
      | inl e' ↦ rw (e, expand_from, e') (fails _ _)
      | inr (after, e') ↦ elim (Option-cases (value_of env (take_name name_room inner).0)) [
        | inl e'' ↦ rw (e, expand_from, e', e'') (fails _ _)
        | inr (v, e'') ↦
            rw (e, expand_from, e', e'')
              (goes (put_all size out v) after
                (omega (
                  arith,
                  opens-shorter (c ∷ s) e,
                  closes-shorter (take_name name_room inner).1 e',
                  take_name-shorter name_room inner,
                ))
                (put_all-Fits size out v))
      ]
    ]
  ]

  -- The loop's outcome does not depend on its fuel, if there is as much as there are bytes.
  pub expand_from-fuel :
      (f g : ℕ) (out : Output) (s : Bytes)
      → length s ≤ f
      → length s ≤ g
      → expand_from env size what line f out s ≡ expand_from env size what line g out s
  unfolding expand_from
  expand_from-fuel zero zero out s hf hg = refl
  expand_from-fuel zero (suc g) out [] hf hg = refl
  expand_from-fuel zero (suc g) out (c ∷ s) hf hg = absurd (omega arith)
  expand_from-fuel (suc f) zero out [] hf hg = refl
  expand_from-fuel (suc f) zero out (c ∷ s) hf hg = absurd (omega arith)
  expand_from-fuel (suc f) (suc g) out [] hf hg = refl
  expand_from-fuel (suc f) (suc g) out (c ∷ s) hf hg =
      after_round (λ a b. a ≡ b) f g out c s (λ l m. refl)
        (λ o t h _. expand_from-fuel f g o t (omega arith) (omega arith))

  abbrev Ends : Result Output → Type 0
  Ends (ok o) = Fits size o
  Ends (err l m) = Unit

  expand_from-Ends :
      (f : ℕ) (out : Output) (s : Bytes)
      → Fits size out
      → Ends (expand_from env size what line f out s)
  unfolding expand_from
  expand_from-Ends zero out s h = h
  expand_from-Ends (suc f) out [] h = h
  expand_from-Ends (suc f) out (c ∷ s) h =
      after_round (λ a b. Ends a) f f out c s (λ l m. tt)
        (λ o t _ fits. expand_from-Ends f o t (fits h))

  checked-ok :
      (require_absolute : Bool) (out : Output) {t : Bytes}
      → checked what line require_absolute out ≡ ok t
      → (t ≡ out.written) × ((require_absolute ≡ false) ⊎ (get_or t 0 0 ≡ b'/'))
  unfolding checked
  checked-ok require_absolute out h = ground arith

  -- A path that was expanded leaves room for its NUL in the buffer of `size` bytes, and begins with
  -- a slash or was not asked to be absolute.
  pub expand_template_bounds :
      (tpl : Bytes) (require_absolute : Bool) {t : Bytes}
      → 0 < size
      → expand_template env tpl what size line require_absolute ≡ ok t
      → (length t < size) × ((require_absolute ≡ false) ⊎ (get_or t 0 0 ≡ b'/'))
  unfolding expand_template
  expand_template_bounds tpl require_absolute p h =
      let start : Output = record { written = []; too_long = false } in
      let (out, e, v) =
        >>=-eq-ok (expand_from env size what line (length tpl) start tpl)
          (checked what line require_absolute) h in
      let (eq, absolute) = checked-ok require_absolute out v in
      (rw eq (rw e at (expand_from-Ends (length tpl) start tpl p)), absolute)
