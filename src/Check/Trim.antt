-- ===== src/Check/Trim.antt =====
-- src/check.c: the loops that drop the blanks at the start and at the end of a text.
use hacman.Check.{is_blank, is_end, trim_left, trim_right}
use hacman.Base.{
  ℕ, Bool, true, false, [], ◌∷◌, ◌++◌, ◌≡◌, ◌≢◌, refl, arith, get_or, All, Bytes, sym, ap, ◌∙◌,
  append-nil,
}

abbrev pub last_byte : Bytes → ℕ
last_byte [] = 0
last_byte (c ∷ []) = c
last_byte (c ∷ d ∷ t) = last_byte (d ∷ t)

pub last_byte-append : (s t : Bytes) → t ≢ [] → last_byte (s ++ t) ≡ last_byte t
last_byte-append [] t h = refl
last_byte-append (c ∷ []) [] h = absurd (h refl)
last_byte-append (c ∷ []) (d ∷ t) h = refl
last_byte-append (c ∷ d ∷ s) t h = last_byte-append (d ∷ s) t h

-- A text that neither begins with a blank nor ends with a blank or a CR.
pub record IsTrimmed (t : Bytes) : Type 0 where
  pub some_byte : t ≢ []
  pub first : is_blank (get_or t 0 0) ≡ false
  pub last : is_end (last_byte t) ≡ false

abbrev pub AreBlank : Bytes → Type 0
AreBlank = All (λ c. is_blank c ≡ true)

trim_left-append :
    (lead t : Bytes) → AreBlank lead → is_blank (get_or t 0 0) ≡ false → trim_left (lead ++ t) ≡ t
unfolding trim_left
trim_left-append [] [] h n = refl
trim_left-append [] (c ∷ t) h n = rw n refl
trim_left-append (b ∷ lead) t (hb, h) n = rw hb (trim_left-append lead t h n)

trim_right_none :
    (f : ℕ → Bool) (trail : Bytes) → All (λ c. f c ≡ true) trail → trim_right f trail ≡ []
unfolding trim_right
trim_right_none f [] h = refl
trim_right_none f (c ∷ trail) (hc, h) = rw (trim_right_none f trail h, hc) refl

pub trim_right-append :
    (f : ℕ → Bool) (t trail : Bytes)
    → t ≢ []
    → f (last_byte t) ≡ false
    → All (λ c. f c ≡ true) trail
    → trim_right f (t ++ trail) ≡ t
unfolding trim_right
trim_right-append f [] trail n e h = absurd (n refl)
trim_right-append f (c ∷ []) trail n e h =
    let last : f c ≡ false = e in rw (trim_right_none f trail h, last) refl
trim_right-append f (c ∷ d ∷ t) trail n e h =
    let rest : trim_right f ((d ∷ t) ++ trail) ≡ d ∷ t =
      trim_right-append f (d ∷ t) trail (λ x. cc) e h in
    rw rest refl

-- Blanks in front of a trimmed text, and blanks or CRs behind it, do not count.
pub trim-append :
    (lead t trail : Bytes)
    → AreBlank lead
    → IsTrimmed t
    → All (λ c. is_end c ≡ true) trail
    → trim_right is_end (trim_left (lead ++ (t ++ trail))) ≡ t
trim-append lead [] trail hl h ht = absurd (h.some_byte refl)
trim-append lead (c ∷ t) trail hl h ht =
    rw (trim_left-append lead ((c ∷ t) ++ trail) hl h.first)
      (trim_right-append is_end (c ∷ t) trail h.some_byte h.last ht)

-- The same for a text that ends where the line ends.
pub trim-append_lead :
    (lead t : Bytes) → AreBlank lead → IsTrimmed t → trim_right is_blank (trim_left (lead ++ t)) ≡ t
trim-append_lead lead [] hl h = absurd (h.some_byte refl)
trim-append_lead lead (c ∷ t) hl h =
    let last : is_blank (last_byte (c ∷ t)) ≡ false = ground (arith, h.last) in
    rw (trim_left-append lead (c ∷ t) hl h.first) (
      sym (ap (trim_right is_blank) (append-nil (c ∷ t)))
      ∙ trim_right-append is_blank (c ∷ t) [] h.some_byte last tt)
