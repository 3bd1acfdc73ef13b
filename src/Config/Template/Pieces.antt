-- ===== src/Config/Template/Pieces.antt =====
-- What a template means: its pieces, one after another.
use hacman.Config.State.{ok, Environment}
use hacman.Config.Template.{
  Output, put, put_all, opens, closes, take_name, name_room, set_value, value_of, expand_from,
  checked, expand_template,
}
use hacman.Config.Template.Bounds.{put_all-append, checked-put_all}
use hacman.Util.Text.{str_eq, str_eq_iff, c_str-eq_self}
use hacman.Base.{
  ℕ, zero, suc, ◌≤◌, ◌<◌, Bool, false, none, some, List, [], ◌∷◌, ◌++◌, append_assoc, ◌≡◌, ◌≢◌,
  refl, ap, ◌∙◌, arith, length, length-append, All, Lacks, Bytes, String, codes, true, ◌⊎◌, inl,
  inr, Bool-cases,
}

-- Text without an opening brace, or a variable with its name and its value.
pub data Piece : Type 0 where
  literal : Bytes → Piece
  variable : Bytes → Bytes → Piece

abbrev pub spell : Piece → Bytes
spell (literal w) = w
spell (variable n v) = b'{' ∷ b'{' ∷ (n ++ b'}' ∷ b'}' ∷ [])

abbrev pub render : List Piece → Bytes
render [] = []
render (p ∷ ps) = spell p ++ render ps

-- What the variable `n` holds: HOME is the home directory, every other name an entry of the
-- environment.
abbrev pub Holds : Environment → Bytes → Bytes → Type 0
Holds env n v =
    ((n ≡ codes "HOME") × (env.home ≡ some v)) ⊎ ((n ≢ codes "HOME") × (env.getenv n ≡ some v))

-- The piece can be written, and its variable is set to a value that is not empty.
abbrev pub IsPiece : Environment → Piece → Type 0
IsPiece env (literal w) = Lacks b'{' w
IsPiece env (variable n v) =
    (length n ≤ name_room) × Lacks b'}' n × Lacks 0 n × (v ≢ []) × Holds env n v

abbrev pub content : Piece → Bytes
content (literal w) = w
content (variable n v) = v

abbrev pub contents : List Piece → Bytes
contents [] = []
contents (p ∷ ps) = content p ++ contents ps

set_value-some : (v : Bytes) → v ≢ [] → set_value (some v) ≡ some v
unfolding set_value
set_value-some [] h = absurd (h refl)
set_value-some (c ∷ v) h = refl

value_of-Holds :
    (env : Environment) (n v : Bytes) → Lacks 0 n → v ≢ [] → Holds env n v → value_of env n ≡ some v
unfolding value_of
value_of-Holds env n v l h (inl (name, e)) =
    let same : str_eq n (codes "HOME") ≡ true = (str_eq_iff n (codes "HOME")).1 name in
    rw (c_str-eq_self n l, same, e) (set_value-some v h)
value_of-Holds env n v l h (inr (name, e)) =
    let other : str_eq n (codes "HOME") ≡ false = elim (Bool-cases (str_eq n (codes "HOME"))) [
      | inl same ↦ absurd (name ((str_eq_iff n (codes "HOME")).0 same))
      | inr other ↦ other
    ] in
    rw (c_str-eq_self n l, other, e) (set_value-some v h)

take_name-append :
    (room : ℕ) (n rest : Bytes)
    → length n ≤ room
    → Lacks b'}' n
    → take_name room (n ++ b'}' ∷ rest) ≡ (n, b'}' ∷ rest)
unfolding take_name
take_name-append zero [] rest h l = refl
take_name-append zero (c ∷ n) rest h l = absurd (omega arith)
take_name-append (suc room) [] rest h l = ground arith
take_name-append (suc room) (c ∷ n) rest h (lc, ln) = ground (arith, take_name-append room n rest)

opens-ne : (c : ℕ) (s : Bytes) → c ≢ b'{' → opens (c ∷ s) ≡ none
unfolding opens
opens-ne c [] h = refl
opens-ne c (d ∷ s) h = ground arith

closes_braces : (s : Bytes) → closes (b'}' ∷ b'}' ∷ s) ≡ some s
unfolding closes
closes_braces s = refl

module _ (env : Environment) (size : ℕ) (what : String) (line : ℕ) where
  -- From every state of the buffer, the rest of the loop gives what `more` puts behind it.
  abbrev Expands : Bytes → Bytes → Type 0
  Expands s total =
      (f : ℕ) (out : Output)
      → length s ≤ f
      → expand_from env size what line f out s ≡ ok (put_all size out total)

  Expands-nil : Expands [] []
  unfolding expand_from put_all
  Expands-nil zero out h = refl
  Expands-nil (suc f) out h = refl

  Expands-byte :
      (c : ℕ) (s total : Bytes) → c ≢ b'{' → Expands s total → Expands (c ∷ s) (c ∷ total)
  unfolding expand_from put_all
  Expands-byte c s total n go zero out h = absurd (omega arith)
  Expands-byte c s total n go (suc f) out h =
      rw (opens-ne c s n, expand_from) (go f (put size out c) (omega arith))

  Expands-literal :
      (w s total : Bytes) → Lacks b'{' w → Expands s total → Expands (w ++ s) (w ++ total)
  Expands-literal [] s total l go = go
  Expands-literal (c ∷ w) s total (lc, lw) go =
      Expands-byte c (w ++ s) (w ++ total) lc (Expands-literal w s total lw go)

  round_variable :
      (f : ℕ) (out : Output) (inner n after v : Bytes) {closing : Bytes}
      → take_name name_room inner ≡ (n, closing)
      → closes closing ≡ some after
      → value_of env n ≡ some v
      → expand_from env size what line (suc f) out (b'{' ∷ b'{' ∷ inner)
        ≡ expand_from env size what line f (put_all size out v) after
  unfolding expand_from
  round_variable f out inner n after v e e' e'' = rw (e, expand_from, e', e, e'')

  Expands-variable :
      (n v s total : Bytes)
      → length n ≤ name_room
      → Lacks b'}' n
      → value_of env n ≡ some v
      → Expands s total
      → Expands (b'{' ∷ b'{' ∷ (n ++ b'}' ∷ b'}' ∷ s)) (v ++ total)
  Expands-variable n v s total r l e go zero out h = absurd (omega arith)
  Expands-variable n v s total r l e go (suc f) out h =
      round_variable f out (n ++ b'}' ∷ b'}' ∷ s) n s v
        (take_name-append name_room n (b'}' ∷ s) r l) (closes_braces s) e
      ∙ go f (put_all size out v) (omega (arith, length-append n (b'}' ∷ b'}' ∷ s)))
      ∙ ap ok (put_all-append size out v total)

  Expands-spell :
      (p : Piece) (s total : Bytes)
      → IsPiece env p
      → Expands s total
      → Expands (spell p ++ s) (content p ++ total)
  Expands-spell (literal w) s total l go = Expands-literal w s total l go
  Expands-spell (variable n v) s total (r, l, z, some_byte, e) go =
      rw (append_assoc n (b'}' ∷ b'}' ∷ []) s)
        (Expands-variable n v s total r l (value_of-Holds env n v z some_byte e) go)

  Expands-render : (ps : List Piece) → All (IsPiece env) ps → Expands (render ps) (contents ps)
  Expands-render [] _ = Expands-nil
  Expands-render (p ∷ ps) (h, hs) =
      Expands-spell p (render ps) (contents ps) h (Expands-render ps hs)

  -- A template of literal text and of variables that the environment sets to a value, where HOME is
  -- the home directory, expands, if it fits the buffer, to its texts and values one after another; only a missing leading slash can still be refused.
  pub expand_template-render :
      (ps : List Piece) (require_absolute : Bool)
      → All (IsPiece env) ps
      → length (contents ps) < size
      → expand_template env (render ps) what size line require_absolute
        ≡ checked what line require_absolute (record { written = contents ps; too_long = false })
  unfolding expand_template
  expand_template-render ps require_absolute h fits =
      rw
        (Expands-render ps h (length (render ps)) (record { written = []; too_long = false })
          (omega arith))
        (checked-put_all size (contents ps) what line require_absolute fits)
