-- ===== src/Environment/Getenv.antt =====
-- src/env.c: the pass over the environment, and `getenv`.
use hacman.Environment.{Env, has_prefix, is_null, hacman_entry, entry_step, entry_loop, env_get}
use hacman.Base.{
  ℕ, zero, suc, true, false, ◌&&◌, Option, none, some, List, [], ◌∷◌, ◌++◌, ◌==◌, if◌then◌else◌,
  get_or, drop, length, Bytes, codes, ◌≡◌, ◌≢◌, refl, sym, ap, ◌∙◌, arith, inl, inr, Bool-cases,
}

-- The value of an entry for the variable whose name and `=` are `lit`.
unfoldable pub value : Bytes → Bytes → Option Bytes
value lit name = if has_prefix lit name then some (drop (length lit) name) else none

abbrev pub or_else : Option Bytes → Option Bytes → Option Bytes
or_else none b = b
or_else (some a) b = some a

-- `getenv`: the first entry of the variable counts.
unfoldable pub getenv : Bytes → List Bytes → Option Bytes
getenv lit [] = none
getenv lit (name ∷ more) = or_else (value lit name) (getenv lit more)

-- Two names cannot both be in front.
pub has_prefix_differ :
    (x y : ℕ) (a b s : Bytes) → x ≢ y → has_prefix (x ∷ a) s ≡ true → has_prefix (y ∷ b) s ≡ false
unfolding has_prefix
has_prefix_differ x y a b [] d h = refl
has_prefix_differ x y a b (c ∷ s) d h = ground arith

has_prefix_first :
    (x : ℕ) (a s : Bytes) → (get_or s 0 0 == x) ≡ false → x ≢ 0 → has_prefix (x ∷ a) s ≡ false
unfolding has_prefix
has_prefix_first x a [] h n = refl
has_prefix_first x a (c ∷ s) h n = ground arith

-- A prefix of one byte is a test of the first byte.
has_prefix_one : (x : ℕ) (s : Bytes) → x ≢ 0 → has_prefix (x ∷ []) s ≡ (get_or s 0 0 == x)
unfolding has_prefix
has_prefix_one x [] h = ground arith
has_prefix_one x (c ∷ s) h = ground arith

has_prefix-append :
    (a b s : Bytes) → has_prefix (a ++ b) s ≡ (has_prefix a s && has_prefix b (drop (length a) s))
unfolding has_prefix
has_prefix-append [] b s = refl
has_prefix-append (x ∷ a) b [] = refl
has_prefix-append (x ∷ a) b (c ∷ s) = ground (arith, has_prefix-append a b s)

drop_nil : (n : ℕ) → drop {A = ℕ} n [] ≡ []
drop_nil zero = refl
drop_nil (suc n) = refl

drop-append : (a b s : Bytes) → drop (length (a ++ b)) s ≡ drop (length b) (drop (length a) s)
drop-append [] b s = refl
drop-append (x ∷ a) b [] = sym (drop_nil (length b))
drop-append (x ∷ a) b (c ∷ s) = drop-append a b s

has_prefix_second :
    (z x y : ℕ) (a b s : Bytes)
    → x ≢ y
    → has_prefix (z ∷ x ∷ a) s ≡ true
    → has_prefix (z ∷ y ∷ b) s ≡ false
unfolding has_prefix
has_prefix_second z x y a b [] d h = refl
has_prefix_second z x y a b (c ∷ s) d h = ground (arith, has_prefix_differ x y a b s d)

or_else-none : (o : Option Bytes) → or_else o none ≡ o
or_else-none none = refl
or_else-none (some s) = refl

abbrev settings : Option Bytes → Option Bytes → Option Bytes → Option Bytes → Env
settings o d k h = record { options = o; debug = d; cache = k; home = h }

-- A variable that the entry is not about keeps its value.
keeps : (o : Option Bytes) (lit s : Bytes) → has_prefix lit s ≡ false → o ≡ or_else o (value lit s)
unfolding value
keeps o lit s h = rw h (sym (or_else-none o))

-- The variable that it is about gets the value, unless it has one.
take_first :
    (f : Option Bytes → Env) (o : Option Bytes) (lit s : Bytes)
    → has_prefix lit s ≡ true
    → (if is_null o then f (some (drop (length lit) s)) else f o) ≡ f (or_else o (value lit s))
unfolding value
take_first f none lit s h = rw h refl
take_first f (some v) lit s h = refl

same :
    {o o' d d' k k' h h' : Option Bytes}
    → o ≡ o'
    → d ≡ d'
    → k ≡ k'
    → h ≡ h'
    → settings o d k h ≡ settings o' d' k' h'
same a b c e = rw (a, b, c, e) refl

-- Behind `HACMAN`, one of the three settings at most is there.
hacman_entry-value :
    (o d k h : Option Bytes) (s : Bytes)
    → hacman_entry (settings o d k h) s
      ≡ settings
          (or_else o (value (codes "=") s))
          (or_else d (value (codes "_DEBUG=") s))
          (or_else k (value (codes "_CACHE=") s))
          h
unfolding hacman_entry
hacman_entry-value o d k h s =
    let one = has_prefix_one b'=' s (omega arith) in
    let here = keeps o (codes "=") s in
    let in_debug = keeps d (codes "_DEBUG=") s in
    let in_cache = keeps k (codes "_CACHE=") s in
    elim (Bool-cases (has_prefix (codes "=") s)) [
      | inl e ↦
          let nd = has_prefix_differ b'=' b'_' [] (codes "DEBUG=") s (omega arith) e in
          let nk = has_prefix_differ b'=' b'_' [] (codes "CACHE=") s (omega arith) e in
          rw (sym one ∙ e, nd, nk)
            (take_first (λ x. settings x d k h) o (codes "=") s e
              ∙ same refl (in_debug nd) (in_cache nk) refl)
      | inr n ↦ elim (Bool-cases (has_prefix (codes "_DEBUG=") s)) [
        | inl e ↦
            let nk =
              has_prefix_second b'_' b'D' b'C' (codes "EBUG=") (codes "ACHE=") s (omega arith) e in
            rw (sym one ∙ n, e, nk)
              (take_first (λ x. settings o x k h) d (codes "_DEBUG=") s e
                ∙ same (here n) refl (in_cache nk) refl)
        | inr nd ↦ elim (Bool-cases (has_prefix (codes "_CACHE=") s)) [
          | inl e ↦
              rw (sym one ∙ n, nd, e)
                (take_first (λ x. settings o d x h) k (codes "_CACHE=") s e
                  ∙ same (here n) (in_debug nd) refl refl)
          | inr nk ↦ rw (sym one ∙ n, nd, nk) (same (here n) (in_debug nd) (in_cache nk) refl)
        ]
      ]
    ]

-- A variable whose name starts with HACMAN, seen behind that name.
value_behind :
    (lit s : Bytes)
    → has_prefix (codes "HACMAN") s ≡ true
    → value (codes "HACMAN" ++ lit) s ≡ value lit (drop 6 s)
unfolding value
value_behind lit s h =
    rw (has_prefix-append (codes "HACMAN") lit s, h)
      (ap (λ t. if has_prefix lit (drop 6 s) then some t else none)
        (drop-append (codes "HACMAN") lit s))

keeps_not_behind :
    (o : Option Bytes) (lit s : Bytes)
    → has_prefix (codes "HACMAN") s ≡ false
    → o ≡ or_else o (value (codes "HACMAN" ++ lit) s)
keeps_not_behind o lit s h =
    keeps o (codes "HACMAN" ++ lit) s (has_prefix-append (codes "HACMAN") lit s ∙ rw h refl)

keeps_other :
    (o : Option Bytes) (lit s : Bytes)
    → (get_or s 0 0 == b'H') ≡ false
    → o ≡ or_else o (value (b'H' ∷ lit) s)
keeps_other o lit s h = keeps o (b'H' ∷ lit) s (has_prefix_first b'H' lit s h (omega arith))

-- One entry adds what it says, unless the variable is there already.
entry_step-value :
    (o d k h : Option Bytes) (s : Bytes)
    → entry_step (settings o d k h) s
      ≡ settings
          (or_else o (value (codes "HACMAN=") s))
          (or_else d (value (codes "HACMAN_DEBUG=") s))
          (or_else k (value (codes "HACMAN_CACHE=") s))
          (or_else h (value (codes "HOME=") s))
unfolding entry_step
entry_step-value o d k h s = elim (Bool-cases (get_or s 0 0 == b'H')) [
  | inr n ↦ rw n (
      same (keeps_other o (codes "ACMAN=") s n) (keeps_other d (codes "ACMAN_DEBUG=") s n)
        (keeps_other k (codes "ACMAN_CACHE=") s n) (keeps_other h (codes "OME=") s n))
  | inl first ↦ elim (Bool-cases (has_prefix (codes "HACMAN") s)) [
    | inl e ↦
        let no_home =
          has_prefix_second b'H' b'A' b'O' (codes "CMAN") (codes "ME=") s (omega arith) e in
        rw
          (
            first,
            e,
            value_behind (codes "=") s e,
            value_behind (codes "_DEBUG=") s e,
            value_behind (codes "_CACHE=") s e,
          )
          (hacman_entry-value o d k h (drop 6 s)
            ∙ same refl refl refl (keeps h (codes "HOME=") s no_home))
    | inr n ↦
        let old = keeps_not_behind o (codes "=") s n in
        let old_debug = keeps_not_behind d (codes "_DEBUG=") s n in
        let old_cache = keeps_not_behind k (codes "_CACHE=") s n in
        elim (Bool-cases (has_prefix (codes "HOME=") s)) [
          | inl e ↦
              rw (first, n, e)
                (take_first (λ x. settings o d k x) h (codes "HOME=") s e
                  ∙ same old old_debug old_cache refl)
          | inr m ↦ rw (first, n, m) (same old old_debug old_cache (keeps h (codes "HOME=") s m))
        ]
  ]
]

or_else_assoc : (a b c : Option Bytes) → or_else (or_else a b) c ≡ or_else a (or_else b c)
or_else_assoc none b c = refl
or_else_assoc (some x) b c = refl

entry_loop-getenv :
    (o d k h : Option Bytes) (environ : List Bytes)
    → entry_loop (settings o d k h) environ
      ≡ settings
          (or_else o (getenv (codes "HACMAN=") environ))
          (or_else d (getenv (codes "HACMAN_DEBUG=") environ))
          (or_else k (getenv (codes "HACMAN_CACHE=") environ))
          (or_else h (getenv (codes "HOME=") environ))
unfolding entry_loop getenv
entry_loop-getenv o d k h [] =
    same (sym (or_else-none o)) (sym (or_else-none d)) (sym (or_else-none k)) (sym (or_else-none h))
entry_loop-getenv o d k h (s ∷ more) =
    ap (λ e. entry_loop e more) (entry_step-value o d k h s)
    ∙ entry_loop-getenv (or_else o (value (codes "HACMAN=") s))
        (or_else d (value (codes "HACMAN_DEBUG=") s)) (or_else k (value (codes "HACMAN_CACHE=") s))
        (or_else h (value (codes "HOME=") s)) more
    ∙ same (or_else_assoc o _ _) (or_else_assoc d _ _) (or_else_assoc k _ _) (or_else_assoc h _ _)

-- For every environment, the one pass of `hm_env_get` gives the four settings that four calls of
-- `getenv` would: of each variable the first entry counts, also when its value is empty.
pub env_get-getenv :
    (environ : List Bytes)
    → env_get environ ≡ record {
      options = getenv (codes "HACMAN=") environ;
      debug = getenv (codes "HACMAN_DEBUG=") environ;
      cache = getenv (codes "HACMAN_CACHE=") environ;
      home = getenv (codes "HOME=") environ;
    }
unfolding env_get
env_get-getenv environ = entry_loop-getenv none none none none environ
