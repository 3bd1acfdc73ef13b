-- ===== src/Main/Options/Forward.antt =====
-- What stands behind FILE belongs to the program.
use hacman.Main.Options.{
  Opts, parsed, set_flag, Arg, file_arg, flag, prints, cache_arg, timeout_arg, unknown, is_file,
  classify, classify_valued, timeout_of, parse_arg_list,
}
use hacman.Base.{
  true, false, Option, none, some, List, [], ◌∷◌, ◌++◌, ◌≡◌, ◌≢◌, ◌⊎◌, refl, sym, ap, ◌∙◌, inl, inr,
  arith, Bytes, ℤ,
}

-- FILE splits the arguments; only what stands in front of it was read.
pub record Forwards (o : Opts) (args : List Bytes) (o' : Opts) (f : Bytes) : Type 0 where
  pub before : List Bytes
  pub behind : List Bytes
  pub splits : args ≡ before ++ f ∷ behind
  pub argv : o'.prog_argv ≡ f ∷ behind
  pub is_operand : is_file f ≡ true
  pub independent :
      (other : List Bytes)
      → parse_arg_list false o (before ++ f ∷ other) ≡ parsed (record o' { prog_argv = f ∷ other })

set_flag-file : (o : Opts) (a : Bytes) {o' : Opts} → set_flag o a ≡ some o' → o'.file ≡ o.file
unfolding set_flag
set_flag-file o a h = ground arith

classify_valued-flag : (a : Bytes) {o' : Opts} → classify_valued a ≡ flag o' → ⊥
unfolding classify_valued
classify_valued-flag a h = ground arith

classify_valued-file : (a : Bytes) → classify_valued a ≡ file_arg → ⊥
unfolding classify_valued
classify_valued-file a h = ground arith

classify-flag : (o : Opts) (a : Bytes) {o' : Opts} → classify o a ≡ flag o' → o'.file ≡ o.file
unfolding classify
classify-flag o a {o'} h =
    ground (arith, set_flag-file o a {o' = o'}, classify_valued-flag a {o' = o'})

classify-file : (o : Opts) (a : Bytes) → classify o a ≡ file_arg → is_file a ≡ true
unfolding classify
classify-file o a h = ground (arith, classify_valued-file a)

step_flag :
    (o : Opts) (a : Bytes) (rest : List Bytes) {o' : Opts}
    → classify o a ≡ flag o'
    → parse_arg_list false o (a ∷ rest) ≡ parse_arg_list false o' rest
unfolding parse_arg_list
step_flag o a [] e = rw (e, parse_arg_list)
step_flag o a (b ∷ rest) e = rw (e, parse_arg_list)

step_file :
    (o : Opts) (a : Bytes) (rest : List Bytes)
    → classify o a ≡ file_arg
    → parse_arg_list false o (a ∷ rest) ≡ parsed (record o { file = some a; prog_argv = a ∷ rest })
unfolding parse_arg_list
step_file o a [] e = rw (e, parse_arg_list)
step_file o a (b ∷ rest) e = rw (e, parse_arg_list)

step_cache :
    (o : Opts) (a b : Bytes) (rest : List Bytes)
    → classify o a ≡ cache_arg
    → parse_arg_list false o (a ∷ b ∷ rest)
      ≡ parse_arg_list false (record o { cache_dir = some b }) rest
unfolding parse_arg_list
step_cache o a b rest e = rw (e, parse_arg_list)

step_timeout :
    (o : Opts) (a b : Bytes) (rest : List Bytes) {t : ℤ}
    → classify o a ≡ timeout_arg
    → timeout_of b ≡ some t
    → parse_arg_list false o (a ∷ b ∷ rest) ≡ parse_arg_list false (record o { timeout = t }) rest
unfolding parse_arg_list
step_timeout o a b rest e e' = rw (e, parse_arg_list, e')

module _ (o : Opts) (a : Bytes) {o' : Opts} {f : Bytes} where
  -- At FILE itself.
  Forwards-file :
      (rest : List Bytes)
      → classify o a ≡ file_arg
      → parse_arg_list false o (a ∷ rest) ≡ parsed o'
      → o'.file ≡ some f
      → Forwards o (a ∷ rest) o' f
  Forwards-file rest c h e =
      let eq : o' ≡ record o { file = some a; prog_argv = a ∷ rest } = cc (step_file o a rest c) in
      let same : f ≡ a = ground arith in
      record {
        before = [];
        behind = rest;
        splits = rw same;
        argv = ground arith;
        is_operand = rw same (classify-file o a c);
        independent = λ other. rw (same, step_file o a other c, eq);
      }

  -- Behind a flag.
  Forwards-flag :
      (rest : List Bytes) (p : Opts)
      → classify o a ≡ flag p
      → Forwards p rest o' f
      → Forwards o (a ∷ rest) o' f
  Forwards-flag rest p c h = record {
    before = a ∷ h.before;
    behind = h.behind;
    splits = ap (◌∷◌ a) h.splits;
    argv = h.argv;
    is_operand = h.is_operand;
    independent = λ other. step_flag o a (h.before ++ f ∷ other) c ∙ h.independent other;
  }

  -- Behind an option with its value.
  Forwards-valued :
      (b : Bytes) (rest : List Bytes) (p : Opts)
      → ((tail : List Bytes) → parse_arg_list false o (a ∷ b ∷ tail) ≡ parse_arg_list false p tail)
      → Forwards p rest o' f
      → Forwards o (a ∷ b ∷ rest) o' f
  Forwards-valued b rest p step h = record {
    before = a ∷ b ∷ h.before;
    behind = h.behind;
    splits = ap (λ (t : List Bytes). a ∷ b ∷ t) h.splits;
    argv = h.argv;
    is_operand = h.is_operand;
    independent = λ other. step (h.before ++ f ∷ other) ∙ h.independent other;
  }

-- The arguments that end the options with no result.
no_step :
    (o : Opts) (a : Bytes) (rest : List Bytes) (x : Arg) {o' : Opts}
    → classify o a ≡ x
    → (x ≡ prints) ⊎ (x ≡ unknown)
    → parse_arg_list false o (a ∷ rest) ≢ parsed o'
unfolding parse_arg_list
no_step o a [] x e (inl s) h = ground (arith, e, s)
no_step o a (b ∷ rest) x e (inl s) h = ground (arith, e, s)
no_step o a [] x e (inr s) h = ground (arith, e, s)
no_step o a (b ∷ rest) x e (inr s) h = ground (arith, e, s)

no_value :
    (o : Opts) (a : Bytes) (x : Arg) {o' : Opts}
    → classify o a ≡ x
    → (x ≡ cache_arg) ⊎ (x ≡ timeout_arg)
    → parse_arg_list false o (a ∷ []) ≢ parsed o'
unfolding parse_arg_list
no_value o a x e (inl s) h = ground (arith, e, s)
no_value o a x e (inr s) h = ground (arith, e, s)

-- One argument, given the result for what is behind it.
Forwards-last :
    (o : Opts) (a : Bytes) (x : Arg) {o' : Opts} {f : Bytes}
    → classify o a ≡ x
    → o.file ≡ none
    → ((p : Opts)
        → p.file ≡ none
        → parse_arg_list false p [] ≡ parsed o'
        → o'.file ≡ some f
        → Forwards p [] o' f)
    → parse_arg_list false o (a ∷ []) ≡ parsed o'
    → o'.file ≡ some f
    → Forwards o (a ∷ []) o' f
Forwards-last o a file_arg c n ih h e = Forwards-file o a [] c h e
Forwards-last o a (flag p) c n ih h e =
    Forwards-flag o a [] p c (ih p (classify-flag o a c ∙ n) (sym (step_flag o a [] c) ∙ h) e)
Forwards-last o a prints c n ih h e = absurd (no_step o a [] prints c (inl refl) h)
Forwards-last o a unknown c n ih h e = absurd (no_step o a [] unknown c (inr refl) h)
Forwards-last o a cache_arg c n ih h e = absurd (no_value o a cache_arg c (inl refl) h)
Forwards-last o a timeout_arg c n ih h e = absurd (no_value o a timeout_arg c (inr refl) h)

Forwards-timeout :
    (o : Opts) (a b : Bytes) (rest : List Bytes) {o' : Opts} {f : Bytes} (t : Option ℤ)
    → timeout_of b ≡ t
    → classify o a ≡ timeout_arg
    → ((p : Opts)
        → p.file ≡ o.file
        → parse_arg_list false p rest ≡ parsed o'
        → Forwards p rest o' f)
    → parse_arg_list false o (a ∷ b ∷ rest) ≡ parsed o'
    → Forwards o (a ∷ b ∷ rest) o' f
unfolding parse_arg_list
Forwards-timeout o a b rest none t c ih h = absurd ground (arith, t, c)
Forwards-timeout o a b rest (some v) t c ih h =
    let p : Opts = record o { timeout = v } in
    Forwards-valued o a b rest p (λ tail. step_timeout o a b tail c t)
      (ih p refl (sym (step_timeout o a b rest c t) ∙ h))

Forwards-cons :
    (o : Opts) (a b : Bytes) (rest : List Bytes) (x : Arg) {o' : Opts} {f : Bytes}
    → classify o a ≡ x
    → o.file ≡ none
    → ((p : Opts)
        → p.file ≡ none
        → parse_arg_list false p (b ∷ rest) ≡ parsed o'
        → Forwards p (b ∷ rest) o' f)
    → ((p : Opts) → p.file ≡ none → parse_arg_list false p rest ≡ parsed o' → Forwards p rest o' f)
    → parse_arg_list false o (a ∷ b ∷ rest) ≡ parsed o'
    → o'.file ≡ some f
    → Forwards o (a ∷ b ∷ rest) o' f
Forwards-cons o a b rest file_arg c n ih1 ih2 h e = Forwards-file o a (b ∷ rest) c h e
Forwards-cons o a b rest (flag p) c n ih1 ih2 h e =
    Forwards-flag o a (b ∷ rest) p c
      (ih1 p (classify-flag o a c ∙ n) (sym (step_flag o a (b ∷ rest) c) ∙ h))
Forwards-cons o a b rest prints c n ih1 ih2 h e =
    absurd (no_step o a (b ∷ rest) prints c (inl refl) h)
Forwards-cons o a b rest unknown c n ih1 ih2 h e =
    absurd (no_step o a (b ∷ rest) unknown c (inr refl) h)
Forwards-cons o a b rest cache_arg c n ih1 ih2 h e =
    let p : Opts = record o { cache_dir = some b } in
    Forwards-valued o a b rest p (λ tail. step_cache o a b tail c)
      (ih2 p n (sym (step_cache o a b rest c) ∙ h))
Forwards-cons o a b rest timeout_arg c n ih1 ih2 h e =
    Forwards-timeout o a b rest (timeout_of b) refl c (λ p q. ih2 p (q ∙ n)) h

-- When the command line is accepted and names a FILE, then FILE splits the arguments:
-- `prog_argv` is FILE and what stands behind it, FILE is "-" or does not start with a dash, and with
-- other arguments behind FILE the same options come out, with those arguments forwarded.
pub parse_arg_list-Forwards :
    (args : List Bytes) (o : Opts) {o' : Opts} {f : Bytes}
    → o.file ≡ none
    → parse_arg_list false o args ≡ parsed o'
    → o'.file ≡ some f
    → Forwards o args o' f
unfolding parse_arg_list
parse_arg_list-Forwards [] o n h e = ground arith
parse_arg_list-Forwards (a ∷ []) o n h e =
    Forwards-last o a (classify o a) refl n (λ p q r w. parse_arg_list-Forwards [] p q r w) h e
parse_arg_list-Forwards (a ∷ b ∷ rest) o n h e =
    Forwards-cons o a b rest (classify o a) refl n
      (λ p q r. parse_arg_list-Forwards (b ∷ rest) p q r e)
      (λ p q r. parse_arg_list-Forwards rest p q r e) h e
