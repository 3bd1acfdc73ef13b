-- ===== src/Main/Words/Quoted.antt =====
-- Any list of words can be written so that HACMAN yields it.
use hacman.Main.Words.{
  env_options_max, env_arg_max, skip_space, read_word, read_words, parse_env_words,
}
use hacman.Base.{
  ℕ, zero, suc, ◌+◌, ◌≤◌, false, some, List, [], ◌∷◌, ◌++◌, append_assoc, append-nil, ◌≡◌, refl,
  sym, ap, ◌∙◌, arith, ltb, ◌==◌, length, length-append, Bytes,
}

-- Every byte behind a backslash.
abbrev pub escaped : Bytes → Bytes
escaped [] = []
escaped (c ∷ w) = b'\\' ∷ c ∷ escaped w

-- Each word in double quotes, with a blank behind it.
abbrev pub spelled : List Bytes → Bytes
spelled [] = []
spelled (w ∷ ws) = b'"' ∷ (escaped w ++ (b'"' ∷ b' ' ∷ spelled ws))

read_word_space : (word s : Bytes) → read_word 0 word (b' ' ∷ s) ≡ some (word, b' ' ∷ s)
unfolding read_word
read_word_space word [] = refl
read_word_space word (d ∷ s) = refl

read_word-escaped :
    (w word s : Bytes)
    → read_word b'"' word (escaped w ++ (b'"' ∷ b' ' ∷ s)) ≡ some (word ++ w, b' ' ∷ s)
unfolding read_word
read_word-escaped [] word s = rw append-nil (read_word_space word s)
read_word-escaped (c ∷ w) word s =
    read_word-escaped w (word ++ c ∷ []) s
    ∙ ap (λ (v : Bytes). some (v, b' ' ∷ s)) (append_assoc word (c ∷ []) w)

read_word_open :
    (w s : Bytes)
    → read_word 0 [] (b'"' ∷ (escaped w ++ (b'"' ∷ s)))
      ≡ read_word b'"' [] (escaped w ++ (b'"' ∷ s))
unfolding read_word
read_word_open [] s = refl
read_word_open (c ∷ w) s = refl

read_word-spelled :
    (w : Bytes) (ws : List Bytes) → read_word 0 [] (spelled (w ∷ ws)) ≡ some (w, b' ' ∷ spelled ws)
read_word-spelled w ws = read_word_open w (b' ' ∷ spelled ws) ∙ read_word-escaped w [] (spelled ws)

skip_space-spelled : (ws : List Bytes) → skip_space (spelled ws) ≡ spelled ws
unfolding skip_space
skip_space-spelled [] = refl
skip_space-spelled (w ∷ ws) = refl

skip_space_blank : (s : Bytes) → skip_space (b' ' ∷ s) ≡ skip_space s
unfolding skip_space
skip_space_blank s = refl

read_words_step :
    (fuel : ℕ) (words : List Bytes) (s : Bytes) (w : Bytes) (ws : List Bytes)
    → skip_space s ≡ spelled (w ∷ ws)
    → (length words == env_arg_max) ≡ false
    → read_words (suc fuel) words s ≡ read_words fuel (words ++ w ∷ []) (b' ' ∷ spelled ws)
unfolding read_words
read_words_step fuel words s w ws e room = rw (e, read_words, room, read_word-spelled w ws)

read_words_done :
    (fuel : ℕ) (words : List Bytes) (s : Bytes)
    → skip_space s ≡ []
    → read_words fuel words s ≡ some words
unfolding read_words
read_words_done zero words s e = refl
read_words_done (suc fuel) words s e = rw (e, read_words)

read_words-spelled :
    (ws : List Bytes) (fuel : ℕ) (words : List Bytes) (s : Bytes)
    → length ws ≤ fuel
    → length words + length ws ≤ env_arg_max
    → skip_space s ≡ spelled ws
    → read_words fuel words s ≡ some (words ++ ws)
read_words-spelled [] fuel words s f room e =
    read_words_done fuel words s e ∙ ap some (sym (append-nil words))
read_words-spelled (w ∷ ws) zero words s f room e = absurd (omega arith)
read_words-spelled (w ∷ ws) (suc fuel) words s f room e =
    read_words_step fuel words s w ws e (ground arith)
    ∙ read_words-spelled ws fuel (words ++ w ∷ []) (b' ' ∷ spelled ws) (omega arith)
        (omega (arith, length-append words (w ∷ [])))
        (skip_space_blank (spelled ws) ∙ skip_space-spelled ws)
    ∙ ap some (append_assoc words (w ∷ []) ws)

length-le-spelled : (ws : List Bytes) → length ws ≤ length (spelled ws)
length-le-spelled [] = omega arith
length-le-spelled (w ∷ ws) =
    omega (arith, length-le-spelled ws, length-append (escaped w) (b'"' ∷ b' ' ∷ spelled ws))

-- At most 64 words, quoted and escaped within 4096 bytes, are read back as they were, whatever
-- blanks, quotes and backslashes they hold, the empty word included.
pub parse_env_words-spelled :
    (ws : List Bytes)
    → length ws ≤ env_arg_max
    → length (spelled ws) ≤ env_options_max
    → parse_env_words (spelled ws) ≡ some ws
unfolding parse_env_words
parse_env_words-spelled ws n h =
    let t : ltb env_options_max (length (spelled ws)) ≡ false = ground arith in
    rw t (
      read_words-spelled ws (length (spelled ws)) [] (spelled ws) (length-le-spelled ws)
        (omega arith) (skip_space-spelled ws))
