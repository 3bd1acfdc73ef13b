-- ===== src/Main/Words.antt =====
-- src/main.c, `parse_env_words`: the words of HACMAN. The C code writes the words over the text that
-- it reads; a word and its NUL never reach past what has been read, so they are values here.
pub mod Quoted
use hacman.Base.{
  ℕ, zero, suc, ◌+◌, ◌≤◌, ◌<◌, Bool, true, false, not, ◌&&◌, ◌||◌, Option, none, some, List, [],
  ◌∷◌, ◌++◌, append_assoc, append-nil, ◌≡◌, refl, sym, ap, ◌∙◌, arith, ltb, ◌==◌, if◌then◌else◌,
  length, length-append, Bytes,
}

abbrev pub env_options_max : ℕ
env_options_max = 4096

abbrev pub env_arg_max : ℕ
env_arg_max = 64

unfoldable pub env_space : ℕ → Bool
env_space ch = ch == b' ' || ch == b'\t' || ch == b'\n' || ch == b'\r' || ch == 0x0c || ch == 0x0b

unfoldable pub skip_space : Bytes → Bytes
unfolding env_space
skip_space [] = []
skip_space (c ∷ s) = let rest = skip_space s in if env_space c then rest else c ∷ s

abbrev pub is_quote : ℕ → Bool
is_quote c = c == b'\'' || c == b'"'

-- The loop over one word: `quote` is 0 outside of quotes. The word, and what is left to read;
-- `none` is an incomplete escape or an unterminated quote.
unfoldable pub read_word : ℕ → Bytes → Bytes → Option (Bytes × Bytes)
unfolding env_space
read_word quote word [] = if quote == 0 then some (word, []) else none
read_word quote word (c ∷ []) = elim (quote == 0 && env_space c) [
  | true ↦ some (word, c ∷ [])
  | false ↦ elim (c == b'\\') [
    | true ↦ none
    | false ↦ elim (is_quote c) [
      | true ↦ elim (quote == 0) [
        | true ↦ none
        | false ↦ if quote == c then some (word, []) else none
      ]
      | false ↦ if quote == 0 then some (word ++ c ∷ [], []) else none
    ]
  ]
]
read_word quote word (c ∷ d ∷ s) = elim (quote == 0 && env_space c) [
  | true ↦ some (word, c ∷ d ∷ s)
  | false ↦ elim (c == b'\\') [
    | true ↦ read_word quote (word ++ d ∷ []) s
    | false ↦ elim (is_quote c) [
      | true ↦ elim (quote == 0) [
        | true ↦ read_word c word (d ∷ s)
        | false ↦ elim (quote == c) [
          | true ↦ read_word 0 word (d ∷ s)
          | false ↦ read_word quote (word ++ c ∷ []) (d ∷ s)
        ]
      ]
      | false ↦ read_word quote (word ++ c ∷ []) (d ∷ s)
    ]
  ]
]

-- The loop over the words, on fuel: each round reads a byte at least.
unfoldable pub read_words : ℕ → List Bytes → Bytes → Option (List Bytes)
unfolding skip_space read_word
read_words zero words s = some words
read_words (suc fuel) words s = elim (skip_space s) [
  | [] ↦ some words
  | c ∷ t ↦ elim (length words == env_arg_max) [
    | true ↦ none
    | false ↦ elim (read_word 0 [] (c ∷ t)) [
      | none ↦ none
      | some p ↦ read_words fuel (words ++ p.0 ∷ []) p.1
    ]
  ]
]

unfoldable pub parse_env_words : Bytes → Option (List Bytes)
unfolding read_words
parse_env_words value =
    if ltb env_options_max (length value) then none else read_words (length value) [] value
