-- ===== src/Text/Words.antt =====
-- `strings.Fields` on words with spaces between them.
use go_systems_lab.Prelude.{
  ℕ, zero, suc, ◌≡◌, ◌≢◌, refl, ap, ◌∙◌, List, [], ◌∷◌, ◌++◌, map, replicate,
}
use mathlib.Core.List.{append_assoc, append-nil}
use go_systems_lab.Bytes.{Bytes, All}
use go_systems_lab.Text.Space.{
  IsPlain, space_width, space_width-IsPlain, fields, fields_loop, flush,
}

-- A word of ASCII bytes that are no spaces.
abbrev pub IsWord : Bytes → Type 0
IsWord word = All IsPlain word × (word ≢ [])

-- Some words, each with a number of spaces that stand before it beside the one that separates it.
abbrev pub Words : Type 0
Words = List (ℕ × Bytes)

abbrev pub IsWords : Words → Type 0
IsWords words = All (λ w. IsWord w.1) words

-- The words behind other text.
unfoldable pub spaced : Words → Bytes
spaced [] = []
spaced ((gap, word) ∷ words) = b' ' ∷ (replicate gap b' ' ++ (word ++ spaced words))

space_width_space : (s : Bytes) → space_width (b' ' ∷ s) ≡ 1
unfolding space_width
space_width_space [] = refl
space_width_space (b ∷ []) = refl
space_width_space (b ∷ c ∷ s) = refl

pub fields_loop_word :
    (word read rest : Bytes)
    → All IsPlain word
    → fields_loop zero read (word ++ rest) ≡ fields_loop zero (read ++ word) rest
unfolding fields_loop
fields_loop_word [] read rest h = rw append-nil
fields_loop_word (b ∷ word) read rest (h, hs) =
    rw (space_width-IsPlain b (word ++ rest) h, fields_loop)
      (fields_loop_word word (read ++ (b ∷ [])) rest hs
        ∙ ap (λ l. fields_loop zero l rest) (append_assoc read (b ∷ []) word))

fields_loop_space :
    (read rest : Bytes)
    → fields_loop zero read (b' ' ∷ rest) ≡ flush read (fields_loop zero [] rest)
unfolding fields_loop
fields_loop_space read rest = rw (space_width_space rest, fields_loop)

fields_loop_gap :
    (gap : ℕ) (rest : Bytes)
    → fields_loop zero [] (replicate gap b' ' ++ rest) ≡ fields_loop zero [] rest
fields_loop_gap zero rest = refl
fields_loop_gap (suc gap) rest =
    fields_loop_space [] (replicate gap b' ' ++ rest) ∙ fields_loop_gap gap rest

flush_word : (word : Bytes) (rest : List Bytes) → word ≢ [] → flush word rest ≡ word ∷ rest
flush_word [] rest h = absurd (h refl)
flush_word (b ∷ word) rest h = refl

fields_loop-spaced :
    (words : Words) (read : Bytes)
    → IsWords words
    → fields_loop zero read (spaced words) ≡ flush read (map (λ w. w.1) words)
unfolding spaced
fields_loop-spaced [] read h = unfold fields_loop in refl
fields_loop-spaced ((gap, word) ∷ words) read ((plain, some_bytes), hs) =
    fields_loop_space read (replicate gap b' ' ++ (word ++ spaced words))
    ∙ ap (flush read) (
        fields_loop_gap gap (word ++ spaced words)
        ∙ fields_loop_word word [] (spaced words) plain
        ∙ fields_loop-spaced words word hs
        ∙ flush_word word (map (λ w. w.1) words) some_bytes)

-- A line of words with any number of spaces before and at least one between them is taken apart into
-- these words.
pub fields-spaced :
    (gap : ℕ) (word : Bytes) (words : Words)
    → IsWord word
    → IsWords words
    → fields (replicate gap b' ' ++ (word ++ spaced words)) ≡ word ∷ map (λ w. w.1) words
unfolding fields
fields-spaced gap word words (plain, some_bytes) hs =
    fields_loop_gap gap (word ++ spaced words)
    ∙ fields_loop_word word [] (spaced words) plain
    ∙ fields_loop-spaced words word hs
    ∙ flush_word word (map (λ w. w.1) words) some_bytes
