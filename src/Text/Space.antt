-- ===== src/Text/Space.antt =====
-- `unicode.IsSpace` on UTF-8 text, `strings.Fields` and `strings.TrimSpace`. No space character's
-- encoding begins inside another character, so the text is read from the left, byte by byte.
use go_systems_lab.Prelude.{
  ℕ, zero, suc, ◌<◌, ◌≡◌, refl, ap, Bool, ◌&&◌, ◌||◌, List, [], ◌∷◌, ◌++◌, ◌==◌, leb, if◌then◌else◌,
  arith,
}
use go_systems_lab.Bytes.{Bytes, All}

-- '\t', '\n', '\v', '\f', '\r', ' '
unfoldable pub is_ascii_space : ℕ → Bool
is_ascii_space b = (leb 9 b && leb b 13) || b == 32

-- U+0085 and U+00A0.
is_space_2 : ℕ → ℕ → Bool
is_space_2 b c = b == 0xc2 && (c == 0x85 || c == 0xa0)

-- U+1680, U+2000 to U+200A, U+2028, U+2029, U+202F, U+205F and U+3000.
is_space_3 : ℕ → ℕ → ℕ → Bool
is_space_3 b c d =
    (b == 0xe1 && c == 0x9a && d == 0x80)
    || (b == 0xe2
        && c == 0x80
        && ((leb 0x80 d && leb d 0x8a) || d == 0xa8 || d == 0xa9 || d == 0xaf))
    || (b == 0xe2 && c == 0x81 && d == 0x9f)
    || (b == 0xe3 && c == 0x80 && d == 0x80)

-- The number of bytes of the space character at the front, 0 if there is none.
unfoldable pub space_width : Bytes → ℕ
unfolding is_ascii_space is_space_2 is_space_3
space_width [] = 0
space_width (b ∷ []) = if is_ascii_space b then 1 else 0
space_width (b ∷ c ∷ []) = if is_ascii_space b then 1 else if is_space_2 b c then 2 else 0
space_width (b ∷ c ∷ d ∷ s) =
    if is_ascii_space b then 1 else if is_space_2 b c then 2 else if is_space_3 b c d then 3 else 0

abbrev pub flush : Bytes → List Bytes → List Bytes
flush [] words = words
flush (b ∷ word) words = (b ∷ word) ∷ words

-- `skip` bytes of a space are left to pass over; `word` is what was read of the current field.
unfoldable pub fields_loop : ℕ → Bytes → Bytes → List Bytes
fields_loop skip word [] = flush word []
fields_loop (suc skip) word (b ∷ s) = fields_loop skip word s
fields_loop zero word (b ∷ s) = elim (space_width (b ∷ s)) [
  | zero ↦ fields_loop zero (word ++ (b ∷ [])) s
  | suc more ↦ flush word (fields_loop more [] s)
]

-- `strings.Fields(s)`.
unfoldable pub fields : Bytes → List Bytes
unfolding fields_loop
fields s = fields_loop zero [] s

unfoldable pub trim_left_loop : ℕ → Bytes → Bytes
trim_left_loop skip [] = []
trim_left_loop (suc skip) (b ∷ s) = trim_left_loop skip s
trim_left_loop zero (b ∷ s) = elim (space_width (b ∷ s)) [
  | zero ↦ b ∷ s
  | suc more ↦ trim_left_loop more s
]

-- `spaces` are the spaces read since the last byte that is none.
unfoldable pub trim_right_loop : ℕ → Bytes → Bytes → Bytes
trim_right_loop skip spaces [] = []
trim_right_loop (suc skip) spaces (b ∷ s) = trim_right_loop skip (spaces ++ (b ∷ [])) s
trim_right_loop zero spaces (b ∷ s) = elim (space_width (b ∷ s)) [
  | zero ↦ spaces ++ (b ∷ trim_right_loop zero [] s)
  | suc more ↦ trim_right_loop more (spaces ++ (b ∷ [])) s
]

-- `strings.TrimSpace(s)`.
unfoldable pub trim_space : Bytes → Bytes
unfolding trim_left_loop trim_right_loop
trim_space s = trim_right_loop zero [] (trim_left_loop zero s)

-- ASCII bytes that are no spaces.
abbrev pub IsPlain : ℕ → Type 0
IsPlain b = (32 < b) × (b < 128)

pub space_width-IsPlain : (b : ℕ) (s : Bytes) → (32 < b) × (b < 128) → space_width (b ∷ s) ≡ 0
unfolding space_width
space_width-IsPlain b [] h = ground arith
space_width-IsPlain b (c ∷ []) h = ground arith
space_width-IsPlain b (c ∷ d ∷ s) h = ground arith

trim_left-IsPlain : (s : Bytes) → All IsPlain s → trim_left_loop zero s ≡ s
unfolding trim_left_loop
trim_left-IsPlain [] h = refl
trim_left-IsPlain (b ∷ s) (h, hs) = rw (space_width-IsPlain b s h, trim_left_loop)

trim_right-IsPlain : (s : Bytes) → All IsPlain s → trim_right_loop zero [] s ≡ s
unfolding trim_right_loop
trim_right-IsPlain [] h = refl
trim_right-IsPlain (b ∷ s) (h, hs) =
    rw (space_width-IsPlain b s h, trim_right_loop) (ap (◌∷◌ b) (trim_right-IsPlain s hs))

-- A text with no space in it is left alone.
pub trim_space-IsPlain : (s : Bytes) → All IsPlain s → trim_space s ≡ s
unfolding trim_space
trim_space-IsPlain s h = rw (trim_left-IsPlain s h) (trim_right-IsPlain s h)

space_width_tab : (s : Bytes) → space_width (9 ∷ s) ≡ 1
unfolding space_width
space_width_tab [] = refl
space_width_tab (b ∷ []) = refl
space_width_tab (b ∷ c ∷ s) = refl

trim_left_tab : (s : Bytes) → All IsPlain s → trim_left_loop zero (9 ∷ s) ≡ s
unfolding trim_left_loop
trim_left_tab [] h = unfold space_width in refl
trim_left_tab (b ∷ []) h =
    rw (space_width_tab (b ∷ []), trim_left_loop) (trim_left-IsPlain (b ∷ []) h)
trim_left_tab (b ∷ c ∷ s) h =
    rw (space_width_tab (b ∷ c ∷ s), trim_left_loop) (trim_left-IsPlain (b ∷ c ∷ s) h)

-- A tab in front is taken off.
pub trim_space_tab : (s : Bytes) → All IsPlain s → trim_space (9 ∷ s) ≡ s
unfolding trim_space
trim_space_tab s h = rw (trim_left_tab s h) (trim_right-IsPlain s h)
