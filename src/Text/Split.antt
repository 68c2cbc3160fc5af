-- ===== src/Text/Split.antt =====
-- `bytes.Split`, `bytes.Cut`, `strings.TrimRight` and `strings.Contains`.
use go_systems_lab.Prelude.{
  ℕ, ◌≡◌, ◌≢◌, refl, Bool, ◌||◌, List, [], ◌∷◌, ◌++◌, ◌==◌, if◌then◌else◌, Option, none, some,
  arith,
}
use go_systems_lab.Bytes.{Bytes, has_prefix, All}

abbrev cons_head : ℕ → List Bytes → List Bytes
cons_head b [] = (b ∷ []) ∷ []
cons_head b (w ∷ ws) = (b ∷ w) ∷ ws

-- `bytes.Split(s, []byte{sep})`: the pieces between the separators, at least one.
unfoldable pub split : ℕ → Bytes → List Bytes
split sep [] = [] ∷ []
split sep (b ∷ bs) = let rest = split sep bs in if b == sep then [] ∷ rest else cons_head b rest

-- `bytes.Cut(s, []byte{sep})`, `none` where the separator is not found.
unfoldable pub cut : ℕ → Bytes → Option (Bytes × Bytes)
cut sep [] = none
cut sep (b ∷ bs) =
    let rest : Option (Bytes × Bytes) = elim (cut sep bs) [
      | none ↦ none
      | some (before, after) ↦ some (b ∷ before, after)
    ] in
    if b == sep then some ([], bs) else rest

abbrev cons_unless_end : ℕ → ℕ → Bytes → Bytes
cons_unless_end c b [] = if b == c then [] else b ∷ []
cons_unless_end c b (r ∷ rs) = b ∷ r ∷ rs

-- `strings.TrimRight(s, "c")` for one byte `c`.
unfoldable pub trim_right : ℕ → Bytes → Bytes
trim_right c [] = []
trim_right c (b ∷ bs) = cons_unless_end c b (trim_right c bs)

-- `strings.Contains(s, sub)`.
unfoldable pub contains : Bytes → Bytes → Bool
contains [] sub = has_prefix [] sub
contains (b ∷ bs) sub = has_prefix (b ∷ bs) sub || contains bs sub

-- A field that is cut off at its separator comes back whole.
pub cut-append :
    (sep : ℕ) (key value : Bytes)
    → All (λ b. b ≢ sep) key
    → cut sep (key ++ (sep ∷ value)) ≡ some (key, value)
unfolding cut
cut-append sep [] value h = ground arith
cut-append sep (b ∷ key) value (h, hs) = ground (arith, cut-append sep key value hs)

-- Padding by zero bytes is taken off again.
pub trim_right-append :
    (c : ℕ) (name : Bytes) (pad : Bytes)
    → All (λ b. b ≢ c) name
    → All (λ b. b ≡ c) pad
    → trim_right c (name ++ pad) ≡ name
unfolding trim_right
trim_right-append c [] [] h k = refl
trim_right-append c [] (p ∷ pad) h (k, ks) = ground (arith, trim_right-append c [] pad tt ks)
trim_right-append c (b ∷ []) pad (h, hs) k = ground (arith, trim_right-append c [] pad tt k)
trim_right-append c (b ∷ d ∷ name) pad (h, hs) k =
    ground (arith, trim_right-append c (d ∷ name) pad hs k)

-- A line that does not hold the separator is split off.
pub split-append :
    (sep : ℕ) (line rest : Bytes)
    → All (λ b. b ≢ sep) line
    → split sep (line ++ (sep ∷ rest)) ≡ line ∷ split sep rest
unfolding split
split-append sep [] rest h = ground arith
split-append sep (b ∷ line) rest (h, hs) = ground (arith, split-append sep line rest hs)
