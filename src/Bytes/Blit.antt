-- ===== src/Bytes/Blit.antt =====
-- `copy(dst[off:], src)`: the bytes of `src` over those of `dst` from `off` on, as far as `dst`
-- goes; and what a later read of `dst` finds.
use go_systems_lab.Prelude.{
  ℕ, zero, suc, ◌+◌, ◌≤◌, ◌≡◌, refl, ap, List, [], ◌∷◌, arith, length, take, drop,
}

module _ {ℓ} {A : Type ℓ} where
  unfoldable pub blit : ℕ → List A → List A → List A
  blit zero [] dst = dst
  blit zero (x ∷ src) [] = []
  blit zero (x ∷ src) (y ∷ dst) = x ∷ blit zero src dst
  blit (suc off) src [] = []
  blit (suc off) src (y ∷ dst) = y ∷ blit off src dst

  pub length-blit : (off : ℕ) (src dst : List A) → length (blit off src dst) ≡ length dst
  unfolding blit
  length-blit zero [] dst = refl
  length-blit zero (x ∷ src) [] = refl
  length-blit zero (x ∷ src) (y ∷ dst) = ap suc (length-blit zero src dst)
  length-blit (suc off) src [] = refl
  length-blit (suc off) src (y ∷ dst) = ap suc (length-blit off src dst)

  -- Reading where something was just written gives what was written.
  pub take-drop-blit_self :
      (off n : ℕ) (src dst : List A)
      → n ≡ length src
      → off + length src ≤ length dst
      → take n (drop off (blit off src dst)) ≡ src
  unfolding blit
  take-drop-blit_self zero zero [] dst e h = refl
  take-drop-blit_self zero zero (x ∷ src) dst e h = absurd (omega arith)
  take-drop-blit_self zero (suc n) [] dst e h = absurd (omega arith)
  take-drop-blit_self zero (suc n) (x ∷ src) [] e h = absurd (omega arith)
  take-drop-blit_self zero (suc n) (x ∷ src) (y ∷ dst) e h =
      ap (◌∷◌ x) (take-drop-blit_self zero n src dst (omega arith) (omega arith))
  take-drop-blit_self (suc off) n src [] e h = absurd (omega arith)
  take-drop-blit_self (suc off) n src (y ∷ dst) e h =
      take-drop-blit_self off n src dst e (omega arith)

  pub take-blit : (off n : ℕ) (src dst : List A) → n ≤ off → take n (blit off src dst) ≡ take n dst
  unfolding blit
  take-blit off zero src dst h = refl
  take-blit zero (suc n) src dst h = absurd (omega arith)
  take-blit (suc off) (suc n) src [] h = refl
  take-blit (suc off) (suc n) src (y ∷ dst) h = ap (◌∷◌ y) (take-blit off n src dst (omega arith))

  -- A read that ends before the write sees no change.
  pub take-drop-blit_before :
      (a n off : ℕ) (src dst : List A)
      → a + n ≤ off
      → take n (drop a (blit off src dst)) ≡ take n (drop a dst)
  unfolding blit
  take-drop-blit_before zero n off src dst h = take-blit off n src dst (omega arith)
  take-drop-blit_before (suc a) n zero src dst h = absurd (omega arith)
  take-drop-blit_before (suc a) n (suc off) src [] h = refl
  take-drop-blit_before (suc a) n (suc off) src (y ∷ dst) h =
      take-drop-blit_before a n off src dst (omega arith)

  -- A read that begins behind the write sees no change.
  pub drop-blit_after :
      (a off : ℕ) (src dst : List A) → off + length src ≤ a → drop a (blit off src dst) ≡ drop a dst
  unfolding blit
  drop-blit_after a zero [] dst h = refl
  drop-blit_after zero zero (x ∷ src) dst h = absurd (omega arith)
  drop-blit_after (suc a) zero (x ∷ src) [] h = refl
  drop-blit_after (suc a) zero (x ∷ src) (y ∷ dst) h = drop-blit_after a zero src dst (omega arith)
  drop-blit_after zero (suc off) src dst h = absurd (omega arith)
  drop-blit_after (suc a) (suc off) src [] h = refl
  drop-blit_after (suc a) (suc off) src (y ∷ dst) h = drop-blit_after a off src dst (omega arith)
