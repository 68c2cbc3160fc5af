-- ===== src/Bits.antt =====
-- Masks as arithmetic: `x & (2^k - 1)` keeps the lowest k bits, and a mask with zeros at the low end
-- clears bits.
use Prim.Native.Nat.{bit_and, bit_and-bitwise, digits, min}
use native.Mathlib.Nat.{
  pow-suc, div-add-mod', mod-lt, add-mul-mod_self_right, mod-eq_of_lt, div-div-eq-div-mul,
}
use go_systems_lab.Prelude.{
  ℕ, zero, suc, ◌+◌, ◌-◌, ◌*◌, ◌/◌, ◌%◌, ◌^◌, ◌≤◌, ◌<◌, ◌≡◌, refl, sym, ap, ◌∙◌, arith,
}

-- The digit loop behind `bit_and` does not depend on its bound.
abbrev and_loop : ℕ → ℕ → ℕ → ℕ
and_loop bound a b = digits (λ b. zero) min bound a b

and_loop_bound : (m n a b : ℕ) → a ≤ m → a ≤ n → and_loop m a b ≡ and_loop n a b
and_loop_bound zero zero a b h k = refl
and_loop_bound zero (suc n) zero b h k = refl
and_loop_bound zero (suc n) (suc a) b h k = absurd (omega arith)
and_loop_bound (suc m) zero zero b h k = refl
and_loop_bound (suc m) zero (suc a) b h k = absurd (omega arith)
and_loop_bound (suc m) (suc n) zero b h k = refl
and_loop_bound (suc m) (suc n) (suc a) b h k =
    omega (arith, and_loop_bound m n (suc a / 2) (b / 2) (omega arith) (omega arith))

bit_and-halves : (a b : ℕ) → bit_and a b ≡ bit_and (a / 2) (b / 2) * 2 + min (a % 2) (b % 2)
bit_and-halves zero b = omega (arith, bit_and-bitwise 0 b, bit_and-bitwise 0 (b / 2))
bit_and-halves (suc a) b = omega (
  arith,
  bit_and-bitwise (suc a) b,
  bit_and-bitwise (suc a / 2) (b / 2),
  and_loop_bound a (suc a / 2) (suc a / 2) (b / 2) (omega arith) (omega arith),
)

bit_and_none : (bound a : ℕ) → a ≤ bound → bit_and a 0 ≡ 0
bit_and_none bound zero h = refl
bit_and_none zero (suc a) h = absurd (omega arith)
bit_and_none (suc bound) (suc a) h =
    omega (arith, bit_and-halves (suc a) 0, bit_and_none bound (suc a / 2) (omega arith))

-- The remainder by 2 * m from the remainder of the half by m.
mod_double : (a m : ℕ) → 0 < m → a / 2 % m * 2 + a % 2 ≡ a % (m * 2)
mod_double a m h =
    let r : ℕ = a / 2 % m * 2 + a % 2 in
    let low : r < m * 2 = omega (arith, mod-lt (a / 2) h) in
    let whole : r + a / 2 / m * (m * 2) ≡ a =
      omega (arith, ap (λ (t : ℕ). t * 2) (div-add-mod' (a / 2) m)) in
    sym (mod-eq_of_lt low)
    ∙ sym (add-mul-mod_self_right r (a / 2 / m) (m * 2))
    ∙ ap (λ t. t % (m * 2)) whole

pub pow2_pos : (k : ℕ) → 0 < 2 ^ k
pow2_pos zero = omega arith
pow2_pos (suc k) = omega (arith, pow-suc 2 k, pow2_pos k)

-- `a & (2^k - 1)` is `a % 2^k`.
pub bit_and_ones : (k a : ℕ) → bit_and a (2 ^ k - 1) ≡ a % 2 ^ k
bit_and_ones zero a = omega (arith, bit_and_none a a (omega arith))
bit_and_ones (suc k) a =
    let double : 2 ^ suc k ≡ 2 ^ k * 2 = omega (arith, pow-suc 2 k) in
    let half : (2 ^ suc k - 1) / 2 ≡ 2 ^ k - 1 = omega (arith, double, pow2_pos k) in
    let odd : (2 ^ suc k - 1) % 2 ≡ 1 = omega (arith, double, pow2_pos k) in
    let low : bit_and (a / 2) (2 ^ k - 1) ≡ a / 2 % 2 ^ k = bit_and_ones k (a / 2) in
    bit_and-halves a (2 ^ suc k - 1)
    ∙ rw (half, odd, low, double) (omega (arith, mod_double a (2 ^ k) (pow2_pos k)))

-- `a & ^3` on 64 bits clears the two lowest bits.
pub bit_and_clear_two : (a : ℕ) → a < 2 ^ 64 → bit_and a (2 ^ 64 - 4) ≡ a / 4 * 4
bit_and_clear_two a h = omega (
  arith,
  bit_and-halves a (2 ^ 64 - 4),
  bit_and-halves (a / 2) (2 ^ 63 - 2),
  bit_and_ones 62 (a / 2 / 2),
)

-- `a & (1 << k)` is the k-th digit in its place.
pub bit_and_bit : (k a : ℕ) → bit_and a (2 ^ k) ≡ a / 2 ^ k % 2 * 2 ^ k
bit_and_bit zero a = omega (arith, bit_and_ones 1 a)
bit_and_bit (suc k) a =
    let double : 2 ^ suc k ≡ 2 ^ k * 2 = omega (arith, pow-suc 2 k) in
    let half : 2 ^ suc k / 2 ≡ 2 ^ k = omega (arith, double) in
    let even : 2 ^ suc k % 2 ≡ 0 = omega (arith, double) in
    let low : bit_and (a / 2) (2 ^ k) ≡ a / 2 / 2 ^ k % 2 * 2 ^ k = bit_and_bit k (a / 2) in
    let digit : a / 2 / 2 ^ k ≡ a / 2 ^ suc k =
      div-div-eq-div-mul a 2 (2 ^ k) ∙ ap (λ (t : ℕ). a / t) (omega (arith, double)) in
    bit_and-halves a (2 ^ suc k) ∙ rw (half, even, low, digit, double) (omega arith)
