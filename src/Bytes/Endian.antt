-- ===== src/Bytes/Endian.antt =====
-- Little-endian integers: `binary.LittleEndian`, and `binary.NativeEndian` on x86-64.
use go_systems_lab.Prelude.{
  ℕ, zero, suc, ◌+◌, ◌*◌, ◌/◌, ◌%◌, ◌^◌, ◌≤◌, ◌<◌, ◌≡◌, refl, ap, List, [], ◌∷◌, arith, length, leb,
  if◌then◌else◌, take, drop, Result, ok, panic,
}
use native.Mathlib.Nat.{pow-suc}
use go_systems_lab.Bytes.Blit.{blit}

-- The number that some bytes stand for, the lowest byte first.
unfoldable pub le_value : List ℕ → ℕ
le_value [] = 0
le_value (b ∷ bs) = b + 256 * le_value bs

-- The lowest `n` bytes of a number.
unfoldable pub le_bytes : ℕ → ℕ → List ℕ
le_bytes zero v = []
le_bytes (suc n) v = (v % 256) ∷ le_bytes n (v / 256)

pub length-le_bytes : (n v : ℕ) → length (le_bytes n v) ≡ n
unfolding le_bytes
length-le_bytes zero v = refl
length-le_bytes (suc n) v = ap suc (length-le_bytes n (v / 256))

pub le_value-le_bytes : (n v : ℕ) → v < 256 ^ n → le_value (le_bytes n v) ≡ v
unfolding le_value le_bytes
le_value-le_bytes zero v h = omega arith
le_value-le_bytes (suc n) v h =
    omega (arith, le_value-le_bytes n (v / 256) (omega (arith, pow-suc 256 n)))

module _ {ℓ} {E : Type ℓ} where
  -- `binary.LittleEndian.UintN(s[off:])` for N = 8 * w: a panic where fewer than `w` bytes are left.
  unfoldable pub load_le : ℕ → ℕ → List ℕ → Result E ℕ
  load_le w off s = if leb (off + w) (length s) then ok (le_value (take w (drop off s))) else panic

  -- `binary.LittleEndian.PutUintN(s[off:], v)`.
  unfoldable pub store_le : ℕ → ℕ → ℕ → List ℕ → Result E (List ℕ)
  store_le w off v s = if leb (off + w) (length s) then ok (blit off (le_bytes w v) s) else panic

  pub load_le-eq-ok :
      (w off : ℕ) (s : List ℕ)
      → off + w ≤ length s
      → load_le w off s ≡ ok (le_value (take w (drop off s)))
  unfolding load_le
  load_le-eq-ok w off s h = ground arith

  pub store_le-eq-ok :
      (w off v : ℕ) (s : List ℕ)
      → off + w ≤ length s
      → store_le w off v s ≡ ok (blit off (le_bytes w v) s)
  unfolding store_le
  store_le-eq-ok w off v s h = ground arith
