-- ===== src/Bytes.antt =====
-- Go byte slices and strings as lists of numbers below 256: literals, comparison, slicing,
-- copying into a slice, and integers in little-endian order (encoding/binary).
mod Compare
pub mod Blit
pub mod Endian
pub mod Dict
use go_systems_lab.Prelude.{
  ℕ, ◌-◌, ◌≤◌, ◌≡◌, ◌&&◌, List, leb, arith, if◌then◌else◌, Result, ok, panic, length, take, drop,
  get_elem?, Option, none, some,
}
unfoldable pub use Compare.*

-- `s[lo:hi]`, on a slice whose capacity is its length.
unfoldable pub slice : {E A : Type 0} → ℕ → ℕ → List A → Result E (List A)
slice lo hi xs = if leb lo hi && leb hi (length xs) then ok (take (hi - lo) (drop lo xs)) else panic

-- `s[lo:]`.
unfoldable pub slice_from : {E A : Type 0} → ℕ → List A → Result E (List A)
slice_from lo xs = if leb lo (length xs) then ok (drop lo xs) else panic

pub slice-eq-ok :
    {E A : Type 0} (lo hi : ℕ) (xs : List A)
    → lo ≤ hi
    → hi ≤ length xs
    → slice {E = E} lo hi xs ≡ ok (take (hi - lo) (drop lo xs))
unfolding slice
slice-eq-ok lo hi xs h k = ground arith

-- `s[i]`.
unfoldable pub byte_at : {E : Type 0} → ℕ → Bytes → Result E ℕ
byte_at i s = elim (get_elem? s i) [ none ↦ panic | some b ↦ ok b ]
