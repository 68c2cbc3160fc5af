-- ===== src/Bytes/Dict.antt =====
-- Go maps with string keys as association lists with at most one entry for each key.
use go_systems_lab.Prelude.{◌≡◌, refl, ◌≢◌, List, [], ◌∷◌, if◌then◌else◌, Option, none, some, arith}
use go_systems_lab.Bytes.Compare.{Bytes, equal, equal_iff}

module _ {V : Type 0} where
  -- `v, ok := m[key]`.
  unfoldable pub lookup : Bytes → List (Bytes × V) → Option V
  lookup key [] = none
  lookup key ((k, v) ∷ m) = if equal k key then some v else lookup key m

  -- `m[key] = v`.
  unfoldable pub insert : Bytes → V → List (Bytes × V) → List (Bytes × V)
  insert key v [] = (key, v) ∷ []
  insert key v ((k, w) ∷ m) = if equal k key then (key, v) ∷ m else (k, w) ∷ insert key v m

  pub lookup-insert :
      (key other : Bytes) (v : V) (m : List (Bytes × V))
      → lookup other (insert key v m) ≡ (if equal key other then some v else lookup other m)
  unfolding lookup insert
  lookup-insert key other v [] = refl
  lookup-insert key other v ((k, w) ∷ m) =
      ground (
        arith,
        equal_iff k key,
        equal_iff k other,
        equal_iff key other,
        lookup-insert key other v m,
      )

  pub insert-ne-nil : (key : Bytes) (v : V) (m : List (Bytes × V)) → insert key v m ≢ []
  unfolding insert
  insert-ne-nil key v [] = λ p. cc
  insert-ne-nil key v ((k, w) ∷ m) = ground arith
