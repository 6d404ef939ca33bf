-- ===== src/Utils/Slice.antt =====
-- utils/slice.go: removing an element from a slice, by moving the last element into its place.
pub mod Counts
use vcs_srs_server.Base.{
  ℕ, zero, suc, Option, none, some, List, [], ◌∷◌, if◌then◌else◌, Comparable, ◌==◌, nat_eq,
  string_eq, length, take,
}

module _ {ℓ} {A : Type ℓ} ⦃eq : Comparable A⦄ where
  -- The place of the first equal element; `none` for -1.
  unfoldable pub index_of : A → List A → Option ℕ
  index_of a [] = none
  index_of a (x ∷ xs) =
      let rest = index_of a xs in
      if a == x then some 0 else elim rest [ none ↦ none | some i ↦ some (suc i) ]

  -- s[i] = v
  unfoldable pub set : List A → ℕ → A → List A
  set [] i v = []
  set (x ∷ xs) zero v = v ∷ xs
  set (x ∷ xs) (suc i) v = x ∷ set xs i v

  -- The last element of x ∷ xs.
  unfoldable pub last_of : A → List A → A
  last_of x [] = x
  last_of x (y ∷ ys) = last_of y ys

  -- The new slice; Go reuses the array of the old one.
  unfoldable pub remove : List A → A → List A
  unfolding set last_of
  remove [] a = []
  remove (x ∷ []) a = []
  remove (x ∷ y ∷ ys) a = elim (index_of a (x ∷ y ∷ ys)) [
    | none ↦ x ∷ y ∷ ys
    | some i ↦ take (length (y ∷ ys)) (set (x ∷ y ∷ ys) i (last_of x (y ∷ ys)))
  ]
