-- ===== src/Utils/Slice/Counts.antt =====
-- What `remove` takes out, counted.
use vcs_srs_server.Utils.Slice.{index_of, last_of, remove, set}
use vcs_srs_server.Base.{
  ℕ, zero, suc, ◌+◌, ◌≡◌, refl, inl, inr, true, false, none, some, List, [], ◌∷◌, arith, leb,
  if◌then◌else◌, Comparable, ◌==◌, nat_eq, string_eq, Bool-cases, Option-cases, length, take,
  contains,
}

module _ {ℓ} {A : Type ℓ} ⦃eq : Comparable A⦄ where
  -- 1 where the two are equal.
  abbrev pub one_if : A → A → ℕ
  one_if x y = if x == y then 1 else 0

  abbrev pub count : A → List A → ℕ
  count x [] = 0
  count x (y ∷ ys) = one_if x y + count x ys

  count-init :
      (x y : A) (ys : List A)
      → count x (take (length ys) (y ∷ ys)) + one_if x (last_of y ys) ≡ count x (y ∷ ys)
  unfolding last_of
  count-init x y [] = omega arith
  count-init x y (z ∷ zs) = omega (arith, count-init x z zs)

  count-replaced :
      (a x y : A) (ys : List A) (i : ℕ)
      → index_of a (y ∷ ys) ≡ some i
      → count x (take (length ys) (set (y ∷ ys) i (last_of y ys))) + one_if x a ≡ count x (y ∷ ys)
  unfolding index_of set last_of
  count-replaced a x y [] i h = ground (arith, eq.same_iff a y)
  count-replaced a x y (z ∷ zs) zero h =
      ground (arith, eq.same_iff a y, count-init x z zs, Option-cases (index_of a (z ∷ zs)))
  count-replaced a x y (z ∷ zs) (suc i) h =
      ground (arith, eq.same_iff a y, count-replaced a x z zs i, Option-cases (index_of a (z ∷ zs)))

  index_of-contains :
      (a : A) (xs : List A) → contains xs a ≡ true → (i : ℕ) × (index_of a xs ≡ some i)
  unfolding index_of
  index_of-contains a [] h = absurd (ground arith)
  index_of-contains a (x ∷ xs) h = elim (Bool-cases (a == x)) [
    | inl here ↦ (0, ground arith)
    | inr there ↦
        let (i, e) = index_of-contains a xs (ground (arith, eq.same_iff x a, eq.same_iff a x)) in
        (suc i, ground arith)
  ]

  index_of_absent : (a : A) (xs : List A) → contains xs a ≡ false → index_of a xs ≡ none
  unfolding index_of
  index_of_absent a [] h = refl
  index_of_absent a (x ∷ xs) h =
      ground (arith, eq.same_iff x a, eq.same_iff a x, index_of_absent a xs)

  -- Removing an element that the slice holds takes out exactly one of its occurrences, whatever the
  -- length, and keeps every other element as often as it stood there.
  pub count-remove :
      (xs : List A) (a x : A)
      → contains xs a ≡ true
      → count x (remove xs a) + one_if x a ≡ count x xs
  unfolding remove
  count-remove [] a x h = absurd (ground arith)
  count-remove (y ∷ []) a x h = ground (arith, eq.same_iff y a)
  count-remove (y ∷ z ∷ zs) a x h =
      let (i, e) = index_of-contains a (y ∷ z ∷ zs) h in
      rw (e, remove) (count-replaced a x y (z ∷ zs) i e)

  -- An element that the slice does not hold leaves a slice of two or more as it is; a slice of one
  -- loses its element all the same.
  pub remove_absent :
      (xs : List A) (a : A)
      → contains xs a ≡ false
      → remove xs a ≡ (if leb (length xs) 1 then [] else xs)
  unfolding remove
  remove_absent [] a h = refl
  remove_absent (x ∷ []) a h = refl
  remove_absent (x ∷ y ∷ ys) a h = ground (arith, index_of_absent a (x ∷ y ∷ ys) h)
