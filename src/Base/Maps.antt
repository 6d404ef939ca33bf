-- ===== src/Base/Maps.antt =====
-- Go maps as association lists. A lookup finds the first entry of a key; an assignment replaces it.
use Prim.Native.Nat.{◌≤◌}
use mathlib.Core.Path.{◌≡◌, refl, subst}
use mathlib.Core.Bool.{Bool, true, false}
use mathlib.Core.Logic.{inl, inr}
use mathlib.Core.List.{List, [], ◌∷◌}
use mathlib.Core.Option.{Option, none, some}
use native.Mathlib.Omega.{arith}
use vcs_srs_server.Base.Tests.{if◌then◌else◌, ◌==◌, Comparable, Bool-cases, Option-cases}
use vcs_srs_server.Base.Lists.{length, All, Any}

abbrev pub Map {ℓ κ} : Type ℓ → Type κ → Type (ℓ ⊔ κ)
Map K V = List (K × V)

abbrev pub keep_if : {V : Type 0} → Bool → V → Option V
keep_if b v = if b then some v else none

module _ {K V : Type 0} ⦃e : Comparable K⦄ where
  -- v, ok := m[k]
  unfoldable pub lookup : K → Map K V → Option V
  lookup k [] = none
  lookup k ((j, v) ∷ m) = if j == k then some v else lookup k m

  -- _, ok := m[k]
  abbrev pub has : K → Map K V → Bool
  has k m = elim (lookup k m) [ none ↦ false | some _ ↦ true ]

  -- m[k] = v
  unfoldable pub insert : K → V → Map K V → Map K V
  insert key value [] = (key, value) ∷ []
  insert key value (entry ∷ others) =
      let rest = insert key value others in
      if entry.0 == key then (key, value) ∷ others else entry ∷ rest

  -- delete(m, k)
  unfoldable pub delete : K → Map K V → Map K V
  delete k [] = []
  delete k ((j, v) ∷ m) = let rest = delete k m in if j == k then rest else (j, v) ∷ rest

  -- for k, v := range m { if !keep(k, v) { delete(m, k) } }
  unfoldable pub retain : (K → V → Bool) → Map K V → Map K V
  retain keep [] = []
  retain keep ((k, v) ∷ m) = let rest = retain keep m in if keep k v then (k, v) ∷ rest else rest

  pub lookup-insert :
      (put asked : K) (value : V) (entries : Map K V)
      → lookup asked (insert put value entries)
        ≡ (if put == asked then some value else lookup asked entries)
  unfolding lookup insert
  lookup-insert put asked value [] = refl
  lookup-insert put asked value ((first, old) ∷ entries) =
      let ih = lookup-insert put asked value entries in
      ground (arith, ih, e.same_iff put asked, e.same_iff first put, e.same_iff first asked)

  pub lookup-delete :
      (k j : K) (m : Map K V) → lookup j (delete k m) ≡ (if k == j then none else lookup j m)
  unfolding lookup delete
  lookup-delete k j [] = ground arith
  lookup-delete k j ((i, w) ∷ m) =
      ground (arith, e.same_iff k j, e.same_iff i k, e.same_iff i j, lookup-delete k j m)

  -- Each key stands once, as in a Go map.
  abbrev pub IsUnique : Map K V → Type 0
  IsUnique [] = Unit {0}
  IsUnique ((k, v) ∷ m) = (lookup k m ≡ none) × IsUnique m

  pub insert-IsUnique : (k : K) (v : V) (m : Map K V) → IsUnique m → IsUnique (insert k v m)
  unfolding insert lookup
  insert-IsUnique k v [] h = (refl, tt)
  insert-IsUnique k v ((j, w) ∷ m) h =
      ground
        (arith, e.same_iff j k, e.same_iff k j, lookup-insert k j v m, insert-IsUnique k v m h.1)

  pub delete-IsUnique : (k : K) (m : Map K V) → IsUnique m → IsUnique (delete k m)
  unfolding delete
  delete-IsUnique k [] h = tt
  delete-IsUnique k ((j, w) ∷ m) h = ground (arith, lookup-delete k j m, delete-IsUnique k m h.1)

  abbrev pub retained : (K → V → Bool) → K → Option V → Option V
  retained keep k none = none
  retained keep k (some v) = keep_if (keep k v) v

  pub lookup-retain :
      (keep : K → V → Bool) (k : K) (m : Map K V)
      → IsUnique m
      → lookup k (retain keep m) ≡ retained keep k (lookup k m)
  unfolding lookup retain
  lookup-retain keep k [] h = refl
  lookup-retain keep k ((j, v) ∷ m) h = ground (arith, e.same_iff j k, lookup-retain keep k m h.1)

  pub retain-IsUnique : (keep : K → V → Bool) (m : Map K V) → IsUnique m → IsUnique (retain keep m)
  unfolding retain
  retain-IsUnique keep [] h = tt
  retain-IsUnique keep ((k, v) ∷ m) h =
      ground (arith, lookup-retain keep k m h.1, retain-IsUnique keep m h.1)

  -- The entries that a range loop visits are those that a lookup finds.
  abbrev pub HasEntry : K → V → Map K V → Type 0
  HasEntry k v = Any (λ p. p ≡ (k, v))

  pub HasEntry-of_lookup : (k : K) (v : V) (m : Map K V) → lookup k m ≡ some v → HasEntry k v m
  unfolding lookup
  HasEntry-of_lookup k v [] h = cc
  HasEntry-of_lookup k v ((j, w) ∷ m) h = ground (arith, e.same_iff j k, HasEntry-of_lookup k v m)

  pub lookup_of_HasEntry :
      (k : K) (v : V) (m : Map K V) → IsUnique m → HasEntry k v m → lookup k m ≡ some v
  unfolding lookup
  lookup_of_HasEntry k v [] u h = absurd h
  lookup_of_HasEntry k v ((j, w) ∷ m) u (inl p) = ground (arith, e.same_iff j k)
  lookup_of_HasEntry k v ((j, w) ∷ m) u (inr h) =
      ground (arith, e.same_iff j k, lookup_of_HasEntry k v m u.1 h)

  -- A range loop meets only keys that a lookup finds.
  pub All-of_lookup :
      (P : K → Type 0) (m : Map K V)
      → IsUnique m
      → ((k : K) (v : V) → lookup k m ≡ some v → P k)
      → All (λ p. P p.0) m
  unfolding lookup
  All-of_lookup P [] u f = tt
  All-of_lookup P ((j, w) ∷ m) u f = (
    f j w (ground (arith, e.same_iff j j)),
    All-of_lookup P m u.1 (λ k v h. f k v (ground (arith, e.same_iff j k))),
  )

  pub length-delete-le : (k : K) (m : Map K V) → length (delete k m) ≤ length m
  unfolding delete
  length-delete-le k [] = omega arith
  length-delete-le k ((j, v) ∷ m) = ground (arith, length-delete-le k m)

  -- What holds of every value of a map, for the values that it gets.
  abbrev pub Holds : (V → Type 0) → Map K V → Type 0
  Holds P m = (k : K) (v : V) → lookup k m ≡ some v → P v

  pub insert-Holds :
      (P : V → Type 0) (put : K) (value : V) (m : Map K V)
      → P value
      → Holds P m
      → Holds P (insert put value m)
  insert-Holds P put value m fits holds k v l = elim (Bool-cases (put == k)) [
    | inl e ↦ subst P (ground (arith, lookup-insert put k value m)) fits
    | inr e ↦ holds k v (ground (arith, lookup-insert put k value m))
  ]

  pub delete-Holds : (P : V → Type 0) (gone : K) (m : Map K V) → Holds P m → Holds P (delete gone m)
  delete-Holds P gone m holds k v l = holds k v (ground (arith, lookup-delete gone k m))

  pub retain-Holds :
      (P : V → Type 0) (keep : K → V → Bool) (m : Map K V)
      → IsUnique m
      → Holds P m
      → Holds P (retain keep m)
  retain-Holds P keep m unique holds k v l =
      holds k v (ground (arith, lookup-retain keep k m unique, Option-cases (lookup k m)))
