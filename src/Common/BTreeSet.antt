-- ===== src/Common/BTreeSet.antt =====
-- std::collections::BTreeSet as the list of its values in order, which is how it iterates.
use Prim.Native.Nat.{Ordering}
use mathlib.Core.Path.{◌≡◌, refl}
use mathlib.Core.Bool.{Bool, true, false, not, ◌&&◌, ◌||◌}
use mathlib.Core.List.{List, [], ◌∷◌}
use native.Mathlib.Omega.{arith}
use mathlib.Core.Logic.{inl, inr}
use chiu.Common.Lists.{All}
use chiu.Common.Tests.{Bool-cases}
use chiu.Common.Ord.{Ord}

abbrev pub is_eq : Ordering → Bool
is_eq Ordering.eq = true
is_eq _ = false

module _ {ℓ} {K : Type ℓ} ⦃o : Ord K⦄ where
  unfoldable pub contains : K → List K → Bool
  contains a [] = false
  contains a (x ∷ xs) = is_eq (o.cmp a x) || contains a xs

  unfoldable pub insert : K → List K → List K
  insert a [] = a ∷ []
  insert a (x ∷ xs) =
      let rest = insert a xs in
      elim (o.cmp a x) [ Ordering.lt ↦ a ∷ x ∷ xs | Ordering.eq ↦ x ∷ xs | Ordering.gt ↦ x ∷ rest ]

  unfoldable pub remove : K → List K → List K
  remove a [] = []
  remove a (x ∷ xs) = let rest = remove a xs in elim (o.cmp a x) [ Ordering.eq ↦ xs | _ ↦ x ∷ rest ]

  unfoldable pub is_empty : List K → Bool
  is_empty [] = true
  is_empty (_ ∷ _) = false

  -- `==` on sets: they iterate over the same values.
  unfoldable pub set_eq : List K → List K → Bool
  set_eq [] [] = true
  set_eq [] (_ ∷ _) = false
  set_eq (_ ∷ _) [] = false
  set_eq (x ∷ xs) (y ∷ ys) = is_eq (o.cmp x y) && set_eq xs ys

  -- Every value of the list comes after `a`.
  abbrev pub After : K → List K → Type 0
  After a = All (λ x. o.cmp a x ≡ Ordering.lt)

  abbrev pub IsSorted : List K → Type 0
  IsSorted [] = Unit
  IsSorted (x ∷ xs) = After x xs × IsSorted xs

  After-trans : (a b : K) (xs : List K) → o.cmp a b ≡ Ordering.lt → After b xs → After a xs
  After-trans a b [] h t = tt
  After-trans a b (x ∷ xs) h t = (o.cmp_trans a b x h t.0, After-trans a b xs h t.1)

  not-contains-After : (a : K) (xs : List K) → After a xs → contains a xs ≡ false
  unfolding contains
  not-contains-After a [] h = refl
  not-contains-After a (x ∷ xs) h = ground (arith, not-contains-After a xs h.1)

  pub contains-insert :
      (a b : K) (xs : List K) → contains b (insert a xs) ≡ is_eq (o.cmp b a) || contains b xs
  unfolding contains insert
  contains-insert a b [] = refl
  contains-insert a b (x ∷ xs) = ground (arith, contains-insert a b xs, o.cmp_eq a x)

  -- What stands after a value is not removed with it.
  remove-After : (a b : K) (xs : List K) → After a xs → After a (remove b xs)
  unfolding remove
  remove-After a b [] h = tt
  remove-After a b (x ∷ xs) h = ground (arith, remove-After a b xs h.1)

  insert-After :
      (a b : K) (xs : List K) → o.cmp a b ≡ Ordering.lt → After a xs → After a (insert b xs)
  unfolding insert
  insert-After a b [] h t = (h, tt)
  insert-After a b (x ∷ xs) h t = ground (arith, insert-After a b xs h t.1)

  pub insert-IsSorted : (a : K) (xs : List K) → IsSorted xs → IsSorted (insert a xs)
  unfolding insert
  insert-IsSorted a [] s = (tt, tt)
  insert-IsSorted a (x ∷ xs) s =
      ground
        (arith, insert-IsSorted a xs s.1, insert-After x a xs, After-trans a x xs, o.cmp_swap a x)

  pub remove-IsSorted : (a : K) (xs : List K) → IsSorted xs → IsSorted (remove a xs)
  unfolding remove
  remove-IsSorted a [] s = tt
  remove-IsSorted a (x ∷ xs) s = ground (arith, remove-IsSorted a xs s.1, remove-After x a xs s.0)

  -- A value that was removed is gone, and the others stay.
  pub contains-remove :
      (a b : K) (xs : List K)
      → IsSorted xs
      → contains b (remove a xs) ≡ not (is_eq (o.cmp b a)) && contains b xs
  unfolding contains remove
  contains-remove a b [] s = ground arith
  contains-remove a b (x ∷ xs) s = ground (
    arith,
    contains-remove a b xs s.1,
    o.cmp_eq a x,
    o.cmp_eq b a,
    o.cmp_eq b x,
    not-contains-After a xs,
    o.cmp_refl b,
  )

  pub insert_of_contains :
      (a : K) (xs : List K) → IsSorted xs → contains a xs ≡ true → insert a xs ≡ xs
  unfolding contains insert
  insert_of_contains a [] s h = cc
  insert_of_contains a (x ∷ xs) s h =
      ground (arith, insert_of_contains a xs s.1, not-contains-After a xs, After-trans a x xs)

  pub remove_of_not_contains : (a : K) (xs : List K) → contains a xs ≡ false → remove a xs ≡ xs
  unfolding contains remove
  remove_of_not_contains a [] h = refl
  remove_of_not_contains a (x ∷ xs) h = ground (arith, remove_of_not_contains a xs)

  pub set_eq_refl : (xs : List K) → set_eq xs xs ≡ true
  unfolding set_eq
  set_eq_refl [] = refl
  set_eq_refl (x ∷ xs) = ground (arith, set_eq_refl xs, o.cmp_refl x)

  pub set_eq_sound : (xs ys : List K) → set_eq xs ys ≡ true → xs ≡ ys
  unfolding set_eq
  set_eq_sound [] [] h = refl
  set_eq_sound [] (y ∷ ys) h = cc
  set_eq_sound (x ∷ xs) [] h = cc
  set_eq_sound (x ∷ xs) (y ∷ ys) h = ground (arith, set_eq_sound xs ys, o.cmp_eq x y)

  pub is_empty-contains : (a : K) (xs : List K) → contains a xs ≡ true → is_empty xs ≡ false
  unfolding contains is_empty
  is_empty-contains a [] h = cc
  is_empty-contains a (x ∷ xs) h = refl

  -- An insertion changes the set exactly if the value was not there.
  pub set_eq-insert : (a : K) (xs : List K) → IsSorted xs → set_eq xs (insert a xs) ≡ contains a xs
  set_eq-insert a xs s = elim (Bool-cases (contains a xs)) [
    | inl there ↦ rw (insert_of_contains a xs s there, there) (set_eq_refl xs)
    | inr new ↦ ground (arith, set_eq_sound xs (insert a xs), contains-insert a a xs, o.cmp_refl a)
  ]

  pub set_eq-remove :
      (a : K) (xs : List K) → IsSorted xs → set_eq xs (remove a xs) ≡ not (contains a xs)
  set_eq-remove a xs s = elim (Bool-cases (contains a xs)) [
    | inr out ↦ rw (remove_of_not_contains a xs out, out) (set_eq_refl xs)
    | inl there ↦
        ground (arith, set_eq_sound xs (remove a xs), contains-remove a a xs s, o.cmp_refl a)
  ]
