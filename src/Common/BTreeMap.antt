-- ===== src/Common/BTreeMap.antt =====
-- std::collections::BTreeMap as the list of its entries in the order of the keys.
use Prim.Native.Nat.{Ordering}
use mathlib.Core.Path.{◌≡◌, refl}
use mathlib.Core.Bool.{Bool}
use mathlib.Core.Option.{Option, none, some}
use mathlib.Core.List.{List, [], ◌∷◌}
use native.Mathlib.Omega.{arith}
use chiu.Common.Tests.{is_some, if◌then◌else◌}
use chiu.Common.Lists.{All}
use chiu.Common.Ord.{Ord}
use chiu.Common.BTreeSet.{is_eq}

module _ {ℓ κ} {K : Type ℓ} {V : Type κ} ⦃o : Ord K⦄ where
  unfoldable pub get : K → List (K × V) → Option V
  get k [] = none
  get k ((j, v) ∷ m) = if is_eq (o.cmp k j) then some v else get k m

  unfoldable pub insert : K → V → List (K × V) → List (K × V)
  insert k v [] = (k, v) ∷ []
  insert k v ((j, w) ∷ m) =
      let rest = insert k v m in
      elim (o.cmp k j) [
        | Ordering.lt ↦ (k, v) ∷ (j, w) ∷ m
        | Ordering.eq ↦ (j, v) ∷ m
        | Ordering.gt ↦ (j, w) ∷ rest
      ]

  abbrev pub contains_key : K → List (K × V) → Bool
  contains_key k m = is_some (get k m)

  -- Later entries replace earlier ones.
  unfoldable pub insert_all : List (K × V) → List (K × V) → List (K × V)
  insert_all [] m = m
  insert_all ((k, v) ∷ rest) m = insert_all rest (insert k v m)

  -- Iterator::collect.
  abbrev pub collect : List (K × V) → List (K × V)
  collect entries = insert_all entries []

  -- Every key of the map comes after `a`.
  abbrev pub After : K → List (K × V) → Type 0
  After a = All (λ (e : K × V). o.cmp a e.0 ≡ Ordering.lt)

  abbrev pub IsSorted : List (K × V) → Type 0
  IsSorted [] = Unit
  IsSorted (e ∷ m) = After e.0 m × IsSorted m

  pub get-insert :
      (k j : K) (v : V) (m : List (K × V))
      → get j (insert k v m) ≡ (if is_eq (o.cmp j k) then some v else get j m)
  unfolding get insert
  get-insert k j v [] = refl
  get-insert k j v ((i, w) ∷ m) = ground (arith, get-insert k j v m, o.cmp_eq k i, o.cmp_eq j k)

  After-trans : (a b : K) (m : List (K × V)) → o.cmp a b ≡ Ordering.lt → After b m → After a m
  After-trans a b [] h t = tt
  After-trans a b (e ∷ m) h t = (o.cmp_trans a b e.0 h t.0, After-trans a b m h t.1)

  insert-After :
      (a k : K) (v : V) (m : List (K × V))
      → o.cmp a k ≡ Ordering.lt
      → After a m
      → After a (insert k v m)
  unfolding insert
  insert-After a k v [] h t = (h, tt)
  insert-After a k v ((j, w) ∷ m) h t = ground (arith, insert-After a k v m h t.1)

  pub insert-IsSorted : (k : K) (v : V) (m : List (K × V)) → IsSorted m → IsSorted (insert k v m)
  unfolding insert
  insert-IsSorted k v [] s = (tt, tt)
  insert-IsSorted k v ((j, w) ∷ m) s = ground (
    arith,
    insert-IsSorted k v m s.1,
    insert-After j k v m,
    After-trans k j m,
    o.cmp_swap k j,
    o.cmp_eq k j,
  )

  pub get-After : (k : K) (m : List (K × V)) → After k m → get k m ≡ none
  unfolding get
  get-After k [] h = refl
  get-After k ((j, w) ∷ m) h = ground (arith, get-After k m h.1)

  pub insert_all-IsSorted :
      (es : List (K × V)) (m : List (K × V)) → IsSorted m → IsSorted (insert_all es m)
  unfolding insert_all
  insert_all-IsSorted [] m s = s
  insert_all-IsSorted ((k, v) ∷ es) m s =
      insert_all-IsSorted es (insert k v m) (insert-IsSorted k v m s)

  pub collect-IsSorted : (es : List (K × V)) → IsSorted (collect es)
  collect-IsSorted es = insert_all-IsSorted es [] tt
