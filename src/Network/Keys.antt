-- ===== src/Network/Keys.antt =====
-- `InterfaceId` of src-tauri/src/network_activity/mod.rs with its derived order: by the number,
-- then by the incarnation, none first, its bytes in lexicographic order.
use Prim.Native.Nat.{compare, Ordering}
use chiu.Common.{ℕ, ◌≡◌, refl, Option, none, some, List, arith}
use chiu.Common.Bytes.{then_compare, compare_bytes, bytes_refl, bytes_eq, bytes_swap, bytes_trans}
use chiu.Common.Ord.{Ord, reverse_ordering}

pub record InterfaceId : Type 0 where
  pub numeric : ℕ
  pub incarnation : Option (List ℕ)

abbrev pub compare_incarnations : Option (List ℕ) → Option (List ℕ) → Ordering
compare_incarnations none none = Ordering.eq
compare_incarnations none (some ys) = Ordering.lt
compare_incarnations (some xs) none = Ordering.gt
compare_incarnations (some xs) (some ys) = compare_bytes xs ys

abbrev pub compare_ids : InterfaceId → InterfaceId → Ordering
compare_ids a b =
    then_compare (compare a.numeric b.numeric) (compare_incarnations a.incarnation b.incarnation)

incarnations_eq : (a b : Option (List ℕ)) → compare_incarnations a b ≡ Ordering.eq → a ≡ b
incarnations_eq none none h = refl
incarnations_eq none (some ys) h = ground arith
incarnations_eq (some xs) none h = ground arith
incarnations_eq (some xs) (some ys) h = ground (arith, bytes_eq xs ys)

incarnations_refl : (a : Option (List ℕ)) → compare_incarnations a a ≡ Ordering.eq
incarnations_refl none = refl
incarnations_refl (some xs) = bytes_refl xs

incarnations_swap :
    (a b : Option (List ℕ)) → compare_incarnations b a ≡ reverse_ordering (compare_incarnations a b)
incarnations_swap none none = refl
incarnations_swap none (some ys) = refl
incarnations_swap (some xs) none = refl
incarnations_swap (some xs) (some ys) = bytes_swap xs ys

incarnations_trans :
    (a b c : Option (List ℕ))
    → compare_incarnations a b ≡ Ordering.lt
    → compare_incarnations b c ≡ Ordering.lt
    → compare_incarnations a c ≡ Ordering.lt
incarnations_trans none none c h k = ground arith
incarnations_trans none (some ys) none h k = ground arith
incarnations_trans none (some ys) (some zs) h k = refl
incarnations_trans (some xs) none c h k = ground arith
incarnations_trans (some xs) (some ys) none h k = ground arith
incarnations_trans (some xs) (some ys) (some zs) h k = bytes_trans xs ys zs h k

pub ids_refl : (a : InterfaceId) → compare_ids a a ≡ Ordering.eq
ids_refl a = ground (arith, incarnations_refl a.incarnation)

pub ids_eq : (a b : InterfaceId) → compare_ids a b ≡ Ordering.eq → a ≡ b
ids_eq a b h = ground (arith, incarnations_eq a.incarnation b.incarnation)

pub ids_swap : (a b : InterfaceId) → compare_ids b a ≡ reverse_ordering (compare_ids a b)
ids_swap a b = ground (arith, incarnations_swap a.incarnation b.incarnation)

pub ids_trans :
    (a b c : InterfaceId)
    → compare_ids a b ≡ Ordering.lt
    → compare_ids b c ≡ Ordering.lt
    → compare_ids a c ≡ Ordering.lt
ids_trans a b c h k = ground (arith, incarnations_trans a.incarnation b.incarnation c.incarnation)

instance abbrev pub interface_ord : Ord InterfaceId
interface_ord = record {
  cmp = compare_ids;
  cmp_refl = ids_refl;
  cmp_eq = ids_eq;
  cmp_swap = ids_swap;
  cmp_trans = ids_trans;
}
