-- ===== src/Common/Bytes.antt =====
-- Byte strings as lists of numbers: the lexicographic order of `[u8]`, and file names, which are the
-- code points of an ASCII text.
use Prim.Native.Char.{code}
use Prim.Native.Nat.{ℕ, compare, Ordering}
use Prim.Native.String.{String}
use mathlib.Core.Path.{◌≡◌, refl}
use mathlib.Core.Logic.{◌≢◌}
use mathlib.Core.Bool.{Bool, true, false, ◌&&◌}
use mathlib.Core.List.{List, [], ◌∷◌}
use native.Mathlib.Omega.{arith}
use chiu.Common.Tests.{◌==◌}
use chiu.Common.BTreeSet.{is_eq}
use chiu.Common.Ord.{Ord, reverse_ordering}

abbrev pub codes : String → List ℕ
codes String.[] = []
codes (String.◌∷◌ c s) = code c ∷ codes s

abbrev pub then_compare : Ordering → Ordering → Ordering
then_compare Ordering.lt o = Ordering.lt
then_compare Ordering.eq o = o
then_compare Ordering.gt o = Ordering.gt

abbrev pub compare_bytes : List ℕ → List ℕ → Ordering
compare_bytes [] [] = Ordering.eq
compare_bytes [] (y ∷ ys) = Ordering.lt
compare_bytes (x ∷ xs) [] = Ordering.gt
compare_bytes (x ∷ xs) (y ∷ ys) = then_compare (compare x y) (compare_bytes xs ys)

pub bytes_refl : (xs : List ℕ) → compare_bytes xs xs ≡ Ordering.eq
bytes_refl [] = refl
bytes_refl (x ∷ xs) = ground (arith, bytes_refl xs)

pub bytes_eq : (xs ys : List ℕ) → compare_bytes xs ys ≡ Ordering.eq → xs ≡ ys
bytes_eq [] [] h = refl
bytes_eq [] (y ∷ ys) h = ground arith
bytes_eq (x ∷ xs) [] h = ground arith
bytes_eq (x ∷ xs) (y ∷ ys) h = ground (arith, bytes_eq xs ys)

pub bytes_swap : (xs ys : List ℕ) → compare_bytes ys xs ≡ reverse_ordering (compare_bytes xs ys)
bytes_swap [] [] = refl
bytes_swap [] (y ∷ ys) = refl
bytes_swap (x ∷ xs) [] = refl
bytes_swap (x ∷ xs) (y ∷ ys) = ground (arith, bytes_swap xs ys)

pub bytes_trans :
    (xs ys zs : List ℕ)
    → compare_bytes xs ys ≡ Ordering.lt
    → compare_bytes ys zs ≡ Ordering.lt
    → compare_bytes xs zs ≡ Ordering.lt
bytes_trans [] [] [] h k = h
bytes_trans [] (y ∷ ys) [] h k = ground arith
bytes_trans [] ys (z ∷ zs) h k = refl
bytes_trans (x ∷ xs) [] zs h k = ground arith
bytes_trans (x ∷ xs) (y ∷ ys) [] h k = ground arith
bytes_trans (x ∷ xs) (y ∷ ys) (z ∷ zs) h k =
    ground (arith, bytes_trans xs ys zs, bytes_eq xs ys, bytes_eq ys zs)

instance abbrev pub bytes_ord : Ord (List ℕ)
bytes_ord = record {
  cmp = compare_bytes;
  cmp_refl = bytes_refl;
  cmp_eq = bytes_eq;
  cmp_swap = bytes_swap;
  cmp_trans = bytes_trans;
}

abbrev pub same_bytes : List ℕ → List ℕ → Bool
same_bytes xs ys = is_eq (compare_bytes xs ys)

pub same_bytes_eq : (xs ys : List ℕ) → same_bytes xs ys ≡ true → xs ≡ ys
same_bytes_eq xs ys h = bytes_eq xs ys (ground arith)

pub bytes_differ : (xs ys : List ℕ) → same_bytes xs ys ≡ false → xs ≢ ys
bytes_differ xs ys h e = ground (arith, bytes_refl xs)

-- `str::starts_with`, the prefix first.
abbrev pub starts_with : List ℕ → List ℕ → Bool
starts_with [] ys = true
starts_with (x ∷ xs) [] = false
starts_with (x ∷ xs) (y ∷ ys) = x == y && starts_with xs ys
