-- ===== src/Log/Names.antt =====
-- The names of archives, apart from how the log reads them.
use chiu.Common.{
  ℕ, ◌+◌, ◌*◌, ◌-◌, ◌==◌, ◌≤◌, ◌≡◌, ◌⊎◌, ◌↔◌, inl, inr, refl, ◌∙◌, ap, true, false, Option, none,
  some, Bool-cases, List, [], ◌∷◌, ◌++◌, length, All, arith,
}
use chiu.Common.Time.{u64_max}
use chiu.Common.Bytes.{codes}
use chiu.Log.Opening.{
  strip_prefix, strip_suffix, same_codes, before, parse_digits, parse_usize, and_parse, and_strip,
  archive_index,
}

abbrev pub IsDigit : ℕ → Type 0
IsDigit c = (b'0' ≤ c) × (c ≤ b'9')

-- The number that digits read as, after a number.
abbrev pub value : ℕ → List ℕ → ℕ
value n [] = n
value n (c ∷ cs) = value (n * 10 + (c - b'0')) cs

-- At least one digit, which read as the index, a number of 64 bits, after a plus sign or none.
abbrev pub IsNumeral : List ℕ → ℕ → Type 0
IsNumeral text index =
    (sign : List ℕ) × (digits : List ℕ) × ((sign ≡ []) ⊎ (sign ≡ b'+' ∷ []))
    × (text ≡ sign ++ digits)
    × (1 ≤ length digits)
    × All IsDigit digits
    × (value 0 digits ≡ index)
    × (index ≤ u64_max)

-- `chiu.`, a numeral of the index, and `.log`.
abbrev pub IsArchive : List ℕ → ℕ → Type 0
IsArchive name index =
    (text : List ℕ) × (name ≡ codes "chiu." ++ (text ++ codes ".log")) × IsNumeral text index

strip_prefix_sound : (p name r : List ℕ) → strip_prefix p name ≡ some r → name ≡ p ++ r
strip_prefix_sound [] name r h = ground arith
strip_prefix_sound (x ∷ xs) [] r h = cc
strip_prefix_sound (x ∷ xs) (y ∷ ys) r h = ground (arith, strip_prefix_sound xs ys r)

same_codes_sound : (xs ys : List ℕ) → same_codes xs ys ≡ true → xs ≡ ys
same_codes_sound [] [] h = refl
same_codes_sound [] (y ∷ ys) h = ground arith
same_codes_sound (x ∷ xs) [] h = ground arith
same_codes_sound (x ∷ xs) (y ∷ ys) h = ground (arith, same_codes_sound xs ys)

before_sound :
    (c : ℕ) (o : Option (List ℕ)) (r : List ℕ)
    → before c o ≡ some r
    → (q : List ℕ) × (o ≡ some q) × (r ≡ c ∷ q)
before_sound c none r h = cc
before_sound c (some q) r h = (q, refl, ground arith)

strip_suffix_sound : (s name r : List ℕ) → strip_suffix s name ≡ some r → name ≡ r ++ s
strip_suffix_sound s [] r h = ground (arith, same_codes_sound s [])
strip_suffix_sound s (y ∷ ys) r h = elim (Bool-cases (same_codes s (y ∷ ys))) [
  | inl same ↦ ground (arith, same_codes_sound s (y ∷ ys))
  | inr other ↦
      let (q, e, r_eq) = before_sound y (strip_suffix s ys) r (ground arith) in
      ground (arith, strip_suffix_sound s ys q e)
]

parse_digits_sound :
    (n : ℕ) (cs : List ℕ) (i : ℕ)
    → parse_digits n cs ≡ some i
    → All IsDigit cs × (value n cs ≡ i) × (i ≤ u64_max)
parse_digits_sound n [] i h = (tt, ground arith, ground arith)
parse_digits_sound n (c ∷ cs) i h =
    let (all, v, b) = parse_digits_sound (n * 10 + (c - 48)) cs i (ground arith) in
    ((ground arith, all), v, b)

parse_usize_sound : (cs : List ℕ) (i : ℕ) → parse_usize cs ≡ some i → IsNumeral cs i
parse_usize_sound [] i h = cc
parse_usize_sound (c ∷ []) i h =
    let (all, v, b) = parse_digits_sound 0 (c ∷ []) i h in
    ([], c ∷ [], inl refl, refl, omega arith, all, v, b)
parse_usize_sound (c ∷ d ∷ cs) i h = elim (Bool-cases (c == 43)) [
  | inl plus ↦
      let (all, v, b) = parse_digits_sound 0 (d ∷ cs) i (ground arith) in
      (43 ∷ [], d ∷ cs, inr refl, ground arith, omega arith, all, v, b)
  | inr other ↦
      let (all, v, b) = parse_digits_sound 0 (c ∷ d ∷ cs) i (ground arith) in
      ([], c ∷ d ∷ cs, inl refl, refl, omega arith, all, v, b)
]

and_parse_sound :
    (o : Option (List ℕ)) (i : ℕ)
    → and_parse o ≡ some i
    → (text : List ℕ) × (o ≡ some text) × (parse_usize text ≡ some i)
and_parse_sound none i h = cc
and_parse_sound (some text) i h = (text, refl, h)

and_strip_sound :
    (o : Option (List ℕ)) (text : List ℕ)
    → and_strip o ≡ some text
    → (rest : List ℕ) × (o ≡ some rest) × (rest ≡ text ++ codes ".log")
and_strip_sound none text h = cc
and_strip_sound (some rest) text h = (rest, refl, strip_suffix_sound (codes ".log") rest text h)

archive_index_sound : (name : List ℕ) (i : ℕ) → archive_index name ≡ some i → IsArchive name i
unfolding archive_index
archive_index_sound name i h =
    let (text, stripped, read) =
      and_parse_sound (and_strip (strip_prefix (codes "chiu.") name)) i h in
    let (rest, e, same) = and_strip_sound (strip_prefix (codes "chiu.") name) text stripped in
    (
      text,
      strip_prefix_sound (codes "chiu.") name rest e ∙ ap (λ r. codes "chiu." ++ r) same,
      parse_usize_sound text i read,
    )

strip_prefix_complete : (p r : List ℕ) → strip_prefix p (p ++ r) ≡ some r
strip_prefix_complete [] r = refl
strip_prefix_complete (x ∷ xs) r = ground (arith, strip_prefix_complete xs r)

same_codes_refl : (xs : List ℕ) → same_codes xs xs ≡ true
same_codes_refl [] = refl
same_codes_refl (x ∷ xs) = ground (arith, same_codes_refl xs)

strip_suffix_whole : (s : List ℕ) → strip_suffix s s ≡ some []
strip_suffix_whole [] = refl
strip_suffix_whole (x ∷ xs) = ground (arith, same_codes_refl (x ∷ xs))

length_longer : (r s : List ℕ) → length s ≤ length (r ++ s)
length_longer [] s = omega arith
length_longer (x ∷ xs) s = omega (arith, length_longer xs s)

not_whole : (s : List ℕ) (y : ℕ) (r : List ℕ) → same_codes s (y ∷ (r ++ s)) ≡ false
not_whole s y r = elim (Bool-cases (same_codes s (y ∷ (r ++ s)))) [
  | inr h ↦ h
  | inl h ↦
      let e : length s ≡ length (y ∷ (r ++ s)) = ap length (same_codes_sound s (y ∷ (r ++ s)) h) in
      absurd (omega (arith, e, length_longer r s))
]

strip_suffix_complete : (s r : List ℕ) → strip_suffix s (r ++ s) ≡ some r
strip_suffix_complete s [] = strip_suffix_whole s
strip_suffix_complete s (y ∷ r) = rw (not_whole s y r, strip_suffix_complete s r) refl

parse_digits_complete :
    (n : ℕ) (cs : List ℕ)
    → All IsDigit cs
    → value n cs ≤ u64_max
    → parse_digits n cs ≡ some (value n cs)
parse_digits_complete n [] h b = ground arith
parse_digits_complete n (c ∷ cs) h b =
    ground (arith, parse_digits_complete (n * 10 + (c - 48)) cs h.1 b, h.0)

parse_unsigned : (c : ℕ) (cs : List ℕ) → IsDigit c → parse_usize (c ∷ cs) ≡ parse_digits 0 (c ∷ cs)
parse_unsigned c [] h = refl
parse_unsigned c (d ∷ cs) h = ground (arith, h)

parse_usize_complete : (text : List ℕ) (i : ℕ) → IsNumeral text i → parse_usize text ≡ some i
parse_usize_complete text i (sign, [], sign_case, same, some_digit, all, read, fits) =
    absurd (omega (arith, some_digit))
parse_usize_complete text i (sign, d ∷ ds, sign_case, same, some_digit, all, read, fits) =
    let parsed = parse_digits_complete 0 (d ∷ ds) all (rw read fits) in
    elim sign_case [
      | inl e ↦ rw (same, e) (parse_unsigned d ds all.0 ∙ parsed ∙ ap some read)
      | inr e ↦ rw (same, e) (parsed ∙ ap some read)
    ]

archive_index_complete : (name : List ℕ) (i : ℕ) → IsArchive name i → archive_index name ≡ some i
unfolding archive_index
archive_index_complete name i (text, same, numeral) =
    rw (same, strip_suffix_complete (codes ".log") text) (parse_usize_complete text i numeral)

-- The log reads an index from a name exactly if it is an archive's name with that index.
pub archive_index_iff : (name : List ℕ) (i : ℕ) → (archive_index name ≡ some i) ↔ IsArchive name i
archive_index_iff name i = (archive_index_sound name i, archive_index_complete name i)
