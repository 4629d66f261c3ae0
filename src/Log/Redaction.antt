-- ===== src/Log/Redaction.antt =====
-- What can reach the log of the text that an update server sends.
use chiu.Common.{
  ℕ, ◌≡◌, ◌≤◌, ◌⊎◌, ◌↔◌, refl, subst, String, true, false, Option, none, some, length, arith, List,
  [], ◌∷◌, All, Bool-cases, inl, inr,
}
use chiu.Common.Bytes.{codes}
use chiu.Log.Text.{is_redacted, is_version_byte, all_version_bytes, safe_version}

abbrev Between : ℕ → ℕ → ℕ → Type 0
Between low high c = (low ≤ c) × (c ≤ high)

-- An ASCII digit or letter, a full stop, a hyphen or a plus sign.
abbrev pub IsPlain : ℕ → Type 0
IsPlain c =
    Between b'0' b'9' c
    ⊎ (Between b'A' b'Z' c ⊎ (Between b'a' b'z' c ⊎ ((c ≡ b'.') ⊎ ((c ≡ b'-') ⊎ (c ≡ b'+')))))

-- One to 64 characters, each of them plain.
pub record IsSafe (text : String) : Type 0 where
  pub some_text : 1 ≤ length (codes text)
  pub short : length (codes text) ≤ 64
  pub plain : All IsPlain (codes text)

is_version_byte-IsPlain : (c : ℕ) → is_version_byte c ≡ true → IsPlain c
is_version_byte-IsPlain c h = ground arith

IsPlain-is_version_byte : (c : ℕ) → IsPlain c → is_version_byte c ≡ true
IsPlain-is_version_byte c h = ground arith

All-IsPlain : (cs : List ℕ) → all_version_bytes cs ≡ true → All IsPlain cs
All-IsPlain [] h = tt
All-IsPlain (c ∷ cs) h = (is_version_byte-IsPlain c (ground arith), All-IsPlain cs (ground arith))

All-is_version_byte : (cs : List ℕ) → All IsPlain cs → all_version_bytes cs ≡ true
All-is_version_byte [] h = refl
All-is_version_byte (c ∷ cs) h =
    ground (arith, IsPlain-is_version_byte c h.0, All-is_version_byte cs h.1)

is_redacted_iff : (text : String) → (is_redacted (codes text) ≡ false) ↔ IsSafe text
is_redacted_iff text = (
  λ h. record {
    some_text = ground (arith, h);
    short = ground (arith, h);
    plain = All-IsPlain (codes text) (ground (arith, h));
  },
  λ h. ground (arith, All-is_version_byte (codes text) h.plain, h.some_text, h.short),
)

logged-IsSafe : (version : Option String) → IsSafe (safe_version version)
unfolding safe_version
logged-IsSafe none = (is_redacted_iff "unknown").0 refl
logged-IsSafe (some version) = elim (Bool-cases (is_redacted (codes version))) [
  | inl e ↦ rw e ((is_redacted_iff "redacted").0 refl)
  | inr e ↦ rw e ((is_redacted_iff version).0 e)
]

-- What is logged of the version that an update server names, or of none, is always one to 64
-- characters, each an ASCII letter or digit, a full stop, a hyphen or a plus sign; and a version
-- is logged as it is exactly if it is such a text itself.
pub safe_version-IsSafe :
    (version : Option String) (text : String)
    → IsSafe (safe_version version) × ((safe_version (some text) ≡ text) ↔ IsSafe text)
unfolding safe_version
safe_version-IsSafe version text = (
  logged-IsSafe version,
  (λ h. subst IsSafe h (logged-IsSafe (some text)), λ h. rw ((is_redacted_iff text).1 h) refl),
)
