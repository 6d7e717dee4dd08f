-- ===== src/Validation/Space.antt =====
-- `ValidateSpace` (internal/validation/space.go) against a description of the names it is to accept.
use tuplespace.Base.{
  ℕ, ◌⊎◌, inl, ◌≤◌, ◌≡◌, ◌↔◌, refl, true, [], ◌∷◌, Text, length, all, All, ok, arith,
}
use tuplespace.Validation.{is_alphanumeric, is_space_char, validate_space}

abbrev pub IsLetterOrDigit : ℕ → Type 0
IsLetterOrDigit c =
    ((b'0' ≤ c) × (c ≤ b'9')) ⊎ (((b'A' ≤ c) × (c ≤ b'Z')) ⊎ ((b'a' ≤ c) × (c ≤ b'z')))

abbrev pub IsNameCharacter : ℕ → Type 0
IsNameCharacter c = IsLetterOrDigit c ⊎ ((c ≡ b'_') ⊎ ((c ≡ b'.') ⊎ (c ≡ b'-')))

-- One to 64 characters of [A-Za-z0-9_.-], the first of [A-Za-z0-9].
abbrev pub IsSpaceName : Text → Type 0
IsSpaceName [] = ⊥
IsSpaceName (c ∷ s) = (length (c ∷ s) ≤ 64) × IsLetterOrDigit c × All IsNameCharacter (c ∷ s)

is_alphanumeric_iff : (c : ℕ) → (is_alphanumeric c ≡ true) ↔ IsLetterOrDigit c
unfolding is_alphanumeric
is_alphanumeric_iff c = (λ h. ground arith, λ h. ground arith)

is_space_char_iff : (c : ℕ) → (is_space_char c ≡ true) ↔ IsNameCharacter c
unfolding is_space_char is_alphanumeric
is_space_char_iff c = (λ h. ground arith, λ h. ground arith)

all-All : (s : Text) → (all is_space_char s ≡ true) ↔ All IsNameCharacter s
all-All [] = (λ _. tt, λ _. refl)
all-All (c ∷ s) =
    let (there, back) = all-All s in
    let (good, char) = is_space_char_iff c in
    (
      λ h. (good (ground arith), there (ground arith)),
      λ (h, hs). let first = char h in let rest = back hs in ground arith,
    )

validate_space_sound : (s : Text) → validate_space s ≡ ok tt → IsSpaceName s
unfolding validate_space
validate_space_sound [] h = cc
validate_space_sound (c ∷ s) h =
    let first = (is_alphanumeric_iff c).0 (ground arith) in
    (ground arith, first, (inl first, (all-All s).0 (ground arith)))

validate_space_complete : (s : Text) → IsSpaceName s → validate_space s ≡ ok tt
unfolding validate_space
validate_space_complete [] h = absurd h
validate_space_complete (c ∷ s) (short, first, (_, rest)) =
    let begins = (is_alphanumeric_iff c).1 first in let follows = (all-All s).1 rest in ground arith

-- A space is accepted exactly when it has 1 to 64 characters, all of [A-Za-z0-9_.-] and the first of
-- [A-Za-z0-9].
pub validate_space_iff : (s : Text) → (validate_space s ≡ ok tt) ↔ IsSpaceName s
validate_space_iff s = (validate_space_sound s, validate_space_complete s)
