-- ===== src/Substring.antt =====
-- response_helpers.go: containsString, the substring test of `Result`.
pub mod Occurs
use vecto.Base.{
  ℕ, zero, suc, ◌+◌, ◌-◌, Bool, true, false, ◌||◌, [], ◌∷◌, List, Bytes, str_eq, length, take, drop,
  if◌then◌else◌,
}

abbrev pub is_empty {ℓ} : {A : Type ℓ} → List A → Bool
is_empty [] = true
is_empty (x ∷ xs) = false

-- The loop over `i`; the second number is how many rounds are left.
unfoldable pub occurs_from : Bytes → Bytes → ℕ → ℕ → Bool
occurs_from s substr i zero = false
occurs_from s substr i (suc rounds) =
    let rest = occurs_from s substr (i + 1) rounds in
    if str_eq (take (length substr) (drop i s)) substr then true else rest

-- `i <= len(s)-len(substr)` holds for `len(s) + 1 - len(substr)` values of `i`, or for none.
unfoldable pub contains_string : Bytes → Bytes → Bool
unfolding occurs_from
contains_string s substr =
    if is_empty s || is_empty substr
    then false
    else occurs_from s substr 0 (length s + 1 - length substr)
