-- ===== src/Text.antt =====
-- JavaScript strings as lists of UTF-16 code units, with the string operations that the
-- program uses: `===`, `includes`, `split(…)[0]`, `replace`, `startsWith`, `padStart(2)` on hex digits.
pub mod Laws
pub mod Hex
pub mod Utf8
pub mod Split
pub mod Uri
use Prim.Native.Char.{code}
use Prim.Native.String
use Prim.Native.String.{String}
use temporal_cloud_offering.Prelude.{
  ℕ, Bool, true, false, ◌&&◌, List, [], ◌∷◌, ◌++◌, Option, none, some, eqb, if◌then◌else◌,
}

abbrev pub Text : Type 0
Text = List ℕ

-- A literal; the program's literals are in the basic plane, so a code point is a code unit.
abbrev pub codes : String → Text
codes String.[] = []
codes (String.◌∷◌ c s) = code c ∷ codes s

infix 50 ◌==◌
unfoldable pub ◌==◌ : Text → Text → Bool
[] == [] = true
(x ∷ xs) == (y ∷ ys) = eqb x y && (xs == ys)
_ == _ = false

-- A string is truthy when it is not empty.
abbrev pub non_empty : Text → Bool
non_empty [] = false
non_empty (_ ∷ _) = true

-- `a || b` on strings
abbrev pub or_else : Text → Text → Text
or_else [] b = b
or_else (x ∷ xs) b = x ∷ xs

-- What is left of a text behind a prefix.
unfoldable pub strip_prefix : Text → Text → Option Text
strip_prefix [] s = some s
strip_prefix (x ∷ xs) [] = none
strip_prefix (x ∷ xs) (y ∷ ys) = if eqb x y then strip_prefix xs ys else none

unfoldable pub starts_with : Text → Text → Bool
unfolding strip_prefix
starts_with s prefix = elim (strip_prefix prefix s) [ none ↦ false | some _ ↦ true ]

abbrev push : ℕ → Option (Text × Text) → Option (Text × Text)
push c none = none
push c (some (before, after)) = some (c ∷ before, after)

-- The text before and after the first occurrence of a pattern.
unfoldable pub cut : Text → Text → Option (Text × Text)
unfolding strip_prefix
cut pattern [] = elim (strip_prefix pattern []) [ none ↦ none | some rest ↦ some ([], rest) ]
cut pattern (c ∷ s) =
    let later = cut pattern s in
    elim (strip_prefix pattern (c ∷ s)) [ none ↦ push c later | some rest ↦ some ([], rest) ]

-- `s.includes(pattern)`
unfoldable pub includes : Text → Text → Bool
unfolding cut
includes s pattern = elim (cut pattern s) [ none ↦ false | some _ ↦ true ]

-- `s.split(separator)[0]`, for a separator that is not empty
unfoldable pub first_part : Text → Text → Text
unfolding cut
first_part s separator = elim (cut separator s) [ none ↦ s | some (before, _) ↦ before ]

-- `s.replace(pattern, replacement)` for a pattern that is a string: the first occurrence
unfoldable pub replace_first : Text → Text → Text → Text
unfolding cut
replace_first s pattern replacement = elim (cut pattern s) [
  | none ↦ s
  | some (before, after) ↦ before ++ replacement ++ after
]

-- A dictionary with text keys.
module _ {ℓ} {V : Type ℓ} where
  -- Writes in place, or at the end, as a property of a JavaScript object.
  unfoldable pub insert : Text → V → List (Text × V) → List (Text × V)
  unfolding ◌==◌
  insert name value [] = (name, value) ∷ []
  insert name value (entry ∷ entries) =
      let rest = insert name value entries in
      if entry.0 == name then (entry.0, value) ∷ entries else entry ∷ rest

  -- The value under a key.
  unfoldable pub lookup : Text → List (Text × V) → Option V
  unfolding ◌==◌
  lookup name [] = none
  lookup name (entry ∷ entries) =
      let found = lookup name entries in if entry.0 == name then some entry.1 else found

  unfoldable pub remove : Text → List (Text × V) → List (Text × V)
  unfolding ◌==◌
  remove name [] = []
  remove name (entry ∷ entries) =
      let rest = remove name entries in if entry.0 == name then rest else entry ∷ rest
