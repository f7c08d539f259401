-- ===== src/Text/Split.antt =====
-- `s.split(separator)`, for a separator that is not empty.
pub mod Laws
use temporal_cloud_offering.Prelude.{ℕ, zero, suc, List, [], ◌∷◌, none, some, length}
use temporal_cloud_offering.Text.{Text, cut}

-- The parts, with at most as many cuts as the fuel says.
unfoldable pub split_within : ℕ → Text → Text → List Text
split_within zero s separator = s ∷ []
split_within (suc n) s separator = elim (cut separator s) [
  | none ↦ s ∷ []
  | some (before, after) ↦ before ∷ split_within n after separator
]

-- The fuel is the length of the text: each cut takes a unit at least.
unfoldable pub split : Text → Text → List Text
unfolding split_within
split s separator = split_within (length s) s separator
