-- ===== src/Text/Laws.antt =====
-- Laws of texts and of dictionaries with text keys.
use temporal_cloud_offering.Prelude.{
  ◌≡◌, refl, ◌↔◌, inl, inr, Option-cases, ◌++◌, true, List, [], ◌∷◌, none, some, arith,
  if◌then◌else◌,
}
use temporal_cloud_offering.Text.{
  Text, ◌==◌, lookup, insert, remove, strip_prefix, starts_with, cut, replace_first,
}

pub ==_iff : (s t : Text) → ((s == t) ≡ true) ↔ (s ≡ t)
unfolding ◌==◌
==_iff [] [] = ground arith
==_iff [] (y ∷ ys) = ground arith
==_iff (x ∷ xs) [] = ground arith
==_iff (x ∷ xs) (y ∷ ys) = ground (arith, ==_iff xs ys)

pub ==_refl : (s : Text) → (s == s) ≡ true
==_refl s = (==_iff s s).1 refl

module _ {ℓ} {V : Type ℓ} where
  pub lookup-insert :
      (name other : Text) (value : V) (entries : List (Text × V))
      → lookup other (insert name value entries)
        ≡ (if name == other then some value else lookup other entries)
  unfolding lookup insert ◌==◌
  lookup-insert name other value [] = refl
  lookup-insert name other value ((here, v) ∷ entries) = ground (
    arith,
    lookup-insert name other value entries,
    ==_iff here other,
    ==_iff here name,
    ==_iff name other,
  )

  pub lookup-remove :
      (name other : Text) (entries : List (Text × V))
      → lookup other (remove name entries) ≡ (if name == other then none else lookup other entries)
  unfolding lookup remove
  lookup-remove name other [] = ground arith
  lookup-remove name other ((here, v) ∷ entries) = ground (
    arith,
    lookup-remove name other entries,
    ==_iff here other,
    ==_iff here name,
    ==_iff name other,
  )

pub strip_prefix-append : (a b : Text) → strip_prefix a (a ++ b) ≡ some b
unfolding strip_prefix
strip_prefix-append [] b = refl
strip_prefix-append (x ∷ a) b = ground (arith, strip_prefix-append a b)

pub strip_prefix-eq : (a s r : Text) → strip_prefix a s ≡ some r → s ≡ a ++ r
unfolding strip_prefix
strip_prefix-eq [] s r e = ground arith
strip_prefix-eq (x ∷ a) [] r e = cc
strip_prefix-eq (x ∷ a) (y ∷ s) r e = ground (arith, strip_prefix-eq a s r)

-- A text starts with a prefix exactly when it is the prefix and a rest.
pub starts_with-rest : (s a : Text) → starts_with s a ≡ true → (r : Text) × (s ≡ a ++ r)
unfolding starts_with
starts_with-rest s a e = elim (Option-cases (strip_prefix a s)) [
  | inl missing ↦ absurd (ground arith)
  | inr (r, found) ↦ (r, strip_prefix-eq a s r found)
]

pub starts_with-append : (a b : Text) → starts_with (a ++ b) a ≡ true
unfolding starts_with
starts_with-append a b = rw (strip_prefix-append a b, starts_with) refl

cut-append : (a b : Text) → cut a (a ++ b) ≡ some ([], b)
unfolding cut
cut-append [] [] = unfold strip_prefix in refl
cut-append [] (y ∷ b) = unfold strip_prefix in refl
cut-append (x ∷ a) b = rw (strip_prefix-append (x ∷ a) b, cut) refl

-- Replacing a prefix replaces its first occurrence.
pub replace_first-append : (a b c : Text) → replace_first (a ++ b) a c ≡ c ++ b
unfolding replace_first
replace_first-append a b c = rw (cut-append a b, replace_first) refl
