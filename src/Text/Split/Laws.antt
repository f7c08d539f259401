-- ===== src/Text/Split/Laws.antt =====
-- `split` and `cut`: enough fuel, a first part without the separator, and texts with one part or two.
use temporal_cloud_offering.Prelude.{
  ℕ, zero, suc, ◌+◌, ◌≤◌, ◌≡◌, refl, sym, ◌≢◌, ap, ◌∙◌, inl, inr, append-nil, [], ◌∷◌, ◌++◌, Option,
  none, some, arith, length, length-append, All, Option-cases,
}
use temporal_cloud_offering.Text.{Text, cut, strip_prefix}
use temporal_cloud_offering.Text.Laws.{strip_prefix-eq}
use temporal_cloud_offering.Text.Split.{split_within, split}

-- A cut gives the text back.
pub cut-eq :
    (pattern s before after : Text)
    → cut pattern s ≡ some (before, after)
    → s ≡ before ++ (pattern ++ after)
unfolding cut
cut-eq pattern [] before after e = elim (Option-cases (strip_prefix pattern [])) [
  | inl missing ↦ ground arith
  | inr (rest, found) ↦ ground (arith, strip_prefix-eq pattern [] rest found)
]
cut-eq pattern (c ∷ s) before after e = elim (Option-cases (strip_prefix pattern (c ∷ s))) [
  | inr (rest, found) ↦ ground (arith, strip_prefix-eq pattern (c ∷ s) rest found)
  | inl missing ↦ elim (Option-cases (cut pattern s)) [
    | inl none_later ↦ ground arith
    | inr ((b, a), later) ↦ ground (arith, cut-eq pattern s b a later)
  ]
]

shorter :
    (c : ℕ) (pattern s before after : Text)
    → cut (c ∷ pattern) s ≡ some (before, after)
    → suc (length after) ≤ length s
shorter c pattern s before after e =
    let sizes : length s ≡ length before + (length (c ∷ pattern) + length after) =
      rw (cut-eq (c ∷ pattern) s before after e) (
        length-append before (◌++◌ (c ∷ pattern) after)
        ∙ ap (λ k. length before + k) (length-append (c ∷ pattern) after)) in
    omega arith

-- Any fuel from the length of the text on gives the same parts.
pub split_within_enough :
    (n m c : ℕ) (pattern s : Text)
    → length s ≤ n
    → length s ≤ m
    → split_within n s (c ∷ pattern) ≡ split_within m s (c ∷ pattern)
unfolding split_within
split_within_enough zero zero c pattern s h k = refl
split_within_enough zero (suc m) c pattern [] h k = unfold cut strip_prefix in refl
split_within_enough zero (suc m) c pattern (x ∷ s) h k = absurd (omega arith)
split_within_enough (suc n) zero c pattern [] h k = unfold cut strip_prefix in refl
split_within_enough (suc n) zero c pattern (x ∷ s) h k = absurd (omega arith)
split_within_enough (suc n) (suc m) c pattern s h k = elim (Option-cases (cut (c ∷ pattern) s)) [
  | inl whole ↦ ground arith
  | inr ((before, after), found) ↦
      ground
        (arith, shorter c pattern s before after found, split_within_enough n m c pattern after)
]

abbrev pub push_all : Text → Option (Text × Text) → Option (Text × Text)
push_all u none = none
push_all u (some (before, after)) = some (u ++ before, after)

-- A cut passes over a text that lacks the first unit of the pattern.
pub cut-append_free :
    (c : ℕ) (pattern u s : Text)
    → All (λ x. x ≢ c) u
    → cut (c ∷ pattern) (u ++ s) ≡ push_all u (cut (c ∷ pattern) s)
unfolding cut strip_prefix
cut-append_free c pattern [] s h = ground arith
cut-append_free c pattern (x ∷ u) s (ne, h) = ground (arith, cut-append_free c pattern u s h)

split_within-cut :
    (n : ℕ) (pattern s before after : Text)
    → cut pattern s ≡ some (before, after)
    → split_within (suc n) s pattern ≡ before ∷ split_within n after pattern
unfolding split_within
split_within-cut n pattern s before after found = rw (found, split_within) refl

split_within-whole :
    (n : ℕ) (pattern s : Text) → cut pattern s ≡ none → split_within (suc n) s pattern ≡ s ∷ []
unfolding split_within
split_within-whole n pattern s whole = rw (whole, split_within) refl

-- A text that is not cut is its only part.
pub split_one :
    (c : ℕ) (pattern s : Text) → cut (c ∷ pattern) s ≡ none → split s (c ∷ pattern) ≡ s ∷ []
unfolding split
split_one c pattern s whole =
    split_within_enough (length s) (suc (length s)) c pattern s (omega arith) (omega arith)
    ∙ split_within-whole (length s) (c ∷ pattern) s whole

-- A text with one cut has two parts.
pub split_two :
    (c : ℕ) (pattern s before after : Text)
    → cut (c ∷ pattern) s ≡ some (before, after)
    → cut (c ∷ pattern) after ≡ none
    → split s (c ∷ pattern) ≡ before ∷ after ∷ []
unfolding split
split_two c pattern s before after found last =
    split_within_enough (length s) (suc (suc (length s))) c pattern s (omega arith) (omega arith)
    ∙ split_within-cut (suc (length s)) (c ∷ pattern) s before after found
    ∙ ap (λ parts. before ∷ parts) (split_within-whole (length s) (c ∷ pattern) after last)

-- The first cut splits off the first part.
split-cut :
    (c : ℕ) (pattern s before after : Text)
    → cut (c ∷ pattern) s ≡ some (before, after)
    → split s (c ∷ pattern) ≡ before ∷ split after (c ∷ pattern)
unfolding split
split-cut c pattern s before after found =
    let less = shorter c pattern s before after found in
    split_within_enough (length s) (suc (length s)) c pattern s (omega arith) (omega arith)
    ∙ split_within-cut (length s) (c ∷ pattern) s before after found
    ∙ ap (λ parts. before ∷ parts)
        (split_within_enough (length s) (length after) c pattern after (omega arith) (omega arith))

cut-here : (c : ℕ) (s : Text) → cut (c ∷ []) (c ∷ s) ≡ some ([], s)
unfolding cut strip_prefix
cut-here c s = ground arith

-- The part before the first separator of one unit.
pub split-append :
    (c : ℕ) (u s : Text) → All (λ x. x ≢ c) u → split (u ++ (c ∷ s)) (c ∷ []) ≡ u ∷ split s (c ∷ [])
split-append c u s free = split-cut c [] (u ++ (c ∷ s)) u s (
    cut-append_free c [] u (c ∷ s) free
    ∙ ap (push_all u) (cut-here c s)
    ∙ ap (λ t. some (t, s)) (append-nil u))

cut-nil : (c : ℕ) → cut (c ∷ []) [] ≡ none
unfolding cut strip_prefix
cut-nil c = refl

-- A text without the separator is one part.
pub split-free : (c : ℕ) (u : Text) → All (λ x. x ≢ c) u → split u (c ∷ []) ≡ u ∷ []
split-free c u free = split_one c [] u (
    ap (cut (c ∷ [])) (sym (append-nil u))
    ∙ cut-append_free c [] u [] free
    ∙ ap (push_all u) (cut-nil c))
