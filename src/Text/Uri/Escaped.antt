-- ===== src/Text/Uri/Escaped.antt =====
-- The output of `encodeURIComponent` fits in a cookie: it holds no `;`.
use temporal_cloud_offering.Prelude.{
  ℕ, ◌<◌, ◌/◌, ◌%◌, true, ◌&&◌, ◌||◌, if◌then◌else◌, subst, ◌≡◌, ◌≢◌, List, [], ◌∷◌, Option, none,
  some, arith, All, All-append, Bool-cases, inl, inr,
}
use temporal_cloud_offering.Text.{Text}
use temporal_cloud_offering.Text.Utf8.{
  code_points, encode_uri_component, escape_points, percent, upper_digit, bytes_of, is_unreserved,
  prepend, is_high, is_low, pair_value,
}
use temporal_cloud_offering.Text.Uri.Laws.{IsUnits}

abbrev pub NoSemicolon : Text → Type 0
NoSemicolon s = All (λ c. c ≢ b';') s

upper_digit_lem : (d : ℕ) → d < 16 → upper_digit d ≢ b';'
unfolding upper_digit
upper_digit_lem d h = ground arith

percent_lem : (bytes : List ℕ) → All (λ b. b < 256) bytes → NoSemicolon (percent bytes)
unfolding percent
percent_lem [] h = tt
percent_lem (b ∷ bytes) (h, hs) = (
  omega arith,
  (
    upper_digit_lem (b / 16) (omega arith),
    (upper_digit_lem (b % 16) (omega arith), percent_lem bytes hs),
  ),
)

is_unreserved_lem : (c : ℕ) → is_unreserved c ≡ true → c ≢ b';'
unfolding is_unreserved
is_unreserved_lem c h = ground arith

bytes_of_lem : (c : ℕ) → c < 0x110000 → All (λ b. b < 256) (bytes_of c)
unfolding bytes_of
bytes_of_lem c h = ground arith

abbrev IsPoint : Option ℕ → Type 0
IsPoint none = Unit
IsPoint (some c) = c < 0x110000

escaped-point :
    (c : ℕ) → c < 0x110000 → NoSemicolon (if is_unreserved c then c ∷ [] else percent (bytes_of c))
escaped-point c h = elim (Bool-cases (is_unreserved c)) [
  | inl plain ↦ rw plain (is_unreserved_lem c plain, tt)
  | inr other ↦ rw other (percent_lem (bytes_of c) (bytes_of_lem c h))
]

abbrev AllOf : Option Text → Type 0
AllOf none = Unit
AllOf (some t) = NoSemicolon t

prepend_lem : (s : Text) (t : Option Text) → NoSemicolon s → AllOf t → AllOf (prepend s t)
prepend_lem s none h k = tt
prepend_lem s (some t) h k = All-append (λ c. c ≢ b';') s t h k

escape_points_lem : (cs : List (Option ℕ)) → All IsPoint cs → AllOf (escape_points cs)
unfolding escape_points
escape_points_lem [] h = tt
escape_points_lem (none ∷ cs) h = tt
escape_points_lem (some c ∷ cs) (h, hs) =
    prepend_lem (if is_unreserved c then c ∷ [] else percent (bytes_of c)) (escape_points cs)
      (escaped-point c h) (escape_points_lem cs hs)

-- A pair of code units is a code point.
pair_value_lem : (c d : ℕ) → (is_high c && is_low d) ≡ true → pair_value c d < 0x110000
unfolding is_high is_low pair_value
pair_value_lem c d h = ground arith

code_points_lem : (s : Text) → IsUnits s → All IsPoint (code_points s)
unfolding code_points
code_points_lem [] h = tt
code_points_lem (c ∷ []) (h, _) = elim (Bool-cases (is_high c || is_low c)) [
  | inl lone ↦ rw lone (tt, tt)
  | inr plain ↦ rw plain (omega arith, tt)
]
code_points_lem (c ∷ d ∷ s) (h, hs) = elim (Bool-cases (is_high c && is_low d)) [
  | inl pair ↦ rw pair (pair_value_lem c d pair, code_points_lem s hs.1)
  | inr single ↦ elim (Bool-cases (is_high c || is_low c)) [
    | inl lone ↦ rw (single, lone) (tt, code_points_lem (d ∷ s) hs)
    | inr plain ↦ rw (single, plain) (omega arith, code_points_lem (d ∷ s) hs)
  ]
]

-- No `;` is in the output.
pub encode_uri_component-NoSemicolon :
    (s t : Text) → IsUnits s → encode_uri_component s ≡ some t → NoSemicolon t
unfolding encode_uri_component
encode_uri_component-NoSemicolon s t h e =
    subst AllOf e (escape_points_lem (code_points s) (code_points_lem s h))
