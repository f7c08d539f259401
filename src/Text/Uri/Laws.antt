-- ===== src/Text/Uri/Laws.antt =====
-- `decodeURIComponent` takes back what `encodeURIComponent` did.
use temporal_cloud_offering.Prelude.{
  ℕ, ◌+◌, ◌*◌, ◌/◌, ◌%◌, ◌≡◌, refl, ◌<◌, inl, inr, ◌∙◌, ap, true, false, ◌&&◌, ◌||◌, List, [], ◌∷◌,
  ◌++◌, Option, none, some, arith, eqb, All, Bool-cases, if◌then◌else◌,
}
use temporal_cloud_offering.Text.{Text}
use temporal_cloud_offering.Text.Hex.Laws.{IsByte}
use temporal_cloud_offering.Text.Utf8.{
  upper_digit, percent, bytes_of, code_points, escape_points, is_unreserved, encode_uri_component,
  prepend, is_high, is_low, pair_value,
}
use temporal_cloud_offering.Text.Uri.{
  Piece, raw, byte, hex_value, with_piece, unescape, fresh, units_of, decode_piece, decode_pieces,
  decode_all, decode_uri_component,
}
use temporal_cloud_offering.Text.Uri.Bytes.{IsScalar, pieces, decode_step, decode-bytes_of}

hex_value-upper_digit : (d : ℕ) → d < 16 → hex_value (upper_digit d) ≡ some d
unfolding hex_value upper_digit
hex_value-upper_digit d h = ground arith

abbrev with_bytes : List ℕ → Option (List Piece) → Option (List Piece)
with_bytes [] ps = ps
with_bytes (b ∷ bs) ps = with_piece (byte b) (with_bytes bs ps)

split_byte : (b : ℕ) → b / 16 * 16 + b % 16 ≡ b
split_byte b = omega arith

unescape-percent :
    (bs : List ℕ) (t : Text)
    → All IsByte bs
    → unescape (percent bs ++ t) ≡ with_bytes bs (unescape t)
unfolding unescape percent
unescape-percent [] t h = refl
unescape-percent (b ∷ bs) t (hb, h) =
    rw
      (
        hex_value-upper_digit (b / 16) (omega arith),
        hex_value-upper_digit (b % 16) (omega arith),
        split_byte b,
        unescape-percent bs t h,
      )
      refl

unescape-raw :
    (c : ℕ) (t : Text) → eqb c b'%' ≡ false → unescape (c ∷ t) ≡ with_piece (raw c) (unescape t)
unfolding unescape
unescape-raw c [] h = ground arith
unescape-raw c (d ∷ []) h = ground arith
unescape-raw c (d ∷ e ∷ s) h = rw h refl

with_bytes-some : (bs : List ℕ) (ps : List Piece) → with_bytes bs (some ps) ≡ some (pieces bs ps)
unfolding pieces
with_bytes-some [] ps = refl
with_bytes-some (b ∷ bs) ps = rw (with_bytes-some bs ps) refl

with_bytes-none : (bs : List ℕ) → with_bytes bs none ≡ none
with_bytes-none [] = refl
with_bytes-none (b ∷ bs) = rw (with_bytes-none bs) refl

bytes_of-IsByte : (c : ℕ) → IsScalar c → All IsByte (bytes_of c)
unfolding bytes_of
bytes_of-IsByte c s = ground arith

-- What `encodeURIComponent` writes for a code point.
abbrev escaped : ℕ → Text
escaped c = if is_unreserved c then c ∷ [] else percent (bytes_of c)

decode-bytes :
    (c : ℕ) (o : Option (List Piece))
    → IsScalar c
    → decode_all (with_bytes (bytes_of c) o) ≡ prepend (units_of c) (decode_all o)
unfolding decode_all
decode-bytes c none s = rw (with_bytes-none (bytes_of c)) refl
decode-bytes c (some ps) s = rw (with_bytes-some (bytes_of c) ps) (decode-bytes_of c ps s)

decode-raw :
    (c : ℕ) (o : Option (List Piece))
    → decode_all (with_piece (raw c) o) ≡ prepend (c ∷ []) (decode_all o)
unfolding decode_all
decode-raw c none = refl
decode-raw c (some ps) = decode_step fresh fresh (raw c) ps (c ∷ []) (unfold decode_piece in refl)

is_unreserved-plain :
    (c : ℕ) → is_unreserved c ≡ true → (eqb c b'%' ≡ false) × (units_of c ≡ c ∷ [])
unfolding is_unreserved units_of
is_unreserved-plain c h = ground arith

decode-escaped :
    (c : ℕ) (t : Text)
    → IsScalar c
    → decode_all (unescape (escaped c ++ t)) ≡ prepend (units_of c) (decode_all (unescape t))
decode-escaped c t s = elim (Bool-cases (is_unreserved c)) [
  | inl plain ↦
      let (other, units) = is_unreserved-plain c plain in
      rw (plain, unescape-raw c t other, units) (decode-raw c (unescape t))
  | inr special ↦
      rw (special, unescape-percent (bytes_of c) t (bytes_of-IsByte c s))
        (decode-bytes c (unescape t) s)
]

-- A string of UTF-16 code units.
abbrev pub IsUnits : Text → Type 0
IsUnits s = All (λ u. u < 0x10000) s

pair-units :
    (c d : ℕ)
    → is_high c ≡ true
    → is_low d ≡ true
    → IsScalar (pair_value c d) × (units_of (pair_value c d) ≡ c ∷ d ∷ [])
unfolding is_high is_low pair_value units_of
pair-units c d h l = ground arith

single-units :
    (c : ℕ)
    → c < 0x10000
    → is_high c ≡ false
    → is_low c ≡ false
    → IsScalar c × (units_of c ≡ c ∷ [])
unfolding is_high is_low units_of
single-units c lt h l = ground arith

prepend-eq-some :
    (u : Text) (o : Option Text) (t : Text)
    → prepend u o ≡ some t
    → (t' : Text) × (o ≡ some t') × (t ≡ u ++ t')
prepend-eq-some u none t e = absurd (ground arith)
prepend-eq-some u (some t') t e = (t', refl, ground arith)

decode-point :
    (c : ℕ) (cs : List (Option ℕ)) (s t : Text)
    → IsScalar c
    → escape_points (some c ∷ cs) ≡ some t
    → ((t' : Text) → escape_points cs ≡ some t' → decode_all (unescape t') ≡ some s)
    → decode_all (unescape t) ≡ some (units_of c ++ s)
unfolding escape_points
decode-point c cs s t scalar e later =
    let (t', tail, whole) = prepend-eq-some (escaped c) (escape_points cs) t e in
    rw whole (decode-escaped c t' scalar ∙ ap (prepend (units_of c)) (later t' tail))

-- A unit that stands alone: a surrogate is not encoded, any other is its own code point.
decode-single :
    (c : ℕ) (cs : List (Option ℕ)) (s t : Text)
    → c < 0x10000
    → escape_points ((if is_high c || is_low c then none else some c) ∷ cs) ≡ some t
    → ((t' : Text) → escape_points cs ≡ some t' → decode_all (unescape t') ≡ some s)
    → decode_all (unescape t) ≡ some (c ∷ s)
decode-single c cs s t lt e later = elim (Bool-cases (is_high c)) [
  | inl high ↦ absurd (unfold escape_points in ground arith)
  | inr not_high ↦ elim (Bool-cases (is_low c)) [
    | inl low ↦ absurd (unfold escape_points in ground arith)
    | inr not_low ↦
        let (scalar, units) = single-units c lt not_high not_low in
        rw units at (decode-point c cs s t scalar (rw (not_high, not_low) at e) later)
  ]
]

decode-points :
    (s t : Text)
    → IsUnits s
    → escape_points (code_points s) ≡ some t
    → decode_all (unescape t) ≡ some s
unfolding code_points
decode-points [] t h e = unfold escape_points unescape decode_pieces in ground arith
decode-points (c ∷ []) t (lt, h) e =
    decode-single c [] [] t lt e (λ t' e'. decode-points [] t' tt e')
decode-points (c ∷ d ∷ s) t (lt, (lt', h)) e = elim (Bool-cases (is_high c && is_low d)) [
  | inl paired ↦
      let (scalar, units) = pair-units c d (ground arith) (ground arith) in
      rw units at (
        decode-point (pair_value c d) (code_points s) s t scalar (rw paired at e)
          (λ t' e'. decode-points s t' h e'))
  | inr single ↦
      decode-single c (code_points (d ∷ s)) (d ∷ s) t lt (rw single at e)
        (λ t' e'. decode-points (d ∷ s) t' (lt', h) e')
]

-- What `encodeURIComponent` returns is decoded to the string that it was given.
pub decode-encode_uri_component :
    (s t : Text) → IsUnits s → encode_uri_component s ≡ some t → decode_uri_component t ≡ some s
unfolding encode_uri_component decode_uri_component
decode-encode_uri_component s t h e = decode-points s t h e
