-- ===== src/Text/Utf8.antt =====
-- `new TextEncoder().encode(s)` and `encodeURIComponent(s)`, from UTF-16 code units.
use temporal_cloud_offering.Prelude.{
  ℕ, ◌+◌, ◌-◌, ◌*◌, ◌/◌, ◌%◌, Bool, ◌&&◌, ◌||◌, List, [], ◌∷◌, ◌++◌, Option, none, some, ltb, leb,
  eqb, if◌then◌else◌,
}
use temporal_cloud_offering.Text.{Text}

unfoldable pub is_high : ℕ → Bool
is_high c = leb 0xD800 c && ltb c 0xDC00

unfoldable pub is_low : ℕ → Bool
is_low c = leb 0xDC00 c && ltb c 0xE000

-- The code point of a surrogate pair.
unfoldable pub pair_value : ℕ → ℕ → ℕ
pair_value h l = 0x10000 + (h - 0xD800) * 0x400 + (l - 0xDC00)

-- The bytes of a code point.
unfoldable pub bytes_of : ℕ → List ℕ
bytes_of c =
    if ltb c 0x80
    then c ∷ []
    else if ltb c 0x800
    then (0xC0 + c / 64) ∷ (0x80 + c % 64) ∷ []
    else if ltb c 0x10000
    then (0xE0 + c / 4096) ∷ (0x80 + (c / 64) % 64) ∷ (0x80 + c % 64) ∷ []
    else (0xF0 + c / 262144)
      ∷ (0x80 + (c / 4096) % 64)
      ∷ (0x80 + (c / 64) % 64)
      ∷ (0x80 + c % 64)
      ∷ []

-- The code points of a string; a surrogate without its partner is `none`.
unfoldable pub code_points : Text → List (Option ℕ)
unfolding is_high is_low pair_value
code_points [] = []
code_points (c ∷ []) = (if is_high c || is_low c then none else some c) ∷ []
code_points (c ∷ d ∷ s) =
    let paired = some (pair_value c d) ∷ code_points s in
    let single = (if is_high c || is_low c then none else some c) ∷ code_points (d ∷ s) in
    if is_high c && is_low d then paired else single

encode_points : List (Option ℕ) → List ℕ
unfolding bytes_of
encode_points [] = []
encode_points (none ∷ cs) = 0xEF ∷ 0xBF ∷ 0xBD ∷ encode_points cs
encode_points (some c ∷ cs) = bytes_of c ++ encode_points cs

-- `new TextEncoder().encode(s)`: a lone surrogate is encoded as U+FFFD.
unfoldable pub utf8 : Text → List ℕ
unfolding code_points encode_points
utf8 s = encode_points (code_points s)

-- A letter, a digit, or one of - _ . ! ~ * ' ( ).
unfoldable pub is_unreserved : ℕ → Bool
is_unreserved c =
    leb b'a' c && leb c b'z'
    || leb b'A' c && leb c b'Z'
    || leb b'0' c && leb c b'9'
    || eqb c b'-'
    || eqb c b'_'
    || eqb c b'.'
    || eqb c b'!'
    || eqb c b'~'
    || eqb c b'*'
    || eqb c 39
    || eqb c b'('
    || eqb c b')'

-- Percent-encoding writes its digits in upper case.
unfoldable pub upper_digit : ℕ → ℕ
upper_digit d = if ltb d 10 then b'0' + d else b'A' + (d - 10)

unfoldable pub percent : List ℕ → Text
unfolding upper_digit
percent [] = []
percent (b ∷ bytes) = b'%' ∷ upper_digit (b / 16) ∷ upper_digit (b % 16) ∷ percent bytes

abbrev pub prepend : Text → Option Text → Option Text
prepend s none = none
prepend s (some t) = some (s ++ t)

unfoldable pub escape_points : List (Option ℕ) → Option Text
unfolding percent bytes_of is_unreserved
escape_points [] = some []
escape_points (none ∷ cs) = none
escape_points (some c ∷ cs) =
    prepend (if is_unreserved c then c ∷ [] else percent (bytes_of c)) (escape_points cs)

-- `encodeURIComponent(s)`: `none` is the URIError that a lone surrogate throws.
unfoldable pub encode_uri_component : Text → Option Text
unfolding code_points escape_points
encode_uri_component s = escape_points (code_points s)

-- The bytes that `URLSearchParams` leaves as they are: a letter, a digit, or one of * - . _.
is_form_plain : ℕ → Bool
is_form_plain c =
    leb b'a' c && leb c b'z'
    || leb b'A' c && leb c b'Z'
    || leb b'0' c && leb c b'9'
    || eqb c b'*'
    || eqb c b'-'
    || eqb c b'.'
    || eqb c b'_'

form_bytes : List ℕ → Text
unfolding is_form_plain percent
form_bytes [] = []
form_bytes (b ∷ bytes) =
    (if eqb b 32 then b'+' ∷ [] else if is_form_plain b then b ∷ [] else percent (b ∷ []))
    ++ form_bytes bytes

-- `new URLSearchParams(pairs).toString()`
unfoldable pub form_encode : List (Text × Text) → Text
unfolding form_bytes utf8
form_encode [] = []
form_encode ((k, v) ∷ []) = form_bytes (utf8 k) ++ b'=' ∷ form_bytes (utf8 v)
form_encode ((k, v) ∷ q ∷ pairs) =
    form_bytes (utf8 k) ++ b'=' ∷ form_bytes (utf8 v) ++ b'&' ∷ form_encode (q ∷ pairs)
