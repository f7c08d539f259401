-- ===== src/Text/Uri.antt =====
-- `decodeURIComponent(s)`: percent escapes to bytes, and the bytes, as strict UTF-8, to UTF-16.
pub mod Bytes
pub mod Laws
pub mod Escaped
use temporal_cloud_offering.Prelude.{
  ℕ, zero, suc, ◌+◌, ◌-◌, ◌*◌, ◌/◌, ◌%◌, Bool, true, false, ◌&&◌, ◌||◌, not, List, [], ◌∷◌, ◌++◌,
  Option, none, some, ltb, leb, eqb, if◌then◌else◌,
}
use temporal_cloud_offering.Text.{Text}
use temporal_cloud_offering.Text.Utf8.{prepend}

-- A code unit as it stands, or a byte that was escaped.
pub data Piece : Type 0 where
  raw : ℕ → Piece
  byte : ℕ → Piece

unfoldable pub hex_value : ℕ → Option ℕ
hex_value c =
    if leb b'0' c && leb c b'9'
    then some (c - b'0')
    else if leb b'A' c && leb c b'F'
    then some (c - b'A' + 10)
    else if leb b'a' c && leb c b'f'
    then some (c - b'a' + 10)
    else none

abbrev pub with_piece : Piece → Option (List Piece) → Option (List Piece)
with_piece p none = none
with_piece p (some ps) = some (p ∷ ps)

abbrev pub with_byte : Option ℕ → Option ℕ → Option (List Piece) → Option (List Piece)
with_byte (some h) (some l) ps = with_piece (byte (h * 16 + l)) ps
with_byte _ _ ps = none

-- `none` is the URIError of a `%` without two digits.
unfoldable pub unescape : Text → Option (List Piece)
unfolding hex_value
unescape [] = some []
unescape (c ∷ []) = if eqb c b'%' then none else some (raw c ∷ [])
unescape (c ∷ d ∷ []) = if eqb c b'%' || eqb d b'%' then none else some (raw c ∷ raw d ∷ [])
unescape (c ∷ d ∷ e ∷ s) =
    let plain = with_piece (raw c) (unescape (d ∷ e ∷ s)) in
    let escaped = with_byte (hex_value d) (hex_value e) (unescape s) in
    if eqb c b'%' then escaped else plain

-- The bytes of a code point that are still to come, its bits so far, and the least code point
-- that takes as many bytes.
pub record Decoder : Type 0 where
  pub missing : ℕ
  pub bits : ℕ
  pub least : ℕ

abbrev pub fresh : Decoder
fresh = record { missing = 0; bits = 0; least = 0 }

unfoldable pub is_surrogate : ℕ → Bool
is_surrogate c = leb 0xD800 c && ltb c 0xE000

-- The code units of a code point.
unfoldable pub units_of : ℕ → Text
units_of c =
    if ltb c 0x10000
    then c ∷ []
    else (0xD800 + (c - 0x10000) / 0x400) ∷ (0xDC00 + (c - 0x10000) % 0x400) ∷ []

-- The first byte of a code point.
lead : ℕ → Option (Text × Decoder)
lead b =
    if ltb b 0x80
    then some (b ∷ [], fresh)
    else if ltb b 0xC0
    then none
    else if ltb b 0xE0
    then some ([], record { missing = 1; bits = b - 0xC0; least = 0x80 })
    else if ltb b 0xF0
    then some ([], record { missing = 2; bits = b - 0xE0; least = 0x800 })
    else if ltb b 0xF8
    then some ([], record { missing = 3; bits = b - 0xF0; least = 0x10000 })
    else none

-- A code point that is complete.
complete : ℕ → ℕ → Option (Text × Decoder)
unfolding is_surrogate units_of
complete least c =
    if leb least c && leb c 0x10FFFF && not (is_surrogate c) then some (units_of c, fresh) else none

-- The next byte of a code point.
follow : ℕ → Decoder → ℕ → Option (Text × Decoder)
unfolding complete
follow missing d b =
    if leb 0x80 b && ltb b 0xC0
    then (if eqb missing 0
        then complete d.least (d.bits * 64 + (b - 0x80))
        else some ([], record d { missing = missing; bits = d.bits * 64 + (b - 0x80) }))
    else none

-- What a piece adds, and the state behind it.
unfoldable pub decode_piece : ℕ → Decoder → Piece → Option (Text × Decoder)
unfolding lead follow
decode_piece zero d (raw c) = some (c ∷ [], fresh)
decode_piece (suc n) d (raw c) = none
decode_piece zero d (byte b) = lead b
decode_piece (suc n) d (byte b) = follow n d b

unfoldable pub decode_pieces : Decoder → List Piece → Option Text
unfolding decode_piece
decode_pieces d [] = if eqb d.missing 0 then some [] else none
decode_pieces d (p ∷ ps) = elim (decode_piece d.missing d p) [
  | none ↦ none
  | some (out, d') ↦ prepend out (decode_pieces d' ps)
]

abbrev decode_all : Option (List Piece) → Option Text
unfolding decode_pieces
decode_all none = none
decode_all (some ps) = decode_pieces fresh ps

-- `decodeURIComponent(s)`; `none` is the URIError.
unfoldable pub decode_uri_component : Text → Option Text
unfolding unescape decode_all
decode_uri_component s = decode_all (unescape s)
