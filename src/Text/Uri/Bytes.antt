-- ===== src/Text/Uri/Bytes.antt =====
-- The UTF-8 bytes of a code point, decoded: they give its code units, and leave the decoder fresh.
use temporal_cloud_offering.Prelude.{
  ℕ, suc, ◌+◌, ◌-◌, ◌*◌, ◌/◌, ◌%◌, ◌≡◌, refl, ◌≤◌, ◌<◌, ◌⊎◌, inl, inr, ◌∙◌, List, [], ◌∷◌, Option,
  none, some, arith, ltb, Bool-cases,
}
use temporal_cloud_offering.Text.{Text}
use temporal_cloud_offering.Text.Utf8.{bytes_of, prepend}
use temporal_cloud_offering.Text.Uri.{
  Piece, byte, Decoder, fresh, units_of, is_surrogate, decode_piece, decode_pieces, lead, follow,
  complete,
}

-- A code point that UTF-8 encodes.
abbrev pub IsScalar : ℕ → Type 0
IsScalar c = (c < 0xD800) ⊎ ((0xE000 ≤ c) × (c < 0x110000))

unfoldable pub pieces : List ℕ → List Piece → List Piece
pieces [] ps = ps
pieces (b ∷ bs) ps = byte b ∷ pieces bs ps

pub prepend_nil : (t : Option Text) → prepend [] t ≡ t
prepend_nil none = refl
prepend_nil (some t) = refl

abbrev decoder : ℕ → ℕ → ℕ → Decoder
decoder missing bits least = record { missing = missing; bits = bits; least = least }

pub decode_step :
    (d d' : Decoder) (p : Piece) (ps : List Piece) (out : Text)
    → decode_piece d.missing d p ≡ some (out, d')
    → decode_pieces d (p ∷ ps) ≡ prepend out (decode_pieces d' ps)
unfolding decode_pieces
decode_step d d' p ps out e = rw (e, decode_pieces) refl

decode_quiet :
    (d d' : Decoder) (p : Piece) (ps : List Piece)
    → decode_piece d.missing d p ≡ some ([], d')
    → decode_pieces d (p ∷ ps) ≡ decode_pieces d' ps
decode_quiet d d' p ps e = decode_step d d' p ps [] e ∙ prepend_nil (decode_pieces d' ps)

first_of_two :
    (k : ℕ) → k < 0x20 → decode_piece 0 fresh (byte (192 + k)) ≡ some ([], decoder 1 k 0x80)
unfolding decode_piece lead
first_of_two k h = ground arith

first_of_three :
    (k : ℕ) → k < 0x10 → decode_piece 0 fresh (byte (224 + k)) ≡ some ([], decoder 2 k 0x800)
unfolding decode_piece lead
first_of_three k h = ground arith

first_of_four :
    (k : ℕ) → k < 8 → decode_piece 0 fresh (byte (240 + k)) ≡ some ([], decoder 3 k 0x10000)
unfolding decode_piece lead
first_of_four k h = ground arith

-- A byte in the middle of a code point.
next_byte :
    (n bits least k : ℕ)
    → k < 64
    → decode_piece (suc (suc n)) (decoder (suc (suc n)) bits least) (byte (128 + k))
      ≡ some ([], decoder (suc n) (bits * 64 + k) least)
unfolding decode_piece follow
next_byte n bits least k h = ground arith

-- The last byte of a code point.
last_byte :
    (bits least k c : ℕ)
    → k < 64
    → bits * 64 + k ≡ c
    → least ≤ c
    → IsScalar c
    → decode_piece 1 (decoder 1 bits least) (byte (128 + k)) ≡ some (units_of c, fresh)
unfolding decode_piece follow complete is_surrogate
last_byte bits least k c h e le s =
    let back : bits * 64 + (128 + k - 0x80) ≡ c = omega arith in ground arith

-- The bytes of a code point, decoded.
pub decode-bytes_of :
    (c : ℕ) (ps : List Piece)
    → IsScalar c
    → decode_pieces fresh (pieces (bytes_of c) ps) ≡ prepend (units_of c) (decode_pieces fresh ps)
unfolding pieces bytes_of
decode-bytes_of c ps s = elim (Bool-cases (ltb c 0x80)) [
  | inl one ↦ rw one (
      decode_step fresh fresh (byte c) ps (units_of c)
        (unfold decode_piece lead units_of in ground arith))
  | inr more ↦ elim (Bool-cases (ltb c 0x800)) [
    | inl two ↦
        rw (more, two)
          (decode_quiet fresh (decoder 1 (c / 64) 0x80) _ _ (first_of_two (c / 64) (ground arith))
            ∙ decode_step (decoder 1 (c / 64) 0x80) fresh _ ps (units_of c)
                (last_byte (c / 64) 0x80 (c % 64) c (omega arith) (omega arith) (ground arith) s))
    | inr more' ↦ elim (Bool-cases (ltb c 0x10000)) [
      | inl three ↦
          rw (more, more', three)
            (decode_quiet fresh (decoder 2 (c / 4096) 0x800) _ _
                (first_of_three (c / 4096) (ground arith))
              ∙ decode_quiet (decoder 2 (c / 4096) 0x800)
                  (decoder 1 (c / 4096 * 64 + c / 64 % 64) 0x800) _ _
                  (next_byte 0 (c / 4096) 0x800 (c / 64 % 64) (omega arith))
              ∙ decode_step (decoder 1 (c / 4096 * 64 + c / 64 % 64) 0x800) fresh _ ps (units_of c)
                  (last_byte (c / 4096 * 64 + c / 64 % 64) 0x800 (c % 64) c (omega arith)
                    (omega arith) (ground arith) s))
      | inr four ↦
          rw (more, more', four)
            (decode_quiet fresh (decoder 3 (c / 262144) 0x10000) _ _
                (first_of_four (c / 262144) (ground arith))
              ∙ decode_quiet (decoder 3 (c / 262144) 0x10000)
                  (decoder 2 (c / 262144 * 64 + c / 4096 % 64) 0x10000) _ _
                  (next_byte 1 (c / 262144) 0x10000 (c / 4096 % 64) (omega arith))
              ∙ decode_quiet (decoder 2 (c / 262144 * 64 + c / 4096 % 64) 0x10000)
                  (decoder 1 ((c / 262144 * 64 + c / 4096 % 64) * 64 + c / 64 % 64) 0x10000) _ _
                  (next_byte 0 (c / 262144 * 64 + c / 4096 % 64) 0x10000 (c / 64 % 64)
                    (omega arith))
              ∙ decode_step
                  (decoder 1 ((c / 262144 * 64 + c / 4096 % 64) * 64 + c / 64 % 64) 0x10000) fresh _
                  ps (units_of c)
                  (last_byte ((c / 262144 * 64 + c / 4096 % 64) * 64 + c / 64 % 64) 0x10000 (c % 64)
                    c (omega arith) (omega arith) (ground arith) s))
    ]
  ]
]
