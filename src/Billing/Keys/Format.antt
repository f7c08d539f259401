-- ===== src/Billing/Keys/Format.antt =====
-- What a key looks like to the middleware: its prefix is found again.
use temporal_cloud_offering.Prelude.{
  ℕ, zero, suc, ◌≡◌, refl, ◌≢◌, ap, ◌∙◌, List, [], ◌∷◌, ◌++◌, some, arith, All,
}
use temporal_cloud_offering.Text.{Text, codes, ◌==◌, strip_prefix}
use temporal_cloud_offering.Text.Hex.{to_hex}
use temporal_cloud_offering.Text.Hex.Laws.{IsByte, IsHexDigit, to_hex-IsHexDigit}
use temporal_cloud_offering.Text.Laws.{strip_prefix-append}
use temporal_cloud_offering.Text.Split.{split}
use temporal_cloud_offering.Text.Split.Laws.{split-append, split-free}
use temporal_cloud_offering.Billing.Keys.{take, drop, prefix_part, key_prefix_of, bearer, or_raw}
use temporal_cloud_offering.Billing.Keys.Api.{full_key}

All-take : (P : ℕ → Type 0) (n : ℕ) (bytes : List ℕ) → All P bytes → All P (take n bytes)
All-take P zero bytes h = tt
All-take P (suc n) [] h = tt
All-take P (suc n) (b ∷ bytes) (k, h) = (k, All-take P n bytes h)

All-drop : (P : ℕ → Type 0) (n : ℕ) (bytes : List ℕ) → All P bytes → All P (drop n bytes)
All-drop P zero bytes h = h
All-drop P (suc n) [] h = tt
All-drop P (suc n) (b ∷ bytes) (k, h) = All-drop P n bytes h

digits_free : (s : Text) → All IsHexDigit s → All (λ c. c ≢ b'_') s
digits_free [] h = tt
digits_free (c ∷ s) (k, h) = (ground arith, digits_free s h)

hex_free : (bytes : List ℕ) → All IsByte bytes → All (λ c. c ≢ b'_') (to_hex bytes)
hex_free bytes h = digits_free (to_hex bytes) (to_hex-IsHexDigit bytes h)

pub split-full_key :
    (bytes : List ℕ)
    → All IsByte bytes
    → split (full_key bytes) (codes "_")
      ≡ codes "tc" ∷ codes "live" ∷ to_hex (take 4 bytes) ∷ to_hex (drop 4 bytes) ∷ []
unfolding full_key
split-full_key bytes h =
    let secret = to_hex (drop 4 bytes) in
    let prefix = to_hex (take 4 bytes) in
    split-append b'_' (codes "tc") (codes "live_" ++ (prefix ++ (codes "_" ++ secret)))
      (omega arith, (omega arith, tt))
    ∙ ap (λ parts. codes "tc" ∷ parts)
        (split-append b'_' (codes "live") (prefix ++ (codes "_" ++ secret))
            (omega arith, (omega arith, (omega arith, (omega arith, tt))))
          ∙ ap (λ parts. codes "live" ∷ parts)
              (split-append b'_' prefix secret (hex_free (take 4 bytes) (All-take IsByte 4 bytes h))
                ∙ ap (λ parts. prefix ∷ parts)
                    (split-free b'_' secret (hex_free (drop 4 bytes) (All-drop IsByte 4 bytes h)))))

pub key_prefix_of-full_key :
    (bytes : List ℕ)
    → All IsByte bytes
    → key_prefix_of (full_key bytes) ≡ some (to_hex (take 4 bytes))
unfolding key_prefix_of ◌==◌
key_prefix_of-full_key bytes h = ap prefix_part (split-full_key bytes h)

-- The key is read from behind `Bearer `, and from a header that is just the key.
pub bearer-prefixed : (key : Text) → bearer (codes "Bearer " ++ key) ≡ key
unfolding bearer
bearer-prefixed key =
    ap (or_raw (codes "Bearer " ++ key)) (strip_prefix-append (codes "Bearer ") key)

pub bearer-full_key : (bytes : List ℕ) → bearer (full_key bytes) ≡ full_key bytes
unfolding bearer full_key strip_prefix
bearer-full_key bytes = refl
