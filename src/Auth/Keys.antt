-- ===== src/Auth/Keys.antt =====
-- The four families of KV keys do not meet, and each is injective.
use temporal_cloud_offering.Prelude.{ℕ, zero, suc, ◌≡◌, ◌≢◌, [], ◌∷◌, ap, arith}
use temporal_cloud_offering.Text.{Text}
use temporal_cloud_offering.Auth.{verification_key, pending_key, user_key, magic_link_key}

abbrev first_unit : Text → ℕ
first_unit [] = 0
first_unit (c ∷ s) = c

abbrev drop : ℕ → Text → Text
drop zero s = s
drop (suc n) [] = []
drop (suc n) (c ∷ s) = drop n s

-- Keys of different families differ, whatever the token or the email.
pub keys_disjoint :
    (s t : Text)
    → (verification_key s ≢ pending_key t)
      × (verification_key s ≢ user_key t)
      × (verification_key s ≢ magic_link_key t)
      × (pending_key s ≢ user_key t)
      × (pending_key s ≢ magic_link_key t)
      × (user_key s ≢ magic_link_key t)
unfolding verification_key pending_key user_key magic_link_key
keys_disjoint s t = (
  λ e. omega (arith, ap first_unit e),
  λ e. omega (arith, ap first_unit e),
  λ e. omega (arith, ap first_unit e),
  λ e. omega (arith, ap first_unit e),
  λ e. omega (arith, ap first_unit e),
  λ e. omega (arith, ap first_unit e),
)

-- Different tokens, and different emails, have different keys.
pub keys_injective :
    (s t : Text)
    → (verification_key s ≡ verification_key t → s ≡ t)
      × (pending_key s ≡ pending_key t → s ≡ t)
      × (user_key s ≡ user_key t → s ≡ t)
      × (magic_link_key s ≡ magic_link_key t → s ≡ t)
unfolding verification_key pending_key user_key magic_link_key
keys_injective s t =
    (λ e. ap (drop 13) e, λ e. ap (drop 13) e, λ e. ap (drop 5) e, λ e. ap (drop 11) e)
