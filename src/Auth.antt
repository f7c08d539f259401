-- ===== src/Auth.antt =====
-- The authentication endpoints of the site, marketing-site/src/routes/api/auth: what their
-- handlers share, which the source repeats in each file.
pub mod Keys
pub mod Mail
pub mod Signup
pub mod Verify
pub mod MagicLink
pub mod Password
pub mod Login
pub mod Google
pub mod Deployed
use temporal_cloud_offering.Prelude.{ℕ, Bool, true, List, [], ◌∷◌, ◌++◌, Option, none, some}
use temporal_cloud_offering.Text.{Text, codes}
use temporal_cloud_offering.Text.Hex.{to_hex}
use temporal_cloud_offering.Text.Utf8.{utf8, encode_uri_component}
use temporal_cloud_offering.Json.{
  Json, bool, str, Value, Try, fine, type_error, literal, text_of, split_first, truthy, map_try,
  to_text,
}
use temporal_cloud_offering.Platform.{Platform}
use temporal_cloud_offering.Platform.Exec.{Exec, random_bytes, pure, ◌>>=◌}

-- `platform?.env || {}`; an absent string is empty, since the handlers only test for truth.
pub record Env : Type 0 where
  pub kv : Bool
  pub resend_api_key : Text
  pub google_client_id : Text
  pub google_client_secret : Text
  pub google_redirect_uri : Text

-- `json(body, { status })`
pub record Response : Type 0 where
  pub status : ℕ
  pub body : Json

abbrev pub error_response : ℕ → Text → Response
error_response status message = record {
  status = status;
  body = literal ((codes "error", some (str message)) ∷ []);
}

unfoldable pub verification_key : Text → Text
verification_key token = codes "verification:" ++ token

unfoldable pub pending_key : Text → Text
pending_key email = codes "pending_user:" ++ email

unfoldable pub user_key : Text → Text
user_key email = codes "user:" ++ email

unfoldable pub magic_link_key : Text → Text
magic_link_key token = codes "magic_link:" ++ token

module _ (p : Platform) where
  -- `generateToken()`
  unfoldable pub generate_token : Exec p.Store Text
  unfolding random_bytes
  generate_token = do bytes ← random_bytes p; pure (to_hex bytes)

  -- `hashPassword(password)`; a password that is no string is encoded as its string.
  unfoldable pub hash_password : Value → Text
  hash_password password = to_hex (p.sha256 (utf8 (text_of password)))

-- `${baseUrl}/auth/verify?token=${token}&email=${encodeURIComponent(email)}`
unfoldable pub verify_link : Text → Text → Value → Try Text
verify_link origin token email = elim (encode_uri_component (text_of email)) [
  | none ↦ type_error
  | some escaped ↦
      fine (origin ++ codes "/auth/verify?token=" ++ token ++ codes "&email=" ++ escaped)
]

abbrev pub at : Text
at = codes "@"

-- `name || email.split("@")[0]`
abbrev pub display_name : Value → Value → Try Json
display_name none email = map_try str (split_first email at)
display_name (some name) email = elim (truthy (some name)) [
  | true ↦ fine name
  | _ ↦ map_try str (split_first email at)
]
