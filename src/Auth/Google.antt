-- ===== src/Auth/Google.antt =====
-- GET /api/auth/google and GET /api/auth/google/callback, in
-- marketing-site/src/routes/api/auth/google/+server.ts and callback/+server.ts. Both end in a
-- redirect, which SvelteKit throws. An absent query parameter is the empty text: both are falsy.
pub mod Laws
use temporal_cloud_offering.Prelude.{not, [], ◌∷◌, ◌++◌, some, if◌then◌else◌}
use temporal_cloud_offering.Text.{Text, codes, non_empty, or_else, ◌==◌}
use temporal_cloud_offering.Text.Utf8.{form_encode}
use temporal_cloud_offering.Json.{Json, str, Value, member, text_of, literal}
use temporal_cloud_offering.Platform.{Platform, Request}
use temporal_cloud_offering.Platform.Exec.{
  Exec, redirect, throw, attempt, ◌>>=◌, ◌>>◌, fetch, read_text, read_json, set_cookie,
}
use temporal_cloud_offering.Auth.{Env, Response}
use temporal_cloud_offering.Auth.Login.{auth_cookie}

-- `env.GOOGLE_REDIRECT_URI || `${baseUrl}/api/auth/google/callback``
unfoldable pub redirect_uri : Env → Text → Text
redirect_uri env origin =
    or_else env.google_redirect_uri (origin ++ codes "/api/auth/google/callback")

unfoldable pub google_auth : Text
google_auth = codes "https://accounts.google.com/o/oauth2/v2/auth?"

-- Where /api/auth/google sends the browser.
unfoldable pub google_location : Env → Text → Text
google_location env origin =
    if non_empty env.google_client_id
    then google_auth
      ++ form_encode (
          (codes "client_id", env.google_client_id)
          ∷ (codes "redirect_uri", redirect_uri env origin)
          ∷ (codes "response_type", codes "code")
          ∷ (codes "scope", codes "openid email profile")
          ∷ (codes "access_type", codes "offline")
          ∷ (codes "prompt", codes "consent")
          ∷ [])
    else redirect_uri env origin ++ codes "?code=sso_pending"

-- The callback's own default for the redirect address.
unfoldable pub callback_uri : Env → Text
callback_uri env =
    or_else env.google_redirect_uri
      (codes "https://temporal-cloud-marketing.pages.dev/api/auth/google/callback")

unfoldable pub token_request : Env → Text → Request
token_request env code = record {
  url = codes "https://oauth2.googleapis.com/token";
  method = codes "POST";
  headers = (codes "Content-Type", codes "application/x-www-form-urlencoded") ∷ [];
  body =
      (codes "code", str code)
      ∷ (codes "client_id", str env.google_client_id)
      ∷ (codes "client_secret", str env.google_client_secret)
      ∷ (codes "redirect_uri", str (callback_uri env))
      ∷ (codes "grant_type", str (codes "authorization_code"))
      ∷ [];
}

unfoldable pub user_request : Value → Request
user_request access_token = record {
  url = codes "https://www.googleapis.com/oauth2/v2/userinfo";
  method = codes "GET";
  headers = (codes "Authorization", codes "Bearer " ++ text_of access_token) ∷ [];
  body = [];
}

abbrev pub google_user : Value → Value → Value → Json
google_user email name picture = literal (
    (codes "email", email)
    ∷ (codes "name", name)
    ∷ (codes "avatar", picture)
    ∷ (codes "provider", some (str (codes "google")))
    ∷ [])

unfoldable pub login_error : Text → Text
login_error reason = codes "/login?error=" ++ reason

module _ (p : Platform) where
  unfoldable pub get_google : Env → Text → Exec p.Store Response
  get_google env origin = throw (redirect (google_location env origin))

  -- The cookie from the user's data, and the way to the dashboard.
  unfoldable pub sign_in : Json → Exec p.Store Response
  unfolding set_cookie
  sign_in info = do
    email ← attempt (member (some info) (codes "email"))
    name ← attempt (member (some info) (codes "name"))
    picture ← attempt (member (some info) (codes "picture"))
    set_cookie p (auth_cookie (google_user email name picture))
    throw (redirect (codes "/dashboard"))

  -- The user's data, for the tokens.
  unfoldable pub fetch_user : Json → Exec p.Store Response
  unfolding fetch read_json
  fetch_user tokens = do
    access_token ← attempt (member (some tokens) (codes "access_token"))
    user_reply ← fetch p (user_request access_token)
    if not user_reply.ok
        then throw (redirect (login_error (codes "oauth_failed")))
        else do info ← read_json p user_reply; sign_in info

  -- The exchange of the code for tokens.
  unfoldable pub exchange : Env → Text → Exec p.Store Response
  unfolding fetch read_text read_json
  exchange env code = do
    token_reply ← fetch p (token_request env code)
    if not token_reply.ok
        then (do read_text p; throw (redirect (login_error (codes "oauth_failed"))))
        else do tokens ← read_json p token_reply; fetch_user tokens

  unfoldable pub get_callback : Env → Text → Text → Exec p.Store Response
  get_callback env code error =
      if non_empty error
      then throw (redirect (login_error error))
      else if not (non_empty code)
      then throw (redirect (login_error (codes "no_code")))
      else if code == codes "sso_pending"
      then throw (redirect (login_error (codes "sso_not_configured")))
      else exchange env code
