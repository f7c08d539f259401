-- ===== src/Auth/Signup.antt =====
-- POST /api/auth/signup: marketing-site/src/routes/api/auth/signup/+server.ts.
pub mod Laws
pub mod EndToEnd
pub mod Demo
use temporal_cloud_offering.Prelude.{
  ℕ, ◌+◌, ◌*◌, Bool, true, false, not, [], ◌∷◌, ◌++◌, none, some, if◌then◌else◌,
}
use temporal_cloud_offering.Text.{Text, codes, non_empty}
use temporal_cloud_offering.Json.{
  Json, bool, num, str, arr, nil, cons, or_null, Value, Try, fine, map_try, truthy, member, has,
  length_of, below, literal, text_of, to_text,
}
use temporal_cloud_offering.Json.Doc.{Doc, stringify, parse, stored}
use temporal_cloud_offering.Platform.{Platform, Request}
use temporal_cloud_offering.Platform.Exec.{
  Exec, pure, attempt, catch, ◌>>=◌, ◌>>◌, kv_get, kv_put, date_now, fetch, read_text,
}
use temporal_cloud_offering.Auth.Mail.{signup_html}
use temporal_cloud_offering.Auth.{
  Env, Response, error_response, verification_key, pending_key, user_key, generate_token,
  hash_password, verify_link, at, display_name,
}

abbrev pub invalid_email : Response
invalid_email = error_response 400 (codes "Invalid email address")

abbrev pub short_password : Response
short_password = error_response 400 (codes "Password must be at least 8 characters")

abbrev pub account_exists : Response
account_exists = error_response 400 (codes "An account with this email already exists")

abbrev pub signup_failed : Response
signup_failed = error_response 500 (codes "Signup failed")

abbrev pub mail_sent : Response
mail_sent = record {
  status = 200;
  body = literal (
      (codes "success", some (bool true))
      ∷ (codes "message", some (str (codes "Verification email sent. Please check your inbox.")))
      ∷ []);
}

abbrev pub account_created : Response
account_created = record {
  status = 200;
  body = literal (
      (codes "success", some (bool true))
      ∷ (codes "message", some (str (codes "Account created successfully! You can now sign in.")))
      ∷ (codes "demoMode", some (bool true))
      ∷ []);
}

-- `!email || !email.includes("@")`
abbrev pub lacks_at : Value → Try Bool
lacks_at email = if truthy email then map_try not (has email at) else fine true

-- 24 hours, in milliseconds, and in seconds for `expirationTtl`
abbrev pub day_ms : ℕ
day_ms = 24 * 60 * 60 * 1000

abbrev pub day_ttl : ℕ
day_ttl = 86400

-- What is stored under `user:` and `pending_user:`.
abbrev pub user_record : Value → Json → Text → Bool → ℕ → Json
user_record email name password verified created_at = literal (
    (codes "email", email)
    ∷ (codes "name", some name)
    ∷ (codes "password", some (str password))
    ∷ (codes "verified", some (bool verified))
    ∷ (codes "createdAt", some (num created_at))
    ∷ [])

-- What is stored under `verification:`.
abbrev pub token_record : Value → ℕ → Json
token_record email expires_at =
    literal ((codes "email", email) ∷ (codes "expiresAt", some (num expires_at)) ∷ [])

-- The request to Resend.
abbrev pub verification_mail : Text → Value → Text → Request
verification_mail key email html = record {
  url = codes "https://api.resend.com/emails";
  method = codes "POST";
  headers =
      (codes "Authorization", codes "Bearer " ++ key)
      ∷ (codes "Content-Type", codes "application/json")
      ∷ [];
  body =
      (codes "from", str (codes "Temporal Cloud <onboarding@resend.dev>"))
      ∷ (codes "to", arr (cons (or_null email) nil))
      ∷ (codes "subject", str (codes "Verify your Temporal Cloud account"))
      ∷ (codes "html", str html)
      ∷ [];
}

module _ (p : Platform) where
  -- `!password || password.length < 8`
  abbrev pub too_short : Value → Try Bool
  too_short password =
      if truthy password
      then map_try (λ n. below p.text_below n 8) (length_of password)
      else fine true

  -- The KV part before the mail: whether the account exists, and if not, the token and the
  -- pending user are stored.
  unfoldable pub store_pending : Value → Text → ℕ → Json → Exec p.Store Bool
  unfolding kv_get kv_put
  store_pending email token expires_at pending = do
    existing ← kv_get p (user_key (text_of email))
    if stored existing then pure true else do
      kv_put p (verification_key token) (stringify (token_record email expires_at)) (some day_ttl)
      kv_put p (pending_key (text_of email)) (stringify pending) (some day_ttl)
      pure false

  -- The mail through Resend, where it is configured: whether it was accepted.
  unfoldable pub send_verification : Env → Value → Value → Text → Exec p.Store Bool
  unfolding fetch read_text date_now
  send_verification env email name link =
      if not (non_empty env.resend_api_key) then pure false else do
        shown ← attempt (display_name name email)
        now ← date_now p
        let html = signup_html shown link (p.year now)
        let mail = verification_mail env.resend_api_key email html
        reply ← fetch p mail
        if reply.ok then pure true else do read_text p; pure false

  -- The part behind the mail: without a mail the account is created as verified.
  unfoldable pub create_verified : Env → Value → Value → Text → Exec p.Store Response
  unfolding kv_put date_now
  create_verified env email name hashed = if not env.kv then pure account_created else do
    shown ← attempt (display_name name email)
    now ← date_now p
    let user = user_record email shown hashed true now
    kv_put p (user_key (text_of email)) (stringify user) none
    pure account_created

  -- The mail, or the account where there is none.
  unfoldable pub announce : Env → Text → Value → Value → Text → Text → Exec p.Store Response
  announce env origin email name hashed token = do
    link ← attempt (verify_link origin token email)
    sent ← send_verification env email name (link ++ codes "&type=signup")
    if sent then pure mail_sent else create_verified env email name hashed

  -- What follows the two checks of the input.
  unfoldable pub register : Env → Text → Value → Value → Value → Exec p.Store Response
  unfolding date_now
  register env origin email name password = do
    token ← generate_token p
    let hashed = hash_password p password
    now ← date_now p
    shown ← attempt (display_name name email)
    created_at ← date_now p
    let pending = user_record email shown hashed false created_at
    exists ← (if env.kv then store_pending email token (now + day_ms) pending else pure false)
    if exists then pure account_exists else announce env origin email name hashed token

  -- The checks of the input.
  unfoldable pub validated : Env → Text → Value → Value → Value → Exec p.Store Response
  validated env origin email name password = do
    bad_email ← attempt (lacks_at email)
    if bad_email then pure invalid_email else do
      bad_password ← attempt (too_short password)
      if bad_password then pure short_password else register env origin email name password

  -- The body of the `try` block.
  unfoldable pub signup : Env → Text → Doc → Exec p.Store Response
  signup env origin body = do
    input ← attempt (parse body)
    email ← attempt (member (some input) (codes "email"))
    name ← attempt (member (some input) (codes "name"))
    password ← attempt (member (some input) (codes "password"))
    validated env origin email name password

  -- The handler.
  unfoldable pub post_signup : Env → Text → Doc → Exec p.Store Response
  post_signup env origin body = catch (signup env origin body) (λ _. pure signup_failed)
