-- ===== src/Auth/Verify.antt =====
-- GET /api/auth/verify: marketing-site/src/routes/api/auth/verify/+server.ts. The handler has no
-- `try` block: what the runtime throws leaves it.
pub mod Token
pub mod Laws
pub mod Activation
pub mod Answers
use temporal_cloud_offering.Prelude.{true, not, ◌||◌, [], ◌∷◌, none, some, if◌then◌else◌}
use temporal_cloud_offering.Text.{Text, codes, non_empty, first_part, or_else, ◌==◌}
use temporal_cloud_offering.Json.{bool, num, str, member, set_member, is_text, below, literal}
use temporal_cloud_offering.Json.Doc.{stringify, parse_stored, stored}
use temporal_cloud_offering.Platform.{Platform}
use temporal_cloud_offering.Platform.Exec.{
  Exec, pure, attempt, ◌>>=◌, ◌>>◌, kv_get, kv_put, kv_delete, date_now,
}
use temporal_cloud_offering.Auth.{
  Env, Response, error_response, verification_key, pending_key, user_key, magic_link_key, at,
}

abbrev pub invalid_link_request : Response
invalid_link_request = error_response 400 (codes "Invalid verification link")

abbrev pub other_email : Response
other_email = error_response 400 (codes "Invalid link")

-- `email.split("@")[0]`
abbrev pub local_part : Text → Text
local_part email = first_part email at

abbrev pub email_verified : Text → Response
email_verified email = record {
  status = 200;
  body = literal (
      (codes "success", some (bool true))
      ∷ (codes "verified", some (bool true))
      ∷ (codes "message", some (str (codes "Email verified successfully. You can now sign in.")))
      ∷ (
        codes "user",
        some (
            literal (
              (codes "email", some (str email))
              ∷ (codes "name", some (str (local_part email)))
              ∷ [])),
      )
      ∷ []);
}

abbrev pub signed_in : Text → Response
signed_in email = record {
  status = 200;
  body = literal (
      (codes "success", some (bool true))
      ∷ (
        codes "user",
        some (
            literal (
              (codes "email", some (str email))
              ∷ (codes "name", some (str (local_part email)))
              ∷ (codes "provider", some (str (codes "email")))
              ∷ [])),
      )
      ∷ []);
}

-- The two kinds of links differ in the prefix of the key and in two messages.
pub record Kind : Type 0 where
  pub key : Text → Text
  pub unknown : Response
  pub expired : Response

abbrev pub signup_kind : Kind
signup_kind = record {
  key = verification_key;
  unknown = error_response 400 (codes "Invalid or expired verification link");
  expired = error_response 400 (codes "Verification link has expired");
}

abbrev pub magic_link_kind : Kind
magic_link_kind = record {
  key = magic_link_key;
  unknown = error_response 400 (codes "Invalid or expired link");
  expired = error_response 400 (codes "Link has expired");
}

module _ (p : Platform) where
  -- The checks of a token, with early returns; `accept` is the code behind them.
  unfoldable pub check_token : Kind → Text → Text → Exec p.Store Response → Exec p.Store Response
  unfolding kv_get kv_delete date_now
  check_token kind token email accept = do
    token_data ← kv_get p (kind.key token)
    if not (stored token_data) then pure kind.unknown else do
      data' ← attempt (parse_stored token_data)
      owner ← attempt (member (some data') (codes "email"))
      if not (is_text owner email) then pure other_email else do
        now ← date_now p
        expires_at ← attempt (member (some data') (codes "expiresAt"))
        if below p.text_below expires_at now
            then (do kv_delete p (kind.key token); pure kind.expired)
            else accept

  -- Moves the pending user to the active users, if there is one.
  unfoldable pub activate : Text → Exec p.Store (Unit {0})
  unfolding kv_get kv_put kv_delete date_now
  activate email = do
    pending_data ← kv_get p (pending_key email)
    if not (stored pending_data) then pure tt else do
      pending ← attempt (parse_stored pending_data)
      verified ← attempt (set_member pending (codes "verified") (bool true))
      now ← date_now p
      user ← attempt (set_member verified (codes "verifiedAt") (num now))
      kv_put p (user_key email) (stringify user) none
      kv_delete p (pending_key email)

  unfoldable pub accept_signup : Text → Text → Exec p.Store Response
  unfolding kv_delete
  accept_signup token email = do
    activate email
    kv_delete p (verification_key token)
    pure (email_verified email)

  unfoldable pub accept_magic_link : Text → Text → Exec p.Store Response
  unfolding kv_delete
  accept_magic_link token email = do kv_delete p (magic_link_key token); pure (signed_in email)

  -- The handler; an absent query parameter is the empty text here, since both are falsy.
  unfoldable pub get_verify : Env → Text → Text → Text → Exec p.Store Response
  get_verify env token email kind =
      if not (non_empty token) || not (non_empty email)
      then pure invalid_link_request
      else if not env.kv
      then pure (signed_in email)
      else if or_else kind (codes "magic_link") == codes "signup"
      then check_token signup_kind token email (accept_signup token email)
      else check_token magic_link_kind token email (accept_magic_link token email)
