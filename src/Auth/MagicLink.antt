-- ===== src/Auth/MagicLink.antt =====
-- POST /api/auth/magic-link: marketing-site/src/routes/api/auth/magic-link/+server.ts.
pub mod EndToEnd
use temporal_cloud_offering.Prelude.{ℕ, ◌+◌, ◌*◌, true, not, [], ◌∷◌, ◌++◌, some, if◌then◌else◌}
use temporal_cloud_offering.Text.{Text, codes, non_empty}
use temporal_cloud_offering.Json.{bool, str, arr, cons, nil, or_null, Value, member, literal}
use temporal_cloud_offering.Json.Doc.{Doc, stringify, parse}
use temporal_cloud_offering.Platform.{Platform, Request}
use temporal_cloud_offering.Platform.Exec.{
  Exec, pure, attempt, catch, ◌>>=◌, ◌>>◌, kv_put, date_now, fetch, read_text,
}
use temporal_cloud_offering.Auth.Mail.{magic_link_html}
use temporal_cloud_offering.Auth.Signup.{lacks_at, token_record, invalid_email}
use temporal_cloud_offering.Auth.{
  Env, Response, error_response, magic_link_key, generate_token, verify_link,
}

abbrev pub link_sent : Response
link_sent = record {
  status = 200;
  body = literal (
      (codes "success", some (bool true))
      ∷ (codes "message", some (str (codes "Check your email for a sign-in link.")))
      ∷ []);
}

abbrev pub link_failed : Response
link_failed = error_response 500 (codes "Failed to send magic link")

-- 15 minutes, in milliseconds, and in seconds for `expirationTtl`
abbrev pub quarter_ms : ℕ
quarter_ms = 15 * 60 * 1000

abbrev pub quarter_ttl : ℕ
quarter_ttl = 900

-- The request to Resend.
abbrev pub sign_in_mail : Text → Value → Text → Request
sign_in_mail key email html = record {
  url = codes "https://api.resend.com/emails";
  method = codes "POST";
  headers =
      (codes "Authorization", codes "Bearer " ++ key)
      ∷ (codes "Content-Type", codes "application/json")
      ∷ [];
  body =
      (codes "from", str (codes "Temporal Cloud <onboarding@resend.dev>"))
      ∷ (codes "to", arr (cons (or_null email) nil))
      ∷ (codes "subject", str (codes "Your sign-in link for Temporal Cloud"))
      ∷ (codes "html", str html)
      ∷ [];
}

module _ (p : Platform) where
  -- Without a key the link is only logged; a mail that Resend refuses is logged too.
  unfoldable pub send_link : Env → Value → Text → Exec p.Store (Unit {0})
  unfolding fetch read_text date_now
  send_link env email link = if not (non_empty env.resend_api_key) then pure tt else do
    now ← date_now p
    let html = magic_link_html link (p.year now)
    let mail = sign_in_mail env.resend_api_key email html
    reply ← fetch p mail
    if reply.ok then pure tt else read_text p

  unfoldable pub magic_link : Env → Text → Doc → Exec p.Store Response
  unfolding date_now kv_put
  magic_link env origin body = do
    input ← attempt (parse body)
    email ← attempt (member (some input) (codes "email"))
    bad_email ← attempt (lacks_at email)
    if bad_email then pure invalid_email else do
      token ← generate_token p
      now ← date_now p
      let token_data = stringify (token_record email (now + quarter_ms))
      if env.kv then kv_put p (magic_link_key token) token_data (some quarter_ttl) else pure tt
      link ← attempt (verify_link origin token email)
      send_link env email link
      pure link_sent

  -- The handler.
  unfoldable pub post_magic_link : Env → Text → Doc → Exec p.Store Response
  post_magic_link env origin body = catch (magic_link env origin body) (λ _. pure link_failed)
