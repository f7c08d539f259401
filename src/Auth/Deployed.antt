-- ===== src/Auth/Deployed.antt =====
-- The handlers of the committed build for the Node adapter, which are older than the sources:
-- marketing-site/.svelte-kit/adapter-node/entries/endpoints/api/auth, login/_server.ts.js and
-- verify/_server.ts.js. Its login reads the users in KV; its verify knows magic links only.
pub mod Laws
pub mod AfterChange
use temporal_cloud_offering.Prelude.{not, ◌||◌, some, if◌then◌else◌}
use temporal_cloud_offering.Text.{Text, codes, non_empty}
use temporal_cloud_offering.Json.{
  Json, str, Value, truthy, member, is_text, split_first, map_try, text_of,
}
use temporal_cloud_offering.Json.Doc.{Doc, parse, parse_stored, stored}
use temporal_cloud_offering.Platform.{Platform}
use temporal_cloud_offering.Platform.Exec.{
  Exec, pure, attempt, catch, ◌>>=◌, ◌>>◌, kv_get, set_cookie,
}
use temporal_cloud_offering.Auth.{
  Env, Response, error_response, user_key, hash_password, display_name, at,
}
use temporal_cloud_offering.Auth.Login.{
  credentials_required, login_failed, auth_cookie, auth_data, logged_in,
}
use temporal_cloud_offering.Auth.Verify.{
  invalid_link_request, signed_in, check_token, magic_link_kind, accept_magic_link,
}

abbrev pub invalid_credentials : Response
invalid_credentials = error_response 401 (codes "Invalid email or password")

module _ (p : Platform) where
  unfoldable pub grant : Value → Json → Exec p.Store Response
  unfolding set_cookie
  grant email name = do
    set_cookie p (auth_cookie (auth_data email name))
    pure (logged_in (auth_data email name))

  unfoldable pub check_user : Value → Text → Exec p.Store Response
  unfolding kv_get
  check_user email hashed = do
    user_data ← kv_get p (user_key (text_of email))
    if not (stored user_data) then pure invalid_credentials else do
      user ← attempt (parse_stored user_data)
      password ← attempt (member (some user) (codes "password"))
      if not (truthy password) || not (is_text password hashed)
          then pure invalid_credentials
          else do
            name ← attempt (member (some user) (codes "name"))
            shown ← attempt (display_name name email)
            grant email shown

  unfoldable pub kv_login : Env → Doc → Exec p.Store Response
  kv_login env body = do
    input ← attempt (parse body)
    email ← attempt (member (some input) (codes "email"))
    password ← attempt (member (some input) (codes "password"))
    if not (truthy email) || not (truthy password)
        then pure credentials_required
        else if env.kv
        then check_user email (hash_password p password)
        else do name ← attempt (map_try str (split_first email at)); grant email name

  -- The handler of login.
  unfoldable pub post_kv_login : Env → Doc → Exec p.Store Response
  post_kv_login env body = catch (kv_login env body) (λ _. pure login_failed)

  -- The handler of verify.
  unfoldable pub get_link_verify : Env → Text → Text → Exec p.Store Response
  get_link_verify env token email =
      if not (non_empty token) || not (non_empty email)
      then pure invalid_link_request
      else if env.kv
      then check_token p magic_link_kind token email (accept_magic_link p token email)
      else pure (signed_in email)
