-- ===== src/Auth/Login.antt =====
-- POST /api/auth/login: marketing-site/src/routes/api/auth/login/+server.ts, which accepts any
-- login ("demo mode"). The build for the Node adapter holds an older handler: Auth/Deployed.antt.
pub mod Laws
use temporal_cloud_offering.Prelude.{ℕ, ◌*◌, true, false, not, ◌||◌, [], ◌∷◌, some, if◌then◌else◌}
use temporal_cloud_offering.Text.{codes}
use temporal_cloud_offering.Json.{
  Json, bool, str, Value, truthy, member, split_first, map_try, literal,
}
use temporal_cloud_offering.Json.Doc.{Doc, stringify, parse}
use temporal_cloud_offering.Platform.{Platform}
use temporal_cloud_offering.Platform.Exec.{
  Exec, Cookie, pure, attempt, catch, ◌>>=◌, ◌>>◌, set_cookie,
}
use temporal_cloud_offering.Auth.{Response, error_response, hash_password, at}

abbrev pub credentials_required : Response
credentials_required = error_response 400 (codes "Email and password are required")

abbrev pub login_failed : Response
login_failed = error_response 500 (codes "Login failed")

-- 7 days, in seconds
abbrev pub week : ℕ
week = 60 * 60 * 24 * 7

-- `cookies.set("auth", …)`, with the options that every handler gives.
abbrev pub auth_cookie : Json → Cookie
auth_cookie user = record {
  name = codes "auth";
  value = stringify user;
  path = codes "/";
  http_only = false;
  secure = true;
  same_site = codes "lax";
  max_age = week;
}

abbrev pub auth_data : Value → Json → Json
auth_data email name = literal (
    (codes "email", email)
    ∷ (codes "name", some name)
    ∷ (codes "provider", some (str (codes "email")))
    ∷ (codes "hasPassword", some (bool true))
    ∷ [])

abbrev pub logged_in : Json → Response
logged_in user = record {
  status = 200;
  body = literal ((codes "success", some (bool true)) ∷ (codes "user", some user) ∷ []);
}

module _ (p : Platform) where
  unfoldable pub login : Doc → Exec p.Store Response
  unfolding set_cookie
  login body = do
    input ← attempt (parse body)
    email ← attempt (member (some input) (codes "email"))
    password ← attempt (member (some input) (codes "password"))
    if not (truthy email) || not (truthy password) then pure credentials_required else do
      let hashed = hash_password p password
      name ← attempt (map_try str (split_first email at))
      let user = auth_data email name
      set_cookie p (auth_cookie user)
      pure (logged_in user)

  -- The handler.
  unfoldable pub post_login : Doc → Exec p.Store Response
  post_login body = catch (login body) (λ _. pure login_failed)
