-- ===== src/Auth/Password.antt =====
-- POST /api/auth/set-password: marketing-site/src/routes/api/auth/set-password/+server.ts.
pub mod Laws
use temporal_cloud_offering.Prelude.{
  ℕ, Bool, true, false, not, ◌&&◌, ◌||◌, [], ◌∷◌, Option, none, some, if◌then◌else◌,
}
use temporal_cloud_offering.Text.{Text, codes}
use temporal_cloud_offering.Json.{
  bool, str, Value, truthy, member, set_member, is_text, length_of, below, text_of, literal,
}
use temporal_cloud_offering.Json.Doc.{Doc, stringify, parse, parse_stored, stored}
use temporal_cloud_offering.Platform.{Platform}
use temporal_cloud_offering.Platform.Exec.{
  Exec, pure, attempt, catch, ◌>>=◌, ◌>>◌, kv_get, kv_put, date_now, get_cookie, set_cookie,
}
use temporal_cloud_offering.Auth.{Env, Response, error_response, user_key, hash_password}
use temporal_cloud_offering.Auth.Signup.{short_password}
use temporal_cloud_offering.Auth.Login.{credentials_required, auth_cookie}

abbrev pub wrong_password : Response
wrong_password = error_response 400 (codes "Current password is incorrect")

abbrev pub set_failed : Response
set_failed = error_response 500 (codes "Failed to set password")

abbrev pub password_set : Response
password_set = record {
  status = 200;
  body = literal (
      (codes "success", some (bool true))
      ∷ (codes "message", some (str (codes "Password set successfully")))
      ∷ []);
}

-- `iso` is `new Date(…).toISOString()` of a time.
module _ (p : Platform) (iso : ℕ → Text) where
  -- `userData.password && current_password` and a hash that differs
  abbrev pub is_wrong : Value → Value → Bool
  is_wrong password current =
      truthy password && truthy current && not (is_text password (hash_password p current))

  -- A user who is stored: whether the current password was wrong.
  unfoldable pub update_user : Value → Value → Text → Option Doc → Exec p.Store Bool
  unfolding kv_put
  update_user email current hashed existing = do
    user ← attempt (parse_stored existing)
    password ← attempt (member (some user) (codes "password"))
    if is_wrong password current then pure true else do
      updated ← attempt (set_member user (codes "password") (str hashed))
      kv_put p (user_key (text_of email)) (stringify updated) none
      pure false

  unfoldable pub create_user : Value → Text → Exec p.Store Bool
  unfolding kv_put date_now
  create_user email hashed = do
    now ← date_now p
    let user = literal (
        (codes "email", email)
        ∷ (codes "password", some (str hashed))
        ∷ (codes "createdAt", some (str (iso now)))
        ∷ [])
    kv_put p (user_key (text_of email)) (stringify user) none
    pure false

  unfoldable pub store_password : Value → Value → Text → Exec p.Store Bool
  unfolding kv_get
  store_password email current hashed = do
    existing ← kv_get p (user_key (text_of email))
    if stored existing then update_user email current hashed existing else create_user email hashed

  -- Marks the cookie; what its parsing throws is ignored.
  unfoldable pub mark_cookie : Exec p.Store (Unit {0})
  unfolding get_cookie set_cookie
  mark_cookie = do
    cookie ← get_cookie p (codes "auth")
    if not (stored cookie)
        then pure tt
        else catch
            (do
              user ← attempt (parse_stored cookie)
              marked ← attempt (set_member user (codes "hasPassword") (bool true))
              set_cookie p (auth_cookie marked))
            (λ _. pure tt)

  unfoldable pub set_password : Env → Doc → Exec p.Store Response
  set_password env body = do
    input ← attempt (parse body)
    email ← attempt (member (some input) (codes "email"))
    current ← attempt (member (some input) (codes "current_password"))
    new_password ← attempt (member (some input) (codes "new_password"))
    if not (truthy email) || not (truthy new_password) then pure credentials_required else do
      size ← attempt (length_of new_password)
      if below p.text_below size 8 then pure short_password else do
        let hashed = hash_password p new_password
        wrong ← (if env.kv then store_password email current hashed else pure false)
        if wrong then pure wrong_password else do mark_cookie; pure password_set

  -- The handler.
  unfoldable pub post_set_password : Env → Doc → Exec p.Store Response
  post_set_password env body = catch (set_password env body) (λ _. pure set_failed)
