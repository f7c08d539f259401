-- ===== src/Auth/Login/Laws.antt =====
-- The login of the sources: it checks that an email and a password are given, and nothing else.
use temporal_cloud_offering.Prelude.{◌≡◌, ◌⊎◌, true, false, ◌∷◌, some, arith}
use temporal_cloud_offering.Text.{Text, codes, non_empty, first_part}
use temporal_cloud_offering.Json.{Json, Value, str, fine, member, truthy}
use temporal_cloud_offering.Json.Doc.{Doc, parse}
use temporal_cloud_offering.Platform.{Platform}
use temporal_cloud_offering.Platform.Exec.{World, done}
use temporal_cloud_offering.Auth.{at}
use temporal_cloud_offering.Auth.Login.{
  post_login, login, auth_cookie, auth_data, logged_in, credentials_required,
}

module _ (p : Platform) (body : Doc) (input : Json) (email : Text) (password : Value) where
  -- A login with an email that is a string: with a password it is let in, and its cookie carries
  -- the part before the `@`, whatever KV holds and whatever the password is; without one, or
  -- with an empty email, it is refused. KV is neither read nor written.
  pub post_login_accepts :
      (w : World p.Store)
      → parse body ≡ fine input
      → member (some input) (codes "email") ≡ fine (some (str email))
      → member (some input) (codes "password") ≡ fine password
      → let (r, v) = post_login p body w in
        let user = auth_data (some (str email)) (str (first_part email at)) in
        (((non_empty email ≡ true)
            × (truthy password ≡ true)
            × (r ≡ done (logged_in user))
            × (v ≡ record w {
              jar = (codes "auth", (auth_cookie user).value) ∷ w.jar;
              set_cookies = auth_cookie user ∷ w.set_cookies;
            }))
          ⊎ (((non_empty email ≡ false) ⊎ (truthy password ≡ false))
              × (r ≡ done credentials_required)
              × (v ≡ w)))
  unfolding post_login login
  post_login_accepts w parsed email_given password_given = ground arith
