-- ===== src/Auth/Google/Laws.antt =====
-- The Google sign-in: where each path of the callback leads, and when it sets the cookie.
use temporal_cloud_offering.Prelude.{
  suc, ◌≡◌, ◌++◌, refl, ◌⊎◌, inl, inr, List, true, none, [], ◌∷◌, some, arith,
}
use temporal_cloud_offering.Text.{Text, codes, ◌==◌, starts_with, lookup}
use temporal_cloud_offering.Json.{Json, Value, Try, fine, type_error, Try-cases, str, member}
use temporal_cloud_offering.Json.Doc.{Doc, printed, malformed, parse}
use temporal_cloud_offering.Platform.{Platform}
use temporal_cloud_offering.Platform.Exec.{World, Cookie, Outcome, done, thrown, redirect, failure}
use temporal_cloud_offering.Auth.{Env, Response}
use temporal_cloud_offering.Auth.Google.{
  get_google, google_location, redirect_uri, get_callback, exchange, sign_in, fetch_user,
  user_request, token_request, login_error, google_user,
}

-- An address of the login page that names an error.
pub IsLoginError : Text → Type 0
IsLoginError location = starts_with location (codes "/login?error=") ≡ true

login_error-IsLoginError : (reason : Text) → IsLoginError (login_error reason)
unfolding IsLoginError login_error starts_with
login_error-IsLoginError reason = refl

abbrev provider_of : Doc → Try Value
provider_of (printed user) = member (some user) (codes "provider")
provider_of (malformed s) = type_error

provider-google_user :
    (email name picture : Value)
    → member (some (google_user email name picture)) (codes "provider")
      ≡ fine (some (str (codes "google")))
unfolding lookup ◌==◌
provider-google_user none none none = refl
provider-google_user none none (some x) = refl
provider-google_user none (some x) none = refl
provider-google_user none (some x) (some y) = refl
provider-google_user (some x) none none = refl
provider-google_user (some x) none (some y) = refl
provider-google_user (some x) (some y) none = refl
provider-google_user (some x) (some y) (some z) = refl

module _ (p : Platform) (env : Env) where
  -- One more cookie is set, named `auth`, whose value names Google as the provider.
  abbrev pub SignsIn : List Cookie → List Cookie → Type 0
  SignsIn old [] = ⊥
  SignsIn old (c ∷ cs) =
      (cs ≡ old)
      × (c.name ≡ codes "auth")
      × (provider_of c.value ≡ fine (some (str (codes "google"))))

  -- How a callback ends: the browser goes to the dashboard with the cookie set; or it goes to
  -- the login page with an error, or the runtime throws, with no cookie set.
  abbrev pub Ends : World p.Store → Outcome Response × World p.Store → Type 0
  Ends w (done r, v) = ⊥
  Ends w (thrown failure, v) = v.set_cookies ≡ w.set_cookies
  Ends w (thrown (redirect location), v) =
      ((location ≡ codes "/dashboard") × SignsIn w.set_cookies v.set_cookies)
      ⊎ (IsLoginError location × (v.set_cookies ≡ w.set_cookies))

  sign_in-Ends : (info : Json) (w : World p.Store) → Ends w (sign_in p info w)
  unfolding sign_in
  sign_in-Ends info w = elim (Try-cases (member (some info) (codes "email"))) [
    | inl bad ↦ ground arith
    | inr (email, e) ↦ elim (Try-cases (member (some info) (codes "name"))) [
      | inl bad ↦ ground arith
      | inr (name, n) ↦ elim (Try-cases (member (some info) (codes "picture"))) [
        | inl bad ↦ ground arith
        | inr (picture, q) ↦
            rw (e, n, q) (inl (refl, (refl, refl, provider-google_user email name picture)))
      ]
    ]
  ]

  fetch_user-Ends : (tokens : Json) (w : World p.Store) → Ends w (fetch_user p tokens w)
  unfolding fetch_user
  fetch_user-Ends tokens w = elim (Try-cases (member (some tokens) (codes "access_token"))) [
    | inl bad ↦ ground arith
    | inr (access_token, e) ↦
        let request = user_request access_token in
        let u = record w { calls = suc (suc w.calls); sent = request ∷ w.sent } in
        elim (Try-cases (parse (p.fetch w.calls request).json)) [
          | inl bad ↦ ground (arith, login_error-IsLoginError (codes "oauth_failed"))
          | inr (info, e') ↦
              ground (arith, sign_in-Ends info u, login_error-IsLoginError (codes "oauth_failed"))
        ]
  ]

  exchange-Ends : (code : Text) (w : World p.Store) → Ends w (exchange p env code w)
  unfolding exchange
  exchange-Ends code w =
      let request = token_request env code in
      let u = record w { calls = suc (suc w.calls); sent = request ∷ w.sent } in
      elim (Try-cases (parse (p.fetch w.calls request).json)) [
        | inl bad ↦ ground (arith, login_error-IsLoginError (codes "oauth_failed"))
        | inr (tokens, e) ↦
            ground
              (arith, fetch_user-Ends tokens u, login_error-IsLoginError (codes "oauth_failed"))
      ]

  -- Every callback, whatever its parameters and the replies of Google are, ends in the dashboard
  -- with one more cookie, named `auth` and of the provider google, or on the login page with an
  -- error and no cookie, or with an exception of the runtime and no cookie.
  pub get_callback-Ends :
      (code error : Text) (w : World p.Store) → Ends w (get_callback p env code error w)
  unfolding get_callback
  get_callback-Ends code error w = ground (
    arith,
    exchange-Ends code w,
    login_error-IsLoginError error,
    login_error-IsLoginError (codes "no_code"),
    login_error-IsLoginError (codes "sso_not_configured"),
  )

  -- Without a client id the sign-in sends the browser to the callback with a placeholder, and the
  -- callback, given that placeholder and no error, sends it to the login page, with nothing
  -- requested of Google and no cookie set.
  google_unconfigured :
      (origin : Text) (w : World p.Store)
      → env.google_client_id ≡ []
      → (get_google p env origin w
          ≡ (thrown (redirect (redirect_uri env origin ++ codes "?code=sso_pending")), w))
        × (get_callback p env (codes "sso_pending") [] w
            ≡ (thrown (redirect (codes "/login?error=sso_not_configured")), w))
  unfolding get_google google_location get_callback login_error ◌==◌
  google_unconfigured origin w none_given = (ground arith, refl)
