-- ===== src/Pages/Login.antt =====
-- The page /login: marketing-site/src/routes/login/+page.svelte, its script.
pub mod Laws
use temporal_cloud_offering.Prelude.{
  ℕ, Bool, true, false, List, [], ◌∷◌, Option, none, some, eqb, if◌then◌else◌,
}
use temporal_cloud_offering.Text.{Text, codes, non_empty, ◌==◌}
use temporal_cloud_offering.Json.{Json, str, Try, fine, type_error, literal}
use temporal_cloud_offering.Json.Doc.{Doc, parse, stringify}
use temporal_cloud_offering.Platform.{Reply}
use temporal_cloud_offering.Pages.{error_of}

-- The variables of the page, and where it goes.
pub record Form : Type 0 where
  pub email : Text
  pub password : Text
  pub loading : Bool
  pub error : Json
  pub goes_to : Option Text

-- `s.replace(/_/g, " ")`
unfoldable pub spaced : Text → Text
spaced [] = []
spaced (c ∷ s) = (if eqb c b'_' then b' ' else c) ∷ spaced s

-- `onMount`, on the query parameters `error` and `message`; an absent one is empty.
unfoldable pub on_mount : Text → Text → Form → Form
unfolding spaced
on_mount url_error message form =
    let error =
      if url_error == codes "sso_not_configured"
      then str (
          codes
            "Google SSO is not configured. Please use email login or contact your administrator.")
      else if url_error == codes "oauth_failed"
      then str (codes "Google sign-in failed. Please try again or use email login.")
      else if url_error == codes "access_denied"
      then str (codes "Access was denied. Please try again or use a different account.")
      else if non_empty url_error
      then str (spaced url_error)
      else form.error in
    if message == codes "account_created"
    then record form { error = str [] }
    else record form { error = error }

unfoldable pub success_message : Text → Text
success_message message =
    if message == codes "account_created"
    then codes "Account created successfully! You can now sign in."
    else []

-- `JSON.stringify({ email, password })`
abbrev pub login_body : Form → Doc
login_body form = stringify (
    literal
      ((codes "email", some (str form.email)) ∷ (codes "password", some (str form.password)) ∷ []))

abbrev pub refused : Form → Try Json → Option Form
refused form type_error = none
refused form (fine message) = some (record form { error = message })

-- `await res.json()` where the answer is not ok.
abbrev pub read_error : Form → Try Json → Option Form
read_error form type_error = none
read_error form (fine data') = refused form (error_of data' (codes "Login failed"))

-- The body of the `try` block: `none` where it throws.
abbrev pub try_login : Form → Option Reply → Option Form
try_login form none = none
try_login form (some res) =
    if res.ok
    then some (record form { goes_to = some (codes "/dashboard") })
    else read_error form (parse res.json)

-- `catch` and `finally`
abbrev pub finish : Form → Option Form → Form
finish form none = record form { error = str (codes "Network error"); loading = false }
finish form (some form') = record form' { loading = false }

abbrev pub handle_google_login : Form → Form
handle_google_login form = record form { goes_to = some (codes "/api/auth/google") }

-- `fetch` with this body.
module _ (fetch : Doc → Option Reply) where
  unfoldable pub handle_email_login : Form → Form
  handle_email_login form =
      let waiting = record form { loading = true; error = str [] } in
      finish waiting (try_login waiting (fetch (login_body waiting)))
