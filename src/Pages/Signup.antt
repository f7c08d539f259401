-- ===== src/Pages/Signup.antt =====
-- The page /signup: marketing-site/src/routes/signup/+page.svelte, its script.
pub mod Laws
use temporal_cloud_offering.Prelude.{
  ℕ, Bool, true, false, not, List, [], ◌∷◌, Option, none, some, ltb, length, if◌then◌else◌,
}
use temporal_cloud_offering.Text.{Text, codes, ◌==◌}
use temporal_cloud_offering.Json.{Json, str, Value, Try, fine, type_error, member, truthy, literal}
use temporal_cloud_offering.Json.Doc.{Doc, parse, stringify}
use temporal_cloud_offering.Platform.{Reply}
use temporal_cloud_offering.Pages.{error_of}

-- The variables of the page, and the address that it sets `window.location.href` to.
pub record Form : Type 0 where
  pub email : Text
  pub name : Text
  pub password : Text
  pub confirm_password : Text
  pub loading : Bool
  pub error : Json
  pub success : Bool
  pub location : Option Text

abbrev pub show_error : Json → Form → Form
show_error message form = record form { error = message }

abbrev pub passwords_differ : Json
passwords_differ = str (codes "Passwords do not match")

abbrev pub password_short : Json
password_short = str (codes "Password must be at least 8 characters")

abbrev pub network_error : Json
network_error = str (codes "Network error. Please try again.")

-- `JSON.stringify({ email, name, password })`
abbrev pub signup_body : Form → Doc
signup_body form = stringify (
    literal (
      (codes "email", some (str form.email))
      ∷ (codes "name", some (str form.name))
      ∷ (codes "password", some (str form.password))
      ∷ []))

-- `if (data.demoMode)`
abbrev pub created : Form → Try Value → Option Form
created form type_error = none
created form (fine demo) = some (
    if truthy demo
    then record form { location = some (codes "/login?message=account_created") }
    else record form { success = true })

abbrev pub refused : Form → Try Json → Option Form
refused form type_error = none
refused form (fine message) = some (show_error message form)

-- `await res.json()`, and what follows.
abbrev pub read_reply : Form → Bool → Try Json → Option Form
read_reply form ok type_error = none
read_reply form true (fine data') = created form (member (some data') (codes "demoMode"))
read_reply form false (fine data') = refused form (error_of data' (codes "Signup failed"))

-- The body of the `try` block: `none` where it throws.
abbrev pub try_signup : Form → Option Reply → Option Form
try_signup form none = none
try_signup form (some res) = read_reply form res.ok (parse res.json)

-- `catch` and `finally`
abbrev pub finish : Form → Option Form → Form
finish form none = record form { error = network_error; loading = false }
finish form (some form') = record form' { loading = false }

abbrev pub handle_google_signup : Form → Form
handle_google_signup form = record form { location = some (codes "/api/auth/google") }

-- `fetch` with this body.
module _ (fetch : Doc → Option Reply) where
  unfoldable pub handle_signup : Form → Form
  handle_signup form =
      if not (form.password == form.confirm_password)
      then show_error passwords_differ form
      else if ltb (length form.password) 8
      then show_error password_short form
      else let waiting = record form { loading = true; error = str [] } in
        finish waiting (try_signup waiting (fetch (signup_body waiting)))
