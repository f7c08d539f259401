-- ===== src/Pages/Verify.antt =====
-- The page /auth/verify: marketing-site/src/routes/auth/verify/+page.svelte, its script.
pub mod Laws
use temporal_cloud_offering.Prelude.{
  ℕ, Bool, true, false, not, ◌||◌, List, [], ◌∷◌, ◌++◌, Option, none, some, if◌then◌else◌,
}
use temporal_cloud_offering.Text.{Text, codes, non_empty, or_else, ◌==◌}
use temporal_cloud_offering.Text.Utf8.{encode_uri_component}
use temporal_cloud_offering.Json.{Json, str, Value, Try, fine, type_error, member, truthy, or_null}
use temporal_cloud_offering.Json.Doc.{Doc, parse}
use temporal_cloud_offering.Platform.{Reply}
use temporal_cloud_offering.Session.{Session, login}
use temporal_cloud_offering.Session.Runtime.{Browser}
use temporal_cloud_offering.Pages.{error_of}

pub data Status : Type 0 where
  verifying success verified error : Status

-- The variables of the page, and where its timers go, with their delay in milliseconds.
pub record Page : Type 0 where
  pub status : Status
  pub error_message : Json
  pub is_signup_verification : Bool
  pub timers : List (Text × ℕ)

abbrev pub opened : Page
opened = record {
  status = verifying;
  error_message = str [];
  is_signup_verification = false;
  timers = [];
}

abbrev pub show_error : Json → Page → Page
show_error message page = record page { status = error; error_message = message }

abbrev pub show_verified : Page → Page
show_verified page = record page {
  status = verified;
  timers = (codes "/login", 2000) ∷ page.timers;
}

abbrev pub show_success : Page → Page
show_success page = record page {
  status = success;
  timers = (codes "/dashboard", 1500) ∷ page.timers;
}

-- The address that is fetched; `none` is the URIError of `encodeURIComponent`.
unfoldable pub verify_url : Text → Text → Text → Option Text
verify_url token email type = elim (encode_uri_component email) [
  | none ↦ none
  | some escaped ↦ some (
      codes "/api/auth/verify?token="
      ++ (token ++ (codes "&email=" ++ (escaped ++ (codes "&type=" ++ type)))))
]

abbrev pub fetch_url : (Text → Option Reply) → Option Text → Option Reply
fetch_url fetch none = none
fetch_url fetch (some url) = fetch url

module _ (b : Browser) (fetch : Text → Option Reply) where
  abbrev pub State : Type 0
  State = Page × Session b.State

  abbrev pub after_login : Page → Option (Session b.State) → Option State
  after_login page none = none
  after_login page (some session) = some (show_success page, session)

  -- `else if (data.user)`
  abbrev pub sign_in : Page → Session b.State → Try Value → Option State
  sign_in page session type_error = none
  sign_in page session (fine user) =
      if truthy user
      then after_login page (login b true (or_null user) session)
      else some (page, session)

  -- `if (data.verified)`
  abbrev pub accept : Json → Page → Session b.State → Try Value → Option State
  accept data' page session type_error = none
  accept data' page session (fine verified') =
      if truthy verified'
      then some (show_verified page, session)
      else sign_in page session (member (some data') (codes "user"))

  abbrev pub refuse : Page → Session b.State → Try Json → Option State
  refuse page session type_error = none
  refuse page session (fine message) = some (show_error message page, session)

  -- `if (data.success)`
  abbrev pub receive : Json → Page → Session b.State → Try Value → Option State
  receive data' page session type_error = none
  receive data' page session (fine success') =
      if truthy success'
      then accept data' page session (member (some data') (codes "verified"))
      else refuse page session (error_of data' (codes "Verification failed"))

  -- `await response.json()`, and what follows.
  abbrev pub read_reply : Page → Session b.State → Try Json → Option State
  read_reply page session type_error = none
  read_reply page session (fine data') =
      receive data' page session (member (some data') (codes "success"))

  -- The body of the `try` block: `none` where it throws.
  abbrev pub try_verify : Page → Session b.State → Option Reply → Option State
  try_verify page session none = none
  try_verify page session (some response) = read_reply page session (parse response.json)

  -- The `catch` block.
  abbrev pub or_failed : Page → Session b.State → Option State → State
  or_failed page session none = (show_error (str (codes "Failed to verify link")) page, session)
  or_failed page session (some result) = result

  -- `onMount`, on the three query parameters; an absent one is empty.
  unfoldable pub on_mount : Text → Text → Text → Session b.State → State
  on_mount token email type session =
      let kind = or_else type (codes "magic_link") in
      let page = record opened { is_signup_verification = kind == codes "signup" } in
      if not (non_empty token) || not (non_empty email)
      then (show_error (str (codes "Invalid verification link")) page, session)
      else or_failed page session
          (try_verify page session (fetch_url fetch (verify_url token email kind)))
