-- ===== src/Pages.antt =====
-- The pages of the site that keep state or call the API, marketing-site/src/routes: what their
-- scripts share. `fetch` of a page is a parameter: `none` is a request that fails.
pub mod Verify
pub mod Signup
pub mod Login
pub mod Console
use temporal_cloud_offering.Prelude.{
  ℕ, Bool, false, ◌&&◌, ◌≡◌, ◌⊎◌, Option, none, some, ltb, leb, if◌then◌else◌,
}
use temporal_cloud_offering.Text.{Text, codes}
use temporal_cloud_offering.Json.{Json, str, Value, Try, fine, type_error, member, truthy, or_null}
use temporal_cloud_offering.Json.Doc.{Doc, parse, stringify}
use temporal_cloud_offering.Platform.{Reply}
use temporal_cloud_offering.Platform.Exec.{Outcome, done, thrown}
use temporal_cloud_offering.Auth.{Response}

-- `v || message`
abbrev pub or_message : Value → Text → Json
or_message v message = if truthy v then or_null v else str message

-- `data.error || message`
abbrev pub error_of : Json → Text → Try Json
error_of data' message = elim (member (some data') (codes "error")) [
  | type_error ↦ type_error
  | fine v ↦ fine (or_message v message)
]

-- What the page receives where a handler of the site answers; `crash` is what SvelteKit answers
-- for a handler that threw.
abbrev pub answer : Reply → Outcome Response → Reply
answer crash (done r) = record {
  ok = leb 200 r.status && ltb r.status 300;
  json = stringify r.body;
}
answer crash (thrown _) = crash

-- What the page receives of a handler, or of a request that fails.
abbrev pub received : Reply → Option (Outcome Response) → Option Reply
received crash none = none
received crash (some o) = some (answer crash o)

-- Such an answer is not ok, and promises no success.
abbrev pub IsCrash : Reply → Type 0
IsCrash crash =
    (crash.ok ≡ false)
    × ((parse crash.json ≡ type_error)
        ⊎ ((data' : Json) × (v : Value) × ((parse crash.json ≡ fine data')
              × (member (some data') (codes "success") ≡ fine v)
              × (truthy v ≡ false))))
