-- ===== src/Session.antt =====
-- The session of the browser: marketing-site/src/lib/stores/auth.ts. The browser is a parameter:
-- `document.cookie`, `localStorage`, and how a string that is read reads as JSON.
pub mod Runtime
pub mod Cookies
pub mod Laws
pub mod Reload
pub mod Machine
pub mod Memory
pub mod Rendered
use temporal_cloud_offering.Prelude.{
  Bool, true, false, not, List, [], ◌∷◌, ◌++◌, Option, none, some, if◌then◌else◌,
}
use temporal_cloud_offering.Text.{Text, codes, non_empty, first_part}
use temporal_cloud_offering.Text.Split.{split}
use temporal_cloud_offering.Text.Uri.{decode_uri_component}
use temporal_cloud_offering.Json.{Json, null, Try, fine, type_error}
use temporal_cloud_offering.Json.Doc.{Doc, parse, parse_stored, stored, stringify}
use temporal_cloud_offering.Session.Runtime.{Browser}

abbrev pub auth_user : Text
auth_user = codes "auth_user"

abbrev pub auth_cookie_name : Text
auth_cookie_name = codes "auth"

-- `s || null`
abbrev pub or_absent : Text → Option Text
or_absent [] = none
or_absent (c ∷ s) = some (c ∷ s)

-- `if (parts.length === 2) return parts.pop()?.split(";").shift() || null; return null;`
abbrev pub cookie_value : List Text → Option Text
cookie_value (before ∷ after ∷ []) = or_absent (first_part after (codes ";"))
cookie_value _ = none

-- The state of the browser and the value of the store; `null` is nobody.
pub record Session (S : Type 0) : Type 0 where
  pub page : S
  pub user : Json

-- `browser` is false where the code runs on the server.
module _ (b : Browser) (browser : Bool) where
  unfoldable pub get_cookie : Text → b.State → Option Text
  get_cookie name s =
      if not browser
      then none
      else cookie_value (split (codes "; " ++ b.cookie s) (codes "; " ++ (name ++ codes "=")))

  unfoldable pub delete_cookie : Text → b.State → b.State
  delete_cookie name s =
      if browser
      then b.set_cookie (name ++ codes "=; path=/; expires=Thu, 01 Jan 1970 00:00:00 GMT") s
      else s

  -- `JSON.parse(decodeURIComponent(authCookie))`
  unfoldable pub read_user : Text → Try Json
  read_user cookie = elim (decode_uri_component cookie) [
    | none ↦ type_error
    | some text ↦ parse (b.read text)
  ]

  abbrev pub sync_user : Json → b.State → Option b.State → Json × b.State
  sync_user user s none = (null, delete_cookie auth_cookie_name s)
  sync_user user s (some s') = (user, s')

  -- The user of the cookie, who is written to `localStorage`.
  unfoldable pub from_cookie : Option Text → b.State → Json × b.State
  unfolding read_user
  from_cookie none s = (null, s)
  from_cookie (some cookie) s = elim (read_user cookie) [
    | type_error ↦ (null, delete_cookie auth_cookie_name s)
    | fine user ↦ sync_user user s (b.set_item auth_user (stringify user) s)
  ]

  unfoldable pub get_initial_user : b.State → Json × b.State
  get_initial_user s =
      if not browser
      then (null, s)
      else if not (stored (b.get_item auth_user s))
      then from_cookie (get_cookie auth_cookie_name s) s
      else elim (parse_stored (b.get_item auth_user s)) [
        | fine user ↦ (user, s)
        | type_error ↦
            let s' = b.remove_item auth_user s in from_cookie (get_cookie auth_cookie_name s') s'
      ]

  unfoldable pub create_auth_store : b.State → Session b.State
  create_auth_store s = let (user, s') = get_initial_user s in record { page = s'; user = user }

  abbrev pub set_user : Json → Option b.State → Option (Session b.State)
  set_user user none = none
  set_user user (some s) = some (record { page = s; user = user })

  -- `none` is what `setItem` throws, before the store is set.
  unfoldable pub login : Json → Session b.State → Option (Session b.State)
  login user session =
      if browser
      then set_user user (b.set_item auth_user (stringify user) session.page)
      else some (record session { user = user })

  unfoldable pub logout : Session b.State → Session b.State
  logout session = record {
    page =
        if browser
        then delete_cookie auth_cookie_name (b.remove_item auth_user session.page)
        else session.page;
    user = null;
  }

abbrev pub is_null : Json → Bool
is_null null = true
is_null _ = false

unfoldable pub is_authenticated : {S : Type 0} → Session S → Bool
is_authenticated session = not (is_null session.user)
