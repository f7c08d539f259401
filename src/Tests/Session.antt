-- ===== src/Tests/Session.antt =====
-- Sessions in a browser in memory.
use temporal_cloud_offering.Prelude.{
  ◌≡◌, ◌≢◌, refl, ◌⊎◌, true, false, [], ◌∷◌, none, some, arith, if◌then◌else◌,
}
use temporal_cloud_offering.Text.{Text, codes, lookup, insert, cut, strip_prefix, ◌==◌}
use temporal_cloud_offering.Text.Split.{split, split_within}
use temporal_cloud_offering.Text.Utf8.{encode_uri_component}
use temporal_cloud_offering.Text.Uri.Laws.{IsUnits}
use temporal_cloud_offering.Json.{Json, null, str, literal}
use temporal_cloud_offering.Json.Doc.{Doc, printed, malformed, stringify}
use temporal_cloud_offering.Session.{
  Session, auth_user, auth_cookie_name, get_cookie, delete_cookie, get_initial_user, from_cookie,
  create_auth_store, login, logout, is_authenticated,
}
use temporal_cloud_offering.Session.Runtime.{Browser, BrowserLaws}
use temporal_cloud_offering.Session.Memory.{
  Tab, tab, tab_laws, tab-cookies, held, is_cookie, is_free,
}
use temporal_cloud_offering.Session.Machine.{
  signed_in, reloaded, stop, next, sign_in, reload, session_refines, logout_lasts,
}
use temporal_cloud_offering.Session.Reload.{cookie_signs_in}

abbrev pub user_text : Text
user_text = codes "{\"email\":\"a@b\"}"

abbrev pub sent_text : Text
sent_text = codes "%7B%22email%22%3A%22a%40b%22%7D"

abbrev pub bob : Json
bob = literal ((codes "email", some (str (codes "a@b"))) ∷ [])

abbrev pub eve : Json
eve = literal ((codes "email", some (str (codes "e@f"))) ∷ [])

abbrev pub read_text : Text → Doc
read_text s = if s == user_text then printed bob else malformed s

pub read_text_nothing : read_text [] ≡ malformed []
unfolding ◌==◌
read_text_nothing = refl

abbrev pub chrome : Browser
chrome = tab read_text

abbrev pub chrome_laws : BrowserLaws chrome
chrome_laws = tab_laws read_text read_text_nothing

-- A page with two cookies, the second from the server.
abbrev pub visited : Tab
visited = record {
  jar = (codes "theme", codes "dark") ∷ (codes "auth", sent_text) ∷ [];
  items = [];
}

abbrev pub empty_tab : Tab
empty_tab = record { jar = []; items = [] }

encoded : encode_uri_component user_text ≡ some sent_text
unfolding encode_uri_component
encoded = refl

abbrev pub signed : Session Tab
signed = record {
  page = record { jar = []; items = (codes "auth_user", stringify eve) ∷ [] };
  user = eve;
}

pub signed-login : login chrome true eve (create_auth_store chrome true empty_tab) ≡ some signed
unfolding login create_auth_store get_initial_user from_cookie get_cookie split split_within cut
    strip_prefix lookup insert held ◌==◌
signed-login = refl

session_refines_example : (create_auth_store chrome true signed.page).user ≡ eve
session_refines_example =
    (session_refines chrome chrome_laws empty_tab (signed_in eve ∷ reloaded ∷ [])
      (create_auth_store chrome true signed.page)
      (next (sign_in eve signed-login)
        (next (reload signed) (stop (create_auth_store chrome true signed.page))))).0

logout_lasts_example :
    let t = create_auth_store chrome true (logout chrome true signed).page in
    (is_authenticated t ≡ false) × (is_authenticated (create_auth_store chrome true t.page) ≡ false)
logout_lasts_example =
    logout_lasts chrome chrome_laws signed
      (create_auth_store chrome true (logout chrome true signed).page) (reloaded ∷ []) (tt, tt)
      (next (reload (logout chrome true signed))
        (stop (create_auth_store chrome true (logout chrome true signed).page)))

auth_theme : codes "auth" ≢ codes "theme"
auth_theme e = cc

held_visited :
    chrome_laws.cookies visited ≡ (codes "theme", codes "dark") ∷ (codes "auth", sent_text) ∷ []
unfolding held is_cookie is_free
held_visited = tab-cookies read_text read_text_nothing visited

user_text-IsUnits : IsUnits user_text
user_text-IsUnits = omega arith

cookie_signs_in_example :
    ((s' : Tab) × (chrome.set_item auth_user (stringify bob) visited ≡ some s')
      × (create_auth_store chrome true visited ≡ record { page = s'; user = bob }))
    ⊎ ((chrome.set_item auth_user (stringify bob) visited ≡ none)
        × (create_auth_store chrome true visited
            ≡ record { page = delete_cookie chrome true auth_cookie_name visited; user = null }))
unfolding lookup ◌==◌
cookie_signs_in_example =
    cookie_signs_in chrome chrome_laws bob visited
      (
        (codes "theme", codes "dark") ∷ [],
        [],
        user_text,
        sent_text,
        (held_visited, (auth_theme, tt), tt, user_text-IsUnits, encoded, refl),
      )
      refl

-- The server has set the cookie of another user since.
abbrev pub set_since : Tab
set_since = record {
  jar = (codes "auth", sent_text) ∷ [];
  items = (codes "auth_user", stringify eve) ∷ [];
}
