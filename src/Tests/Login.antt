-- ===== src/Tests/Login.antt =====
-- Logins, and a Google callback.
use temporal_cloud_offering.Prelude.{ℕ, ◌≡◌, refl, ◌⊎◌, true, false, [], ◌∷◌, some, none}
use temporal_cloud_offering.Text.{Text, codes, lookup, non_empty, first_part}
use temporal_cloud_offering.Text.Hex.{to_hex}
use temporal_cloud_offering.Text.Utf8.{utf8}
use temporal_cloud_offering.Json.{
  Json, Value, str, obj, fine, object, member, Fields, literal, to_text,
}
use temporal_cloud_offering.Json.Doc.{printed}
use temporal_cloud_offering.Platform.Exec.{World, done}
use temporal_cloud_offering.Platform.Memory.{Entries}
use temporal_cloud_offering.Auth.{Env, user_key, hash_password, at}
use temporal_cloud_offering.Auth.Login.{
  post_login, auth_cookie, auth_data, logged_in, credentials_required,
}
use temporal_cloud_offering.Auth.Login.Laws.{post_login_accepts}
use temporal_cloud_offering.Auth.Deployed.{post_kv_login, check_user, kv_login, grant}
use temporal_cloud_offering.Auth.Deployed.Laws.{
  IsKnown, IsLogin, post_kv_login_sound, post_kv_login_complete,
}
use temporal_cloud_offering.Auth.Google.{get_callback}
use temporal_cloud_offering.Auth.Google.Laws.{Ends, get_callback-Ends}
use temporal_cloud_offering.Tests.{runtime, env, ann, secret, start}

abbrev pub other_secret : Text
other_secret = codes "abcdefgh"

abbrev pub email : Value
email = some (str ann)

abbrev pub password : Value
password = some (str secret)

abbrev pub new_password : Value
new_password = some (str other_secret)

abbrev pub login_input : Json
login_input = literal ((codes "email", email) ∷ (codes "password", password) ∷ [])

abbrev pub new_login : Json
new_login = literal ((codes "email", email) ∷ (codes "password", new_password) ∷ [])

post_login_accepts_example :
    let (r, v) = post_login runtime (printed login_input) (start []) in
    let user = auth_data email (str (first_part ann at)) in
    (((true ≡ true)
        × (true ≡ true)
        × (r ≡ done (logged_in user))
        × (v ≡ record (start []) {
          jar = (codes "auth", (auth_cookie user).value) ∷ [];
          set_cookies = auth_cookie user ∷ [];
        }))
      ⊎ (((true ≡ false) ⊎ (true ≡ false)) × (r ≡ done credentials_required) × (v ≡ start [])))
unfolding lookup
post_login_accepts_example =
    post_login_accepts runtime (printed login_input) login_input ann password (start []) refl refl
      refl

-- A user whose password is `secret`.
abbrev pub hash : Text
hash = hash_password runtime password

abbrev pub user : Fields
user = object ((codes "email", str ann) ∷ (codes "password", str hash) ∷ [])

abbrev pub user_kv : World Entries
user_kv = start ((codes "user:a@b", (printed (obj user), none)) ∷ [])

pub login_input-IsLogin : IsLogin runtime (printed login_input) email password
unfolding lookup
login_input-IsLogin = record {
  input = login_input;
  parsed = refl;
  email_given = refl;
  password_given = refl;
  email_ok = refl;
  password_ok = refl;
}

pub user_found : runtime.get 0 (user_key ann) user_kv.store ≡ some (printed (obj user))
unfolding lookup user_key
user_found = refl

pub user_hash : member (some (obj user)) (codes "password") ≡ fine (some (str hash))
unfolding lookup
user_hash = refl

pub user_name : member (some (obj user)) (codes "name") ≡ fine none
unfolding lookup
user_name = refl

hash-non_empty : non_empty hash ≡ true
unfolding hash_password to_hex utf8 to_text
hash-non_empty = refl

post_kv_login_complete_example :
    let (r, v) = post_kv_login runtime env (printed login_input) user_kv in
    (r ≡ done (logged_in (auth_data email (str (first_part ann at)))))
    × (v.set_cookies ≡ auth_cookie (auth_data email (str (first_part ann at))) ∷ [])
    × (v.store ≡ user_kv.store)
unfolding to_text
post_kv_login_complete_example =
    post_kv_login_complete runtime env (printed login_input) email password user_kv user none
      (str (first_part ann at)) refl login_input-IsLogin refl user_found user_hash hash-non_empty
      user_name refl

login_run : (post_kv_login runtime env (printed login_input) user_kv) ≡ (
  done (logged_in (auth_data email (str (first_part ann at)))),
  (post_kv_login runtime env (printed login_input) user_kv).1,
)
unfolding post_kv_login kv_login check_user grant lookup hash_password to_hex utf8 user_key to_text
login_run = refl

post_kv_login_sound_example :
    let status : ℕ = 200 in
    ((status ≡ 200) × IsKnown runtime email hash user_kv)
    ⊎ ((status ≡ 401)
        × ((post_kv_login runtime env (printed login_input) user_kv).1.set_cookies ≡ [])
        × ((post_kv_login runtime env (printed login_input) user_kv).1.store ≡ user_kv.store))
    ⊎ (status ≡ 500)
post_kv_login_sound_example =
    post_kv_login_sound runtime env (printed login_input) email password user_kv
      (post_kv_login runtime env (printed login_input) user_kv).1
      (logged_in (auth_data email (str (first_part ann at)))) refl login_input-IsLogin login_run

get_callback-Ends_example :
    Ends runtime env (start []) (get_callback runtime env (codes "code") [] (start []))
get_callback-Ends_example = get_callback-Ends runtime env (codes "code") [] (start [])

abbrev no_google : Env
no_google = record env { google_client_id = [] }
