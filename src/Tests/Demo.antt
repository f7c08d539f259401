-- ===== src/Tests/Demo.antt =====
-- A signup where no mail is configured.
use temporal_cloud_offering.Prelude.{ℕ, ◌≡◌, ◌++◌, refl, inl, true, [], ◌∷◌, some, arith}
use temporal_cloud_offering.Text.{Text, codes, lookup, includes}
use temporal_cloud_offering.Text.Hex.{to_hex}
use temporal_cloud_offering.Text.Utf8.{encode_uri_component}
use temporal_cloud_offering.Json.{Json, Value, str, fine, literal, below, to_text}
use temporal_cloud_offering.Json.Doc.{printed}
use temporal_cloud_offering.Platform.Exec.{World, done}
use temporal_cloud_offering.Platform.Memory.{Entries}
use temporal_cloud_offering.Auth.{Env, verify_link, user_key, hash_password}
use temporal_cloud_offering.Auth.Signup.{post_signup, account_created, user_record}
use temporal_cloud_offering.Auth.Signup.Demo.{IsNew, signup_without_mail}
use temporal_cloud_offering.Tests.{runtime, runtime_laws, env, site, ann, secret, start}

abbrev demo : Env
demo = record env { resend_api_key = [] }

abbrev password : Value
password = some (str secret)

abbrev ann_name : Json
ann_name = str (codes "Ann")

abbrev input : Json
input = literal (
    (codes "email", some (str ann))
    ∷ (codes "name", some ann_name)
    ∷ (codes "password", password)
    ∷ [])

abbrev empty_kv : World Entries
empty_kv = start []

abbrev link : Text
link = site ++ codes "/auth/verify?token=" ++ to_hex (runtime.random 0) ++ codes "&email=a%40b"

link_built : verify_link site (to_hex (runtime.random 0)) (some (str ann)) ≡ fine link
unfolding verify_link encode_uri_component to_text to_hex
link_built = refl

new : IsNew runtime demo site ann link (some ann_name) password ann_name empty_kv (printed input)
unfolding lookup includes below
new = record {
  input = input;
  parsed = refl;
  email_given = refl;
  name_given = refl;
  password_given = refl;
  email_ok = refl;
  password_ok = refl;
  named = refl;
  linked = link_built;
  no_fault = λ i. refl;
  forwards = λ i j le. le;
  kv = refl;
  new_email = refl;
}

abbrev later : ℕ
later = (post_signup runtime demo site (printed input) empty_kv).1.calls

signup_without_mail_example :
    ((post_signup runtime demo site (printed input) empty_kv).0 ≡ done account_created)
    × ((created_at : ℕ) × (runtime.get later
            (user_key ann)
            (post_signup runtime demo site (printed input) empty_kv).1.store
          ≡ some (
              printed (
                user_record
                  (some (str ann))
                  ann_name
                  (hash_password runtime password)
                  true
                  created_at))))
signup_without_mail_example =
    signup_without_mail runtime demo site ann link (some ann_name) password ann_name empty_kv
      (printed input) later runtime_laws new (inl refl) (omega arith)
