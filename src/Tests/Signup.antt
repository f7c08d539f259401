-- ===== src/Tests/Signup.antt =====
-- The signup, from the request to the active account.
use temporal_cloud_offering.Prelude.{◌++◌, ◌≡◌, ◌⊎◌, refl, [], ◌∷◌, some, arith}
use temporal_cloud_offering.Text.{Text, codes, lookup, includes}
use temporal_cloud_offering.Text.Hex.{to_hex}
use temporal_cloud_offering.Text.Utf8.{encode_uri_component}
use temporal_cloud_offering.Json.{Json, Value, str, obj, fine, literal, below, to_text}
use temporal_cloud_offering.Json.Doc.{printed}
use temporal_cloud_offering.Platform.Exec.{World, done}
use temporal_cloud_offering.Platform.Memory.{Entries}
use temporal_cloud_offering.Auth.{Response, user_key, pending_key, verification_key, verify_link}
use temporal_cloud_offering.Auth.Signup.{post_signup, mail_sent}
use temporal_cloud_offering.Auth.Signup.Laws.{post_signup_answers}
use temporal_cloud_offering.Auth.Signup.EndToEnd.{
  IsAccepted, IsOpenedInTime, post_signup_run, pending_store, new_token, pending_fields,
  signup_then_verify,
}
use temporal_cloud_offering.Auth.Verify.{get_verify, email_verified}
use temporal_cloud_offering.Auth.Verify.Activation.{IsActive, IsObserved, activated}
use temporal_cloud_offering.Tests.{runtime, runtime_laws, env, site, ann, secret, start}

abbrev input : Json
input = literal (
    (codes "email", some (str ann))
    ∷ (codes "name", some (str (codes "Ann")))
    ∷ (codes "password", some (str secret))
    ∷ [])

abbrev name : Value
name = some (str (codes "Ann"))

abbrev password : Value
password = some (str secret)

abbrev empty_kv : World Entries
empty_kv = start []

abbrev link : Text
link =
    site
    ++ codes "/auth/verify?token="
    ++ new_token runtime env site ann [] name password (str []) empty_kv
    ++ codes "&email=a%40b"

link_built : verify_link site (to_hex (runtime.random 0)) (some (str ann)) ≡ fine link
unfolding verify_link encode_uri_component to_text to_hex
link_built = refl

accepted :
    IsAccepted runtime env site ann link name password (str (codes "Ann")) empty_kv (printed input)
unfolding lookup includes below
accepted = record {
  input = input;
  parsed = refl;
  email_given = refl;
  name_given = refl;
  password_given = refl;
  email_ok = refl;
  password_ok = refl;
  named = refl;
  linked = link_built;
  no_fault = λ i. refl;
  kv = refl;
  mail_configured = refl;
  mail_accepted = λ i. refl;
  bytes_given = refl;
  new_email = refl;
}

-- The link is opened on the store that the signup leaves.
abbrev opened : World Entries
opened = record {
  store = pending_store runtime env site ann link name password (str (codes "Ann")) empty_kv;
  calls = 8;
  jar = [];
  set_cookies = [];
  sent = [];
}

opened-IsOpenedInTime :
    IsOpenedInTime runtime env site ann link name password
      (str (codes "Ann"))
      empty_kv
      (post_signup runtime env site (printed input) empty_kv).1.store
      (post_signup runtime env site (printed input) empty_kv).1.calls
      opened
opened-IsOpenedInTime =
    rw
      (post_signup_run runtime env site ann link name password (str (codes "Ann")) empty_kv
        (printed input) accepted)
      (record {
        same_store = refl;
        forwards = λ i j le. le;
        after = omega arith;
        in_time = omega arith;
      })

abbrev token : Text
token = new_token runtime env site ann link name password (str (codes "Ann")) empty_kv

observed : IsObserved runtime token ann opened 100 (codes "other")
unfolding user_key pending_key verification_key
observed = record {
  later = omega arith;
  not_user = λ e. cc;
  not_pending = λ e. cc;
  not_token = λ e. cc;
}

signup_then_verify_example :
    ((post_signup runtime env site (printed input) empty_kv).0 ≡ done mail_sent)
    × ((get_verify runtime env token ann (codes "signup") opened).0 ≡ done (email_verified ann))
    × IsActive runtime token ann opened
        (obj (
          activated
            (pending_fields runtime env site ann link name password (str (codes "Ann")) empty_kv)
            11))
        100
        (codes "other")
        (get_verify runtime env token ann (codes "signup") opened).1.store
signup_then_verify_example =
    signup_then_verify runtime env site ann link name password (str (codes "Ann")) empty_kv
      (printed input) opened 100 (codes "other") runtime_laws accepted opened-IsOpenedInTime
      observed

post_signup_answers_example :
    (r : Response) × (v : World Entries) × (post_signup runtime env site (printed input) empty_kv
      ≡ (done r, v))
    × ((r.status ≡ 200) ⊎ (r.status ≡ 500) ⊎ ((r.status ≡ 400) × (v.store ≡ []) × (v.sent ≡ [])))
post_signup_answers_example = post_signup_answers runtime env site (printed input) empty_kv
