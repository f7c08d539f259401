-- ===== src/Tests/Visits.antt =====
-- Visits of the pages, over the handlers of the site and a KV store in memory.
use temporal_cloud_offering.Prelude.{refl, inl, inr, false, [], ◌∷◌, Option, none, some}
use temporal_cloud_offering.Text.{Text, codes}
use temporal_cloud_offering.Text.Utf8.{encode_uri_component}
use temporal_cloud_offering.Json.{null, num, str, literal}
use temporal_cloud_offering.Json.Doc.{Doc, printed, malformed}
use temporal_cloud_offering.Platform.{Reply}
use temporal_cloud_offering.Platform.Exec.{Outcome}
use temporal_cloud_offering.Platform.Memory.{Entries}
use temporal_cloud_offering.Auth.{Response}
use temporal_cloud_offering.Auth.Verify.{get_verify}
use temporal_cloud_offering.Auth.Signup.{post_signup}
use temporal_cloud_offering.Auth.Login.{post_login}
use temporal_cloud_offering.Session.{Session}
use temporal_cloud_offering.Session.Memory.{Tab}
use temporal_cloud_offering.Pages.{answer, received}
use temporal_cloud_offering.Pages.Verify
use temporal_cloud_offering.Pages.Verify.{verify_url}
use temporal_cloud_offering.Pages.Verify.Laws.{IsSettled, verify_page_settles}
use temporal_cloud_offering.Pages.Signup
use temporal_cloud_offering.Pages.Signup.{signup_body, handle_signup}
use temporal_cloud_offering.Pages.Login
use temporal_cloud_offering.Pages.Login.{login_body, handle_email_login}
use temporal_cloud_offering.Tests.{runtime, env, site, ann, secret, start}
use temporal_cloud_offering.Tests.Session.{chrome, empty_tab}

-- What the site answers for a handler that threw.
abbrev crash : Reply
crash = record { ok = false; json = malformed (codes "Internal Error") }

abbrev link_token : Text
link_token = codes "0f"

abbrev mailbox : Entries
mailbox =
    (
      codes "magic_link:0f",
      (
        printed (
            literal
              ((codes "email", some (str ann)) ∷ (codes "expiresAt", some (num 900000)) ∷ [])),
        none,
      ),
    )
    ∷ []

abbrev nobody : Session Tab
nobody = record { page = empty_tab; user = null }

-- What the handler does with the link.
abbrev opened_link : Option (Outcome Response)
opened_link = some (get_verify runtime env link_token ann (codes "magic_link") (start mailbox)).0

abbrev answers_link : Text → Option Reply
answers_link url = received crash opened_link

verify_page_settles_example :
    IsSettled chrome answers_link ann [] nobody opened_link
      (Verify.on_mount chrome answers_link link_token ann [] nobody)
unfolding verify_url encode_uri_component
verify_page_settles_example =
    verify_page_settles chrome answers_link runtime env link_token ann [] (start mailbox) nobody
      crash opened_link (refl, inl refl) (inr refl) refl

abbrev new_form : Signup.Form
new_form = record {
  email = ann;
  name = codes "Ann";
  password = secret;
  confirm_password = secret;
  loading = false;
  error = str [];
  success = false;
  location = none;
}

abbrev answers_signup : Doc → Option Reply
answers_signup body = some (answer crash (post_signup runtime env site body (start [])).0)

abbrev old_form : Login.Form
old_form = record {
  email = ann;
  password = secret;
  loading = false;
  error = str [];
  goes_to = none;
}

abbrev answers_login : Doc → Option Reply
answers_login body = some (answer crash (post_login runtime body (start [])).0)
