-- ===== src/Tests/BillingLinks.antt =====
-- A link of the billing service that is sent, opened, and opened again.
use temporal_cloud_offering.Prelude.{suc, ◌≡◌, refl, true, false, ltb, [], ◌∷◌, ◌++◌, none, some}
use temporal_cloud_offering.Text.{Text, codes, ◌==◌, non_empty, lookup, cut, first_part}
use temporal_cloud_offering.Text.Hex.{to_hex, hex_digit}
use temporal_cloud_offering.Billing.Keys.{Host, Tables}
use temporal_cloud_offering.Billing.MagicLink.{
  Settings, Link, Links, called, magic_link_url, mailed, auth_header, verify_magic_link,
}
use temporal_cloud_offering.Billing.MagicLink.Laws.{verify_magic_link_sound}
use temporal_cloud_offering.Tests.{no_fault, bytes, ann}

abbrev host : Host
host = record {
  fault = no_fault;
  clock = λ i. i;
  stored = λ t. t;
  random = λ i. some (bytes i);
  new_uuid = λ i. i ∷ [];
  parse_uuid = λ t. some t;
  sha256 = λ t. t;
  add_duration = λ t now. none;
  enable_auth = codes "false";
}

abbrev settings : Settings
settings = record {
  base_url = codes "https://app";
  resend_api_key = codes "key";
  marshal_user =
      λ email name. codes "{\"email\":\"" ++ (email ++ codes "\",\"provider\":\"email\"}");
  cookie_value = λ t. t;
  query_get = λ url key.
      first_part (elim (cut (key ++ codes "=") url) [ none ↦ [] | some (before, rest) ↦ rest ])
        (codes "&");
}

abbrev no_links : Links
no_links = record { calls = 0; magic_links = []; notices = [] }

abbrev token : Text
token = to_hex (bytes 0)

abbrev one_link : Links
one_link = record {
  calls = 3;
  magic_links = (ann, record { token = token; expires_at = 900000000000 }) ∷ [];
  notices = mailed ann (magic_link_url host settings token ann) ∷ [];
}

abbrev sent_message : Text
sent_message = codes "If this email is registered, you will receive a sign-in link."

abbrev nothing : Tables
nothing = record { calls = 0; organizations = []; api_keys = []; touches = [] }

abbrev link : Text
link = magic_link_url host settings token ann

link_opened : verify_magic_link host settings token ann one_link ≡ (
  (codes "/dashboard", some (auth_header host settings ann)),
  record (called host settings (called host settings one_link)) { magic_links = [] },
)
unfolding verify_magic_link to_hex hex_digit ◌==◌
link_opened = refl

verify_magic_link_sound_example :
    (link : Link) × ((lookup ann one_link.magic_links ≡ some link)
      × (link.token ≡ token)
      × (ltb link.expires_at (host.clock (suc one_link.calls)) ≡ false)
      × (codes "/dashboard" ≡ codes "/dashboard")
      × (auth_header host settings ann ≡ auth_header host settings ann)
      × (non_empty token ≡ true))
verify_magic_link_sound_example =
    verify_magic_link_sound host settings token ann one_link
      (record (called host settings (called host settings one_link)) { magic_links = [] })
      (codes "/dashboard") (auth_header host settings ann) link_opened
