-- ===== src/Tests/Links.antt =====
-- A magic link from its request to its use, the keys, and tokens.
use temporal_cloud_offering.Prelude.{ℕ, ◌++◌, ◌≡◌, refl, false, [], ◌∷◌, some, List, arith, All}
use temporal_cloud_offering.Text.{Text, codes, lookup, includes, ◌==◌}
use temporal_cloud_offering.Text.Hex.{to_hex}
use temporal_cloud_offering.Text.Hex.Laws.{IsByte}
use temporal_cloud_offering.Text.Utf8.{encode_uri_component}
use temporal_cloud_offering.Json.{Json, str, fine, literal, to_text}
use temporal_cloud_offering.Json.Doc.{printed}
use temporal_cloud_offering.Platform.Exec.{World, done}
use temporal_cloud_offering.Platform.Memory.{Entries}
use temporal_cloud_offering.Auth.{verify_link}
use temporal_cloud_offering.Auth.MagicLink.{post_magic_link, link_sent}
use temporal_cloud_offering.Auth.MagicLink.EndToEnd.{
  IsRequested, IsOpenedInTime, magic_link_then_verify,
}
use temporal_cloud_offering.Auth.Verify.{get_verify, signed_in, magic_link_kind}
use temporal_cloud_offering.Tests.{runtime, runtime_laws, env, site, ann, start}

abbrev input : Json
input = literal ((codes "email", some (str ann)) ∷ [])

abbrev empty_kv : World Entries
empty_kv = start []

abbrev token : Text
token = to_hex (runtime.random 0)

abbrev link : Text
link = site ++ codes "/auth/verify?token=" ++ token ++ codes "&email=a%40b"

link_built : verify_link site (to_hex (runtime.random 0)) (some (str ann)) ≡ fine link
unfolding verify_link encode_uri_component to_text to_hex
link_built = refl

requested : IsRequested runtime env site ann link empty_kv (printed input)
unfolding lookup includes
requested = record {
  input = input;
  parsed = refl;
  email_given = refl;
  email_ok = refl;
  linked = link_built;
  no_fault = λ i. refl;
  kv = refl;
  bytes_given = refl;
}

abbrev opened : World Entries
opened = record (post_magic_link runtime env site (printed input) empty_kv).1 { calls = 8 }

opened-IsOpenedInTime : IsOpenedInTime runtime env site ann link empty_kv opened
opened-IsOpenedInTime = record {
  forwards = λ i j le. le;
  after = omega arith;
  in_time = omega arith;
}

abbrev spent : World Entries
spent = record (get_verify runtime env token ann [] opened).1 { calls = 20 }

not_signup : (codes "magic_link" == codes "signup") ≡ false
unfolding ◌==◌
not_signup = refl

magic_link_then_verify_example :
    ((post_magic_link runtime env site (printed input) empty_kv).0 ≡ done link_sent)
    × ((get_verify runtime env token ann [] opened).0 ≡ done (signed_in ann))
    × ((get_verify runtime env token ann [] spent).0 ≡ done magic_link_kind.unknown)
magic_link_then_verify_example =
    magic_link_then_verify runtime env site ann link empty_kv (printed input) [] opened spent
      runtime_laws requested opened-IsOpenedInTime not_signup refl refl

abbrev two : List ℕ
two = 7 ∷ 255 ∷ []

two-IsByte : All IsByte two
two-IsByte = (omega arith, (omega arith, tt))
