-- ===== src/Tests/Verify.antt =====
-- Links that are opened: a magic link, and the link of a signup.
use temporal_cloud_offering.Prelude.{◌≡◌, refl, true, false, [], ◌∷◌, some, none, arith}
use temporal_cloud_offering.Text.{Text, codes, lookup, remove, ◌==◌}
use temporal_cloud_offering.Json.{str, obj, num, fine, object, member, bool, below, Fields}
use temporal_cloud_offering.Json.Doc.{Doc, printed}
use temporal_cloud_offering.Platform.Exec.{World, done}
use temporal_cloud_offering.Platform.Memory.{Entries}
use temporal_cloud_offering.Auth.{user_key, pending_key, verification_key, magic_link_key}
use temporal_cloud_offering.Auth.Signup.{token_record}
use temporal_cloud_offering.Auth.Verify.{
  check_token, accept_magic_link, get_verify, email_verified, signed_in, magic_link_kind,
  signup_kind,
}
use temporal_cloud_offering.Auth.Verify.Token.{IsGoodToken}
use temporal_cloud_offering.Auth.Verify.Laws.{get_verify_sound, magic_link_once, kind_of}
use temporal_cloud_offering.Auth.Verify.Activation.{
  IsActive, IsObserved, activated, signup_activates,
}
use temporal_cloud_offering.Tests.{runtime, runtime_laws, env, ann, start}

abbrev token : Text
token = codes "t"

-- A token that expires at time 50.
abbrev token_doc : Doc
token_doc = printed (token_record (some (str ann)) 50)

abbrev link_kv : World Entries
link_kv = start ((codes "magic_link:t", (token_doc, none)) ∷ [])

abbrev link : Text
link = codes "magic_link"

link-IsGoodToken : IsGoodToken runtime magic_link_kind token ann link_kv
unfolding lookup below magic_link_key
link-IsGoodToken = record {
  token_data = token_record (some (str ann)) 50;
  found = refl;
  owner = refl;
  expires_at = some (num 50);
  expiry = refl;
  fresh = refl;
}

not_signup : (codes "magic_link" == codes "signup") ≡ false
unfolding ◌==◌
not_signup = refl

-- The store behind the first use, seen later.
abbrev later : World Entries
later = record (get_verify runtime env token ann link link_kv).1 { calls = 20 }

magic_link_once_example :
    ((get_verify runtime env token ann link link_kv).0 ≡ done (signed_in ann))
    × ((get_verify runtime env token ann link later).0 ≡ done magic_link_kind.unknown)
magic_link_once_example =
    magic_link_once runtime env token ann link link_kv later runtime_laws refl refl refl not_signup
      link-IsGoodToken refl refl refl refl

abbrev spent_kv : World Entries
spent_kv = record link_kv { store = []; calls = 3 }

link_run : get_verify runtime env token ann link link_kv ≡ (done (signed_in ann), spent_kv)
unfolding get_verify lookup remove below magic_link_key check_token accept_magic_link
link_run = refl

get_verify_sound_example : IsGoodToken runtime (kind_of link) token ann link_kv
get_verify_sound_example =
    get_verify_sound runtime env token ann link link_kv spent_kv (signed_in ann) refl link_run refl

abbrev pending : Fields
pending = object ((codes "email", str ann) ∷ (codes "verified", bool false) ∷ [])

abbrev signup_kv : World Entries
signup_kv = start (
    (codes "verification:t", (token_doc, none))
    ∷ (codes "pending_user:a@b", (printed (obj pending), none))
    ∷ [])

signup-IsGoodToken : IsGoodToken runtime signup_kind token ann signup_kv
unfolding lookup below verification_key
signup-IsGoodToken = record {
  token_data = token_record (some (str ann)) 50;
  found = refl;
  owner = refl;
  expires_at = some (num 50);
  expiry = refl;
  fresh = refl;
}

pending_found : runtime.get 2 (pending_key ann) signup_kv.store ≡ some (printed (obj pending))
unfolding lookup pending_key
pending_found = refl

is_signup_named : (codes "signup" == codes "signup") ≡ true
unfolding ◌==◌
is_signup_named = refl

observed : IsObserved runtime token ann signup_kv 100 (codes "other")
unfolding user_key pending_key verification_key
observed = record {
  later = omega arith;
  not_user = λ e. cc;
  not_pending = λ e. cc;
  not_token = λ e. cc;
}

signup_activates_example :
    ((get_verify runtime env token ann (codes "signup") signup_kv).0 ≡ done (email_verified ann))
    × IsActive runtime token ann signup_kv
        (obj (activated pending 3))
        100
        (codes "other")
        (get_verify runtime env token ann (codes "signup") signup_kv).1.store
    × (member (some (obj (activated pending 3))) (codes "verified") ≡ fine (some (bool true)))
signup_activates_example =
    signup_activates runtime token ann signup_kv env (codes "signup") pending 100 (codes "other")
      runtime_laws (λ i. refl) refl refl refl is_signup_named signup-IsGoodToken pending_found
      observed
