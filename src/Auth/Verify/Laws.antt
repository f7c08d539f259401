-- ===== src/Auth/Verify/Laws.antt =====
-- GET /api/auth/verify: when a token is accepted, and a second use of it.
use temporal_cloud_offering.Prelude.{
  suc, ◌≡◌, inl, inr, Bool, true, false, arith, Bool-cases, if◌then◌else◌,
}
use temporal_cloud_offering.Text.{Text, codes, ◌==◌, non_empty, or_else}
use temporal_cloud_offering.Platform.{Platform, KvLaws}
use temporal_cloud_offering.Platform.Exec.{World, done}
use temporal_cloud_offering.Auth.{Response, Env, magic_link_key}
use temporal_cloud_offering.Auth.Verify.{
  Kind, signup_kind, magic_link_kind, get_verify, signed_in, accept_signup, accept_magic_link,
}
use temporal_cloud_offering.Auth.Verify.Token.{
  IsGoodToken, check_token_lem, check_token_unknown, check_token_cases,
}

-- Whether a link names the kind of a signup.
abbrev pub is_signup : Text → Bool
is_signup type = or_else type (codes "magic_link") == codes "signup"

abbrev pub kind_of : Text → Kind
kind_of type = if is_signup type then signup_kind else magic_link_kind

module _ (p : Platform) (env : Env) (token email type : Text) where
  -- With a KV, an answer of status 200 means a good token of the kind that the link names.
  pub get_verify_sound :
      (w w' : World p.Store) (r : Response)
      → env.kv ≡ true
      → get_verify p env token email type w ≡ (done r, w')
      → r.status ≡ 200
      → IsGoodToken p (kind_of type) token email w
  unfolding get_verify
  get_verify_sound w w' r kv e ok = elim (Bool-cases (is_signup type)) [
    | inl s ↦
        ground
          (arith, check_token_cases p signup_kind token email (accept_signup p token email) w w' r)
    | inr s ↦ ground (
      arith,
      check_token_cases p magic_link_kind token email (accept_magic_link p token email) w w' r,
    )
  ]

  -- A good magic link signs its owner in, on a runtime where the read and the deletion do not
  -- fail, and a later run on the store it leaves, whose read does not fail, is refused.
  pub magic_link_once :
      (w v : World p.Store)
      → KvLaws p
      → env.kv ≡ true
      → non_empty token ≡ true
      → non_empty email ≡ true
      → is_signup type ≡ false
      → IsGoodToken p magic_link_kind token email w
      → p.fault w.calls ≡ false
      → p.fault (suc (suc w.calls)) ≡ false
      → v.store ≡ (get_verify p env token email type w).1.store
      → p.fault v.calls ≡ false
      → ((get_verify p env token email type w).0 ≡ done (signed_in email))
        × ((get_verify p env token email type v).0 ≡ done magic_link_kind.unknown)
  unfolding get_verify accept_magic_link
  magic_link_once w v laws kv nt ne k g f f' same ok =
      let once =
        check_token_lem p magic_link_kind token email (accept_magic_link p token email) w g f in
      (
        ground (arith, once),
        ground (
          arith,
          once,
          check_token_unknown p magic_link_kind token email (accept_magic_link p token email) v,
          laws.get-delete (p.clock (suc (suc w.calls))) (p.clock v.calls) (magic_link_key token)
              w.store,
        ),
      )
