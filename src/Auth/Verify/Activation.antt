-- ===== src/Auth/Verify/Activation.antt =====
-- A signup link that is good activates the account: the pending user becomes an active one, and
-- the token and the pending record are gone.
use temporal_cloud_offering.Prelude.{
  ℕ, suc, ◌≡◌, ◌≢◌, refl, ◌≤◌, ◌∙◌, true, false, some, none, arith,
}
use temporal_cloud_offering.Text.{Text, codes, non_empty}
use temporal_cloud_offering.Json.{Json, Fields, obj, fine, bool, num, member}
use temporal_cloud_offering.Json.Laws.{with_field, member-with_field_self, member-with_field_ne}
use temporal_cloud_offering.Json.Doc.{printed}
use temporal_cloud_offering.Platform.{Platform, KvLaws}
use temporal_cloud_offering.Platform.Exec.{World, done}
use temporal_cloud_offering.Auth.{Env, user_key, pending_key, verification_key}
use temporal_cloud_offering.Auth.Keys.{keys_disjoint}
use temporal_cloud_offering.Auth.Verify.{
  signup_kind, get_verify, email_verified, accept_signup, activate,
}
use temporal_cloud_offering.Auth.Verify.Token.{IsGoodToken, check_token_lem}
use temporal_cloud_offering.Auth.Verify.Laws.{is_signup}

abbrev verified : Text
verified = codes "verified"

abbrev verified_at : Text
verified_at = codes "verifiedAt"

verified_names : verified_at ≢ verified
verified_names = λ e. cc

-- The pending record with `verified` and `verifiedAt` written.
abbrev pub activated : Fields → ℕ → Fields
activated fs now =
    with_field (codes "verifiedAt") (num now) (with_field (codes "verified") (bool true) fs)

module _ (p : Platform) (token email : Text) (w : World p.Store) where
  -- What an activation leaves in KV, as seen at a time, and under another key.
  pub record IsActive (user : Json) (now : ℕ) (key : Text) (s : p.Store) : Type 0 where
    pub active : p.get now (user_key email) s ≡ some (printed user)
    pub not_pending : p.get now (pending_key email) s ≡ none
    pub token_used : p.get now (verification_key token) s ≡ none
    pub unchanged : p.get now key s ≡ p.get now key w.store

  -- A time behind the write of the user, and a key that an activation does not touch.
  pub record IsObserved (now : ℕ) (key : Text) : Type 0 where
    pub later : p.clock (suc (suc (suc (suc w.calls)))) ≤ now
    pub not_user : user_key email ≢ key
    pub not_pending : pending_key email ≢ key
    pub not_token : verification_key token ≢ key

  -- The store behind the three writes.
  moved : Json → p.Store
  moved user =
      p.delete (p.clock (suc (suc (suc (suc (suc (suc w.calls))))))) (verification_key token) (
        p.delete (p.clock (suc (suc (suc (suc (suc w.calls)))))) (pending_key email) (
          p.put (p.clock (suc (suc (suc (suc w.calls))))) (user_key email) (printed user) none
            w.store))

  moved-IsActive :
      (user : Json) (now : ℕ) (key : Text)
      → KvLaws p
      → IsObserved now key
      → IsActive user now key (moved user)
  unfolding moved
  moved-IsActive user now key laws o =
      let vp = (keys_disjoint token email).0 in
      let vu = (keys_disjoint token email).1 in
      let pu = (keys_disjoint email email).3 in
      record {
        active =
            laws.get-delete_ne _ now _ _ _ vu
            ∙ laws.get-delete_ne _ now _ _ _ pu
            ∙ laws.get-put_forever _ now _ _ _ o.later;
        not_pending = laws.get-delete_ne _ now _ _ _ vp ∙ laws.get-delete _ now _ _;
        token_used = laws.get-delete _ now _ _;
        unchanged =
            laws.get-delete_ne _ now _ _ _ o.not_token
            ∙ laws.get-delete_ne _ now _ _ _ o.not_pending
            ∙ laws.get-put_ne _ now _ _ _ _ _ o.not_user;
      }

  get_verify_run :
      (env : Env) (type : Text) (fs : Fields)
      → ((i : ℕ) → p.fault i ≡ false)
      → env.kv ≡ true
      → non_empty token ≡ true
      → non_empty email ≡ true
      → is_signup type ≡ true
      → IsGoodToken p signup_kind token email w
      → p.get (p.clock (suc (suc w.calls))) (pending_key email) w.store ≡ some (printed (obj fs))
      → get_verify p env token email type w ≡ (
        done (email_verified email),
        record w {
          calls = suc (suc (suc (suc (suc (suc (suc w.calls))))));
          store = moved (obj (activated fs (p.clock (suc (suc (suc w.calls))))));
        },
      )
  unfolding get_verify accept_signup activate moved
  get_verify_run env type fs ok kv nt ne kind good pending = ground (
    arith,
    check_token_lem p signup_kind token email (accept_signup p token email) w good (ok w.calls),
    ok (suc (suc w.calls)),
    ok (suc (suc (suc (suc w.calls)))),
    ok (suc (suc (suc (suc (suc w.calls))))),
    ok (suc (suc (suc (suc (suc (suc w.calls)))))),
  )

  -- A good signup link whose owner is a pending user, on a runtime where no call fails: it answers
  -- that the email is verified, and at any later time KV holds the active user, marked verified,
  -- neither the pending user nor the token, and under any other key what it held.
  pub signup_activates :
      (env : Env) (type : Text) (fs : Fields) (now : ℕ) (key : Text)
      → KvLaws p
      → ((i : ℕ) → p.fault i ≡ false)
      → env.kv ≡ true
      → non_empty token ≡ true
      → non_empty email ≡ true
      → is_signup type ≡ true
      → IsGoodToken p signup_kind token email w
      → p.get (p.clock (suc (suc w.calls))) (pending_key email) w.store ≡ some (printed (obj fs))
      → IsObserved now key
      → let (r, v) = get_verify p env token email type w in
        let user = obj (activated fs (p.clock (suc (suc (suc w.calls))))) in
        (r ≡ done (email_verified email))
        × IsActive user now key v.store
        × (member (some user) (codes "verified") ≡ fine (some (bool true)))
  signup_activates env type fs now key laws ok kv nt ne kind good pending observed =
      rw (get_verify_run env type fs ok kv nt ne kind good pending) (
        refl,
        moved-IsActive _ now key laws observed,
        member-with_field_ne verified_at verified (num _) _ verified_names
            ∙ member-with_field_self verified (bool true) fs,
      )
