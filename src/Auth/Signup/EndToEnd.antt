-- ===== src/Auth/Signup/EndToEnd.antt =====
-- From the signup to the active account: a signup whose mail is accepted leaves a token and a
-- pending user; the link of the mail, opened within a day, activates that user.
use temporal_cloud_offering.Prelude.{
  ℕ, suc, ◌+◌, ◌++◌, ◌≡◌, refl, ◌≤◌, ◌<◌, ◌∙◌, sym, true, false, [], ◌∷◌, some, none, arith, length,
  ap,
}
use temporal_cloud_offering.Text.{Text, codes, non_empty, lookup, ◌==◌}
use temporal_cloud_offering.Text.Hex.{to_hex}
use temporal_cloud_offering.Text.Hex.Laws.{non_empty-to_hex}
use temporal_cloud_offering.Json.{
  Json, Value, Fields, obj, str, num, fine, member, to_text, below, object, bool,
}
use temporal_cloud_offering.Json.Doc.{Doc, parse, printed}
use temporal_cloud_offering.Platform.{Platform, KvLaws}
use temporal_cloud_offering.Platform.Exec.{World, done}
use temporal_cloud_offering.Auth.{
  Env, user_key, pending_key, verification_key, generate_token, verify_link, display_name,
  hash_password,
}
use temporal_cloud_offering.Auth.Keys.{keys_disjoint}
use temporal_cloud_offering.Auth.Mail.{signup_html}
use temporal_cloud_offering.Auth.Signup.{
  post_signup, signup, validated, register, store_pending, announce, send_verification, lacks_at,
  too_short, mail_sent, verification_mail, user_record, token_record, day_ms, day_ttl,
}
use temporal_cloud_offering.Auth.Verify.{signup_kind, get_verify, email_verified}
use temporal_cloud_offering.Auth.Verify.Laws.{is_signup}
use temporal_cloud_offering.Auth.Verify.Activation.{
  IsActive, IsObserved, activated, signup_activates,
}
use temporal_cloud_offering.Auth.Verify.Token.{IsGoodToken}

pub lacks_at-non_empty : (s : Text) → lacks_at (some (str s)) ≡ fine false → non_empty s ≡ true
lacks_at-non_empty [] e = ground arith
lacks_at-non_empty (c ∷ s) e = refl

signup_named : is_signup (codes "signup") ≡ true
unfolding ◌==◌
signup_named = refl

module _ (p : Platform) (env : Env) (origin email link : Text) (name password : Value)
    (shown : Json) (w : World p.Store) where
  -- A request that passes the checks, for an email that has no account, on a runtime where no call
  -- fails and Resend accepts the mail.
  pub record IsAccepted (body : Doc) : Type 0 where
    pub input : Json
    pub parsed : parse body ≡ fine input
    pub email_given : member (some input) (codes "email") ≡ fine (some (str email))
    pub name_given : member (some input) (codes "name") ≡ fine name
    pub password_given : member (some input) (codes "password") ≡ fine password
    pub email_ok : lacks_at (some (str email)) ≡ fine false
    pub password_ok : too_short p password ≡ fine false
    pub named : display_name name (some (str email)) ≡ fine shown
    pub linked : verify_link origin (to_hex (p.random w.calls)) (some (str email)) ≡ fine link
    pub no_fault : (i : ℕ) → p.fault i ≡ false
    pub kv : env.kv ≡ true
    pub mail_configured : non_empty env.resend_api_key ≡ true
    pub mail_accepted :
        (i : ℕ)
        → (p.fetch i (
            verification_mail env.resend_api_key (some (str email)) (
              signup_html shown
                (link ++ codes "&type=signup")
                (p.year (p.clock (suc (suc (suc (suc (suc (suc w.calls))))))))))).ok
          ≡ true
    pub bytes_given : length (p.random w.calls) ≡ 32
    pub new_email : p.get (p.clock (suc (suc (suc w.calls)))) (user_key email) w.store ≡ none

  -- The token of the link, the pending user and the store after such a signup.
  abbrev pub new_token : Text
  new_token = to_hex (p.random w.calls)

  abbrev pub pending_user : Json
  pending_user =
      user_record (some (str email)) shown (hash_password p password) false
        (p.clock (suc (suc w.calls)))

  abbrev pub pending_fields : Fields
  pending_fields = object (
      (codes "email", str email)
      ∷ (codes "name", shown)
      ∷ (codes "password", str (hash_password p password))
      ∷ (codes "verified", bool false)
      ∷ (codes "createdAt", num (p.clock (suc (suc w.calls))))
      ∷ [])

  abbrev pub expires_at : ℕ
  expires_at = p.clock (suc w.calls) + day_ms

  pub pending_store : p.Store
  pending_store =
      p.put (p.clock (suc (suc (suc (suc (suc w.calls)))))) (pending_key email)
        (printed pending_user) (some day_ttl)
        (p.put (p.clock (suc (suc (suc (suc w.calls))))) (verification_key new_token)
          (printed (token_record (some (str email)) expires_at)) (some day_ttl) w.store)

  -- The run of such a signup.
  pub post_signup_run :
      (body : Doc)
      → IsAccepted body
      → post_signup p env origin body w ≡ (
        done mail_sent,
        record w {
          calls = suc (suc (suc (suc (suc (suc (suc (suc w.calls)))))));
          store = pending_store;
          sent =
              verification_mail env.resend_api_key (some (str email)) (
                signup_html shown
                  (link ++ codes "&type=signup")
                  (p.year (p.clock (suc (suc (suc (suc (suc (suc w.calls)))))))))
              ∷ w.sent;
        },
      )
  unfolding post_signup signup validated register generate_token store_pending announce
      send_verification pending_store to_text
  post_signup_run body a = ground (
    arith,
    a.parsed,
    a.email_given,
    a.name_given,
    a.password_given,
    a.email_ok,
    a.password_ok,
    a.named,
    a.linked,
    a.kv,
    a.mail_configured,
    a.new_email,
    a.no_fault (suc (suc (suc w.calls))),
    a.no_fault (suc (suc (suc (suc w.calls)))),
    a.no_fault (suc (suc (suc (suc (suc w.calls))))),
    a.no_fault (suc (suc (suc (suc (suc (suc (suc w.calls))))))),
    a.mail_accepted (suc (suc (suc (suc (suc (suc (suc w.calls))))))),
  )

  -- When the link is opened: after the signup, on a clock that does not run backwards, and before
  -- a day has passed at the third call of that run.
  pub record IsOpenedInTime (s : p.Store) (calls : ℕ) (u : World p.Store) : Type 0 where
    pub same_store : u.store ≡ s
    pub forwards : (i j : ℕ) → i ≤ j → p.clock i ≤ p.clock j
    pub after : calls ≤ u.calls
    pub in_time : p.clock (suc (suc u.calls)) < expires_at

  module _ (laws : KvLaws p) (u : World p.Store)
      (o : IsOpenedInTime pending_store
        (suc (suc (suc (suc (suc (suc (suc (suc w.calls))))))))
        u) where
    token_found :
        p.get (p.clock u.calls) (verification_key new_token) u.store
        ≡ some (printed (token_record (some (str email)) expires_at))
    unfolding pending_store
    token_found = rw o.same_store (
        laws.get-put_ne _ _ _ _ _ _ _ (λ e. (keys_disjoint new_token email).0 (sym e))
        ∙ laws.get-put _ _ _ _ _ _ (o.forwards _ u.calls (omega (arith, o.after))) (
            omega (
              arith,
              o.in_time,
              o.forwards u.calls (suc (suc u.calls)) (omega arith),
              o.forwards (suc w.calls) (suc (suc (suc (suc w.calls)))) (omega arith),
            )))

    pending_found :
        p.get (p.clock (suc (suc u.calls))) (pending_key email) u.store
        ≡ some (printed pending_user)
    unfolding pending_store
    pending_found = rw o.same_store (
        laws.get-put _ _ _ _ _ _ (o.forwards _ (suc (suc u.calls)) (omega (arith, o.after))) (
          omega (
            arith,
            o.in_time,
            o.forwards (suc w.calls) (suc (suc (suc (suc (suc w.calls))))) (omega arith),
          )))

    token-IsGoodToken : IsGoodToken p signup_kind new_token email u
    unfolding below lookup
    token-IsGoodToken = record {
      token_data = token_record (some (str email)) expires_at;
      found = token_found;
      owner = refl;
      expires_at = some (num expires_at);
      expiry = refl;
      fresh = ground (arith, o.in_time, o.forwards (suc u.calls) (suc (suc u.calls)));
    }

  -- With a KV, and where no call fails, a signup that passes the checks for an email without an
  -- account, and whose mail Resend accepts, answers that a mail was sent. Its token, opened in time
  -- as a signup link, is answered that the email is verified, and at any later time KV holds the
  -- user who signed up as active, neither the pending user nor the token, and under any other key
  -- what it held.
  pub signup_then_verify :
      (body : Doc) (u : World p.Store) (now : ℕ) (key : Text)
      → KvLaws p
      → IsAccepted body
      → IsOpenedInTime
          (post_signup p env origin body w).1.store
          (post_signup p env origin body w).1.calls
          u
      → IsObserved p new_token email u now key
      → let (r, v) = get_verify p env new_token email (codes "signup") u in
        ((post_signup p env origin body w).0 ≡ done mail_sent)
        × (r ≡ done (email_verified email))
        × IsActive p new_token email u
            (obj (activated pending_fields (p.clock (suc (suc (suc u.calls))))))
            now
            key
            v.store
  signup_then_verify body u now key laws a o observed =
      let o' = rw (post_signup_run body a) at o in
      let activation =
        signup_activates p new_token email u env (codes "signup") pending_fields now key laws
          a.no_fault a.kv (non_empty-to_hex (p.random w.calls) (omega (arith, a.bytes_given)))
          (lacks_at-non_empty email a.email_ok) signup_named (token-IsGoodToken laws u o')
          (pending_found laws u o') observed in
      (ap (λ x. x.0) (post_signup_run body a), activation.0, activation.1)
