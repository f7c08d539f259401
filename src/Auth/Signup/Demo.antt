-- ===== src/Auth/Signup/Demo.antt =====
-- The signup without an accepted mail: the account is created at once, as verified.
use temporal_cloud_offering.Prelude.{
  ℕ, suc, ◌+◌, ◌≡◌, ◌≤◌, ◌⊎◌, inl, inr, true, false, some, none, arith, ◌++◌,
}
use temporal_cloud_offering.Text.{Text, codes, non_empty}
use temporal_cloud_offering.Text.Hex.{to_hex}
use temporal_cloud_offering.Json.{Json, Value, str, fine, member, to_text}
use temporal_cloud_offering.Json.Doc.{Doc, parse, printed}
use temporal_cloud_offering.Platform.{Platform, KvLaws, Request}
use temporal_cloud_offering.Platform.Exec.{World, done}
use temporal_cloud_offering.Auth.{
  Env, user_key, generate_token, verify_link, display_name, hash_password,
}
use temporal_cloud_offering.Auth.Mail.{signup_html}
use temporal_cloud_offering.Auth.Signup.{
  post_signup, signup, validated, register, store_pending, announce, send_verification,
  create_verified, lacks_at, too_short, account_created, user_record, day_ms, verification_mail,
}

module _ (p : Platform) (env : Env) (origin email link : Text) (name password : Value)
    (shown : Json) (w : World p.Store) where
  -- A request that passes the checks, for an email that has no account, on a runtime where no call
  -- fails and whose clock does not run backwards.
  pub record IsNew (body : Doc) : Type 0 where
    pub input : Json
    pub parsed : parse body ≡ fine input
    pub email_given : member (some input) (codes "email") ≡ fine (some (str email))
    pub name_given : member (some input) (codes "name") ≡ fine name
    pub password_given : member (some input) (codes "password") ≡ fine password
    pub email_ok : lacks_at (some (str email)) ≡ fine false
    pub password_ok : too_short p password ≡ fine false
    pub named : display_name name (some (str email)) ≡ fine shown
    pub linked : verify_link origin (to_hex (p.random w.calls)) (some (str email)) ≡ fine link
    pub no_fault : (i : ℕ) → p.fault i ≡ false
    pub forwards : (i j : ℕ) → i ≤ j → p.clock i ≤ p.clock j
    pub kv : env.kv ≡ true
    pub new_email : p.get (p.clock (suc (suc (suc w.calls)))) (user_key email) w.store ≡ none

  -- No mail is configured, or Resend refuses every mail.
  abbrev pub IsWithoutMail : Type 0
  IsWithoutMail =
      (non_empty env.resend_api_key ≡ false)
      ⊎ ((non_empty env.resend_api_key ≡ true) × ((i : ℕ) (r : Request) → (p.fetch i r).ok ≡ false))

  -- What create_verified leaves.
  create_verified-user :
      (hashed : Text) (v : World p.Store) (now : ℕ)
      → KvLaws p
      → ((i : ℕ) → p.fault i ≡ false)
      → ((i j : ℕ) → i ≤ j → p.clock i ≤ p.clock j)
      → env.kv ≡ true
      → display_name name (some (str email)) ≡ fine shown
      → let (r, v') = create_verified p env (some (str email)) name hashed v in
        p.clock v'.calls ≤ now
        → (r ≡ done account_created)
          × (p.get now (user_key email) v'.store
              ≡ some (printed (user_record (some (str email)) shown hashed true (p.clock v.calls))))
  unfolding create_verified to_text
  create_verified-user hashed v now laws ok forwards kv named late = ground (
    arith,
    ok (suc v.calls),
    forwards (suc v.calls) (suc (suc v.calls)),
    laws.get-put_forever (p.clock (suc v.calls)) now (user_key email)
        (printed (user_record (some (str email)) shown hashed true (p.clock v.calls))) v.store,
  )

  send_verification-unsent :
      (url : Text) (v : World p.Store)
      → ((i : ℕ) → p.fault i ≡ false)
      → display_name name (some (str email)) ≡ fine shown
      → IsWithoutMail
      → (send_verification p env (some (str email)) name url v).0 ≡ done false
  unfolding send_verification
  send_verification-unsent url v ok named (inl unconfigured) = ground arith
  send_verification-unsent url v ok named (inr (configured, refused)) = ground (
    arith,
    ok (suc v.calls),
    ok (suc (suc v.calls)),
    refused (suc v.calls) (
        verification_mail env.resend_api_key (some (str email))
          (signup_html shown url (p.year (p.clock v.calls)))),
  )

  -- The state behind the two writes of store_pending.
  abbrev reserved : World p.Store
  reserved =
      (store_pending p (some (str email)) (to_hex (p.random w.calls))
        (p.clock (suc w.calls) + day_ms)
        (user_record (some (str email)) shown (hash_password p password) false
          (p.clock (suc (suc w.calls))))
        (record w { calls = suc (suc (suc w.calls)) })).1

  abbrev unsent : World p.Store
  unsent =
      (send_verification p env (some (str email)) name (link ++ codes "&type=signup") reserved).1

  store_pending-reserves :
      (body : Doc)
      → IsNew body
      → (store_pending p
          (some (str email))
          (to_hex (p.random w.calls))
          (p.clock (suc w.calls) + day_ms)
          (user_record
            (some (str email))
            shown
            (hash_password p password)
            false
            (p.clock (suc (suc w.calls))))
          (record w { calls = suc (suc (suc w.calls)) })).0
        ≡ done false
  unfolding store_pending to_text
  store_pending-reserves body a = ground (
    arith,
    a.new_email,
    a.no_fault (suc (suc (suc w.calls))),
    a.no_fault (suc (suc (suc (suc w.calls)))),
    a.no_fault (suc (suc (suc (suc (suc w.calls))))),
  )

  post_signup-create_verified :
      (body : Doc)
      → IsNew body
      → IsWithoutMail
      → (create_verified p env (some (str email)) name (hash_password p password) unsent).0
        ≡ done account_created
      → post_signup p env origin body w
        ≡ create_verified p env (some (str email)) name (hash_password p password) unsent
  unfolding post_signup signup validated register generate_token announce
  post_signup-create_verified body a no_mail created = ground (
    arith,
    a.parsed,
    a.email_given,
    a.name_given,
    a.password_given,
    a.email_ok,
    a.password_ok,
    a.named,
    a.linked,
    a.kv,
    store_pending-reserves body a,
    send_verification-unsent (link ++ codes "&type=signup") reserved a.no_fault a.named no_mail,
    created,
  )

  create_verified-created :
      (body : Doc)
      → IsNew body
      → (create_verified p env (some (str email)) name (hash_password p password) unsent).0
        ≡ done account_created
  unfolding create_verified
  create_verified-created body a = ground (arith, a.kv, a.named, a.no_fault (suc unsent.calls))

  -- With a KV, and where no call fails, a signup that passes the checks for an email without an
  -- account, and whose mail is not sent, since none is configured or Resend refuses it, is answered
  -- that the account is created, and at any later time KV holds the user, marked verified, with
  -- the hash of the password.
  pub signup_without_mail :
      (body : Doc) (now : ℕ)
      → KvLaws p
      → IsNew body
      → IsWithoutMail
      → p.clock (post_signup p env origin body w).1.calls ≤ now
      → ((post_signup p env origin body w).0 ≡ done account_created)
        × ((created_at : ℕ) × (p.get now (user_key email) (post_signup p env origin body w).1.store
              ≡ some (
                  printed (
                    user_record
                      (some (str email))
                      shown
                      (hash_password p password)
                      true
                      created_at))))
  signup_without_mail body now laws a no_mail late =
      let run = post_signup-create_verified body a no_mail (create_verified-created body a) in
      let user =
        create_verified-user (hash_password p password) unsent now laws a.no_fault a.forwards a.kv
          a.named (rw run at late) in
      rw run (user.0, (p.clock unsent.calls, user.1))
