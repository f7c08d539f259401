-- ===== src/Auth/Deployed/Laws.antt =====
-- The login of the committed Node build: who is let in, and that a stored user with the stored
-- password is.
use temporal_cloud_offering.Prelude.{◌≡◌, ◌⊎◌, inl, inr, true, false, ◌∷◌, some, arith, Bool-cases}
use temporal_cloud_offering.Text.{Text, codes, non_empty}
use temporal_cloud_offering.Text.Laws.{==_refl}
use temporal_cloud_offering.Json.{
  Json, Value, Fields, obj, str, fine, member, truthy, text_of, Try-cases, is_text, is_text-eq,
}
use temporal_cloud_offering.Json.Doc.{Doc, parse, printed, doc-cases}
use temporal_cloud_offering.Platform.{Platform}
use temporal_cloud_offering.Platform.Exec.{World, done}
use temporal_cloud_offering.Auth.{Env, Response, user_key, hash_password, display_name}
use temporal_cloud_offering.Auth.Login.{auth_cookie, auth_data, logged_in}
use temporal_cloud_offering.Auth.Deployed.{
  post_kv_login, kv_login, check_user, grant, invalid_credentials,
}

module _ (p : Platform) where
  -- KV holds, at the next call, a user record for that email with that hash.
  pub record IsKnown (email : Value) (hashed : Text) (w : World p.Store) : Type 0 where
    pub user : Json
    pub found : p.get (p.clock w.calls) (user_key (text_of email)) w.store ≡ some (printed user)
    pub owned : member (some user) (codes "password") ≡ fine (some (str hashed))

  is_known :
      {email : Value} {hashed : Text} {w : World p.Store} (user : Json)
      → p.get (p.clock w.calls) (user_key (text_of email)) w.store ≡ some (printed user)
      → member (some user) (codes "password") ≡ fine (some (str hashed))
      → IsKnown email hashed w
  is_known user found owned = record { user = user; found = found; owned = owned }

  check_user_cases :
      (email : Value) (hashed : Text) (w w' : World p.Store) (r : Response)
      → check_user p email hashed w ≡ (done r, w')
      → ((r ≡ invalid_credentials) × (w'.set_cookies ≡ w.set_cookies) × (w'.store ≡ w.store))
        ⊎ ((r.status ≡ 200) × IsKnown email hashed w)
  unfolding check_user grant
  check_user_cases email hashed w w' r e = elim (Bool-cases (p.fault w.calls)) [
    | inl f ↦ ground arith
    | inr f ↦ elim (doc-cases (p.get (p.clock w.calls) (user_key (text_of email)) w.store)) [
      | inl missing ↦ ground arith
      | inr (inl malformed) ↦ ground arith
      | inr (inr (j, found)) ↦ elim (Try-cases (member (some j) (codes "password"))) [
        | inl bad ↦ ground arith
        | inr (password, owned) ↦ elim (Bool-cases (is_text password hashed)) [
          | inr other ↦ ground arith
          | inl same ↦ ground (
            arith,
            is_known {email = email} {hashed = hashed} {w = w} j found
                (rw (← is_text-eq password hashed same) owned),
          )
        ]
      ]
    ]
  ]

  -- What a login names, and what it comes to.
  pub record IsLogin (body : Doc) (email password : Value) : Type 0 where
    pub input : Json
    pub parsed : parse body ≡ fine input
    pub email_given : member (some input) (codes "email") ≡ fine email
    pub password_given : member (some input) (codes "password") ≡ fine password
    pub email_ok : truthy email ≡ true
    pub password_ok : truthy password ≡ true

  module _ (env : Env) (body : Doc) (email password : Value) (w : World p.Store) where
    -- With a KV, a login of status 200 means a stored user with the hash of that password; a
    -- refusal with 401 changes nothing.
    pub post_kv_login_sound :
        (w' : World p.Store) (r : Response)
        → env.kv ≡ true
        → IsLogin body email password
        → post_kv_login p env body w ≡ (done r, w')
        → ((r.status ≡ 200) × IsKnown email (hash_password p password) w)
          ⊎ ((r.status ≡ 401) × (w'.set_cookies ≡ w.set_cookies) × (w'.store ≡ w.store))
          ⊎ (r.status ≡ 500)
    unfolding post_kv_login kv_login
    post_kv_login_sound w' r kv i e = ground (
      arith,
      i.parsed,
      i.email_given,
      i.password_given,
      i.email_ok,
      i.password_ok,
      check_user_cases email (hash_password p password) w w' r,
    )

    -- A stored user who gives the password that is stored for them is let in: the cookie carries
    -- their email and name.
    pub post_kv_login_complete :
        (fs : Fields) (name : Value) (shown : Json)
        → env.kv ≡ true
        → IsLogin body email password
        → p.fault w.calls ≡ false
        → p.get (p.clock w.calls) (user_key (text_of email)) w.store ≡ some (printed (obj fs))
        → member (some (obj fs)) (codes "password") ≡ fine (some (str (hash_password p password)))
        → non_empty (hash_password p password) ≡ true
        → member (some (obj fs)) (codes "name") ≡ fine name
        → display_name name email ≡ fine shown
        → let (r, v) = post_kv_login p env body w in
          (r ≡ done (logged_in (auth_data email shown)))
          × (v.set_cookies ≡ auth_cookie (auth_data email shown) ∷ w.set_cookies)
          × (v.store ≡ w.store)
    unfolding post_kv_login kv_login check_user grant
    post_kv_login_complete fs name shown kv i ok found owned hashed named display = ground (
      arith,
      i.parsed,
      i.email_given,
      i.password_given,
      i.email_ok,
      i.password_ok,
      ==_refl (hash_password p password),
    )
