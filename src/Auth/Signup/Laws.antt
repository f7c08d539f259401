-- ===== src/Auth/Signup/Laws.antt =====
-- What POST /api/auth/signup promises on every path.
use temporal_cloud_offering.Prelude.{
  ℕ, suc, ◌+◌, ◌++◌, ◌≡◌, refl, ◌⊎◌, inl, inr, true, false, arith,
}
use temporal_cloud_offering.Text.{Text, codes}
use temporal_cloud_offering.Text.Hex.{to_hex}
use temporal_cloud_offering.Json.{Value, Json, Try-cases}
use temporal_cloud_offering.Json.Doc.{Doc}
use temporal_cloud_offering.Platform.{Platform}
use temporal_cloud_offering.Platform.Exec.{World, Outcome, done, thrown}
use temporal_cloud_offering.Auth.{
  Env, Response, verify_link, generate_token, hash_password, display_name,
}
use temporal_cloud_offering.Auth.Signup.{
  store_pending, send_verification, create_verified, register, announce, validated, lacks_at,
  too_short, signup, day_ms, user_record, post_signup, account_exists, account_created, mail_sent,
  invalid_email, short_password, signup_failed,
}

module _ (p : Platform) (env : Env) where
  create_verified-done :
      (email name : Value) (hashed : Text) (w w' : World p.Store) (r : Response)
      → create_verified p env email name hashed w ≡ (done r, w')
      → (r ≡ account_created) × (w'.sent ≡ w.sent)
  unfolding create_verified
  create_verified-done email name hashed w w' r e = ground arith

  store_pending-done :
      (email : Value) (token : Text) (expires_at : ℕ) (pending : Json) (w w' : World p.Store)
      → store_pending p email token expires_at pending w ≡ (done true, w')
      → w' ≡ record w { calls = suc w.calls }
  unfolding store_pending
  store_pending-done email token expires_at pending w w' e = ground arith

  announce-done :
      (origin : Text) (email name : Value) (hashed token : Text) (w w' : World p.Store)
      (r : Response)
      → announce p env origin email name hashed token w ≡ (done r, w')
      → (r ≡ account_created) ⊎ (r ≡ mail_sent)
  unfolding announce
  announce-done origin email name hashed token w w' r e =
      elim (Try-cases (verify_link origin token email)) [
        | inl bad ↦ ground arith
        | inr (link, built) ↦
            let sent = send_verification p env email name (link ++ codes "&type=signup") w in
            ground (arith, create_verified-done email name hashed sent.1 w' r)
      ]

  pub register-done :
      (origin : Text) (email name password : Value) (w w' : World p.Store) (r : Response)
      → register p env origin email name password w ≡ (done r, w')
      → (r ≡ account_created)
        ⊎ (r ≡ mail_sent)
        ⊎ ((r ≡ account_exists) × (w'.store ≡ w.store) × (w'.sent ≡ w.sent))
  unfolding register generate_token
  register-done origin email name password w w' r e = elim (Try-cases (display_name name email)) [
    | inl bad ↦ ground arith
    | inr (shown, named) ↦
        let token = to_hex (p.random w.calls) in
        let hashed = hash_password p password in
        let u = record w { calls = suc (suc (suc w.calls)) } in
        let expires = p.clock (suc w.calls) + day_ms in
        let pending = user_record email shown hashed false (p.clock (suc (suc w.calls))) in
        let reserved = store_pending p email token expires pending u in
        ground (
          arith,
          store_pending-done email token expires pending u reserved.1,
          announce-done origin email name hashed token u w' r,
          announce-done origin email name hashed token reserved.1 w' r,
        )
  ]

  -- How a run of the `try` block ends: with an account, with a mail, or with a refusal that has
  -- written nothing and sent nothing.
  abbrev pub Settled : World p.Store → Outcome Response × World p.Store → Type 0
  Settled w (done r, v) =
      (r ≡ account_created)
      ⊎ (r ≡ mail_sent)
      ⊎ (((r ≡ account_exists) ⊎ (r ≡ invalid_email) ⊎ (r ≡ short_password))
          × (v.store ≡ w.store)
          × (v.sent ≡ w.sent))
  Settled w (thrown e, v) = Unit

  register-Settled :
      (origin : Text) (email name password : Value) (w : World p.Store)
      → Settled w (register p env origin email name password w)
  register-Settled origin email name password w =
      let run = register p env origin email name password w in settle run.0 run.1 refl
    where
      settle :
          (o : Outcome Response) (v : World p.Store)
          → register p env origin email name password w ≡ (o, v)
          → Settled w (o, v)
      settle (done r) v e = ground (arith, register-done origin email name password w v r)
      settle (thrown x) v e = tt

  validated-Settled :
      (origin : Text) (email name password : Value) (w : World p.Store)
      → Settled w (validated p env origin email name password w)
  unfolding validated
  validated-Settled origin email name password w = elim (Try-cases (lacks_at email)) [
    | inl bad ↦ ground arith
    | inr (lacks, e) ↦ elim (Try-cases (too_short p password)) [
      | inl bad ↦ ground arith
      | inr (short, e') ↦ ground (arith, register-Settled origin email name password w)
    ]
  ]

  signup-Settled :
      (origin : Text) (body : Doc) (w : World p.Store) → Settled w (signup p env origin body w)
  unfolding signup
  signup-Settled origin body w = grind (arith, validated-Settled)

  -- Signup answers every request, with 200, 400 or 500; an answer of 400 has changed nothing in KV
  -- and sent nothing.
  pub post_signup_answers :
      (origin : Text) (body : Doc) (w : World p.Store)
      → (r : Response) × (v : World p.Store) × (post_signup p env origin body w ≡ (done r, v))
        × ((r.status ≡ 200)
            ⊎ (r.status ≡ 500)
            ⊎ ((r.status ≡ 400) × (v.store ≡ w.store) × (v.sent ≡ w.sent)))
  unfolding post_signup
  post_signup_answers origin body w = answer (signup p env origin body w) refl
    where
      answer :
          (o : Outcome Response × World p.Store)
          → signup p env origin body w ≡ o
          → (r : Response) × (v : World p.Store) × (post_signup p env origin body w ≡ (done r, v))
            × ((r.status ≡ 200)
                ⊎ (r.status ≡ 500)
                ⊎ ((r.status ≡ 400) × (v.store ≡ w.store) × (v.sent ≡ w.sent)))
      answer (done r, v) e = (r, v, rw e refl, ground (arith, signup-Settled origin body w))
      answer (thrown x, v) e = (signup_failed, v, rw e refl, ground arith)
