-- ===== src/Pages/Signup/Laws.antt =====
-- The page /signup on the answers of POST /api/auth/signup: its own check of the password agrees
-- with the handler's, and it shows what the handler did.
use temporal_cloud_offering.Prelude.{
  ℕ, ◌≤◌, ◌≡◌, ◌≢◌, refl, ap, ◌∙◌, ◌⊎◌, inl, inr, true, false, [], ◌∷◌, Option, none, some, arith,
  Bool-cases, ltb, length,
}
use temporal_cloud_offering.Text.{Text, codes, lookup, ◌==◌}
use temporal_cloud_offering.Json.{str, fine, Try-cases, below}
use temporal_cloud_offering.Json.Doc.{Doc}
use temporal_cloud_offering.Platform.{Platform, Reply}
use temporal_cloud_offering.Platform.Exec.{Outcome, World, done, Outcome-cases}
use temporal_cloud_offering.Auth.{Env, Response, error_response}
use temporal_cloud_offering.Auth.Signup.{
  lacks_at, too_short, validated, signup, post_signup, account_created, mail_sent, account_exists,
  invalid_email, signup_failed, short_password,
}
use temporal_cloud_offering.Auth.Signup.Laws.{register-done}
use temporal_cloud_offering.Pages.{answer}
use temporal_cloud_offering.Pages.Signup.{Form, signup_body, handle_signup, try_signup, finish}

-- The answers to a form that passed the page's check: never that the password is too short.
abbrev pub IsReached : Response → Type 0
IsReached r =
    (r ≡ account_created)
    ⊎ (r ≡ mail_sent)
    ⊎ (r ≡ account_exists)
    ⊎ (r ≡ invalid_email)
    ⊎ (r ≡ signup_failed)

long_enough :
    (p : Platform) (s : Text) → ltb (length s) 8 ≡ false → too_short p (some (str s)) ≡ fine false
unfolding below
long_enough p [] long = absurd (ground arith)
long_enough p (c ∷ s) long = ap fine long

module _ (p : Platform) (env : Env) (origin : Text) (form : Form) where
  validated-IsReached :
      (w w' : World p.Store) (r : Response)
      → ltb (length form.password) 8 ≡ false
      → validated p env origin
          (some (str form.email))
          (some (str form.name))
          (some (str form.password))
          w
        ≡ (done r, w')
      → IsReached r
  unfolding validated below
  validated-IsReached w w' r long e = elim (Try-cases (lacks_at (some (str form.email)))) [
    | inl bad ↦ ground arith
    | inr (lacks, found) ↦ elim (Bool-cases lacks) [
      | inl invalid ↦ inr (inr (inr (inl (ground arith))))
      | inr valid ↦
          let registered =
            register-done p env origin (some (str form.email)) (some (str form.name))
              (some (str form.password)) w w' r in
          ground (arith, registered, long_enough p form.password long)
    ]
  ]

  pub post_signup-IsReached :
      (w : World p.Store)
      → ltb (length form.password) 8 ≡ false
      → (r : Response) × ((post_signup p env origin (signup_body form) w).0 ≡ done r) × IsReached r
  unfolding post_signup signup lookup ◌==◌
  post_signup-IsReached w long =
      elim (Outcome-cases (
        validated p env origin (some (str form.email)) (some (str form.name))
          (some (str form.password)) w)) [
            | inl (r, w', ran) ↦ (r, rw ran refl, validated-IsReached w w' r long ran)
            | inr (x, w', threw) ↦ (signup_failed, rw threw refl, inr (inr (inr (inr refl))))
          ]

-- What the page shows of the handler's answer.
abbrev pub IsShown : Outcome Response → Form → Type 0
IsShown o form =
    ((o ≡ done mail_sent) × (form.success ≡ true) × (form.location ≡ none))
    ⊎ ((o ≡ done account_created)
        × (form.success ≡ false)
        × (form.location ≡ some (codes "/login?message=account_created")))
    ⊎ ((status : ℕ) × (message : Text) × ((o ≡ done (error_response status message))
          × (400 ≤ status)
          × (form.error ≡ str message)
          × (form.success ≡ false)
          × (form.location ≡ none)))

IsShown-answer :
    (r : Response) (form : Form) (crash : Reply)
    → form.success ≡ false
    → form.location ≡ none
    → IsReached r
    → IsShown (done r) (finish form (try_signup form (some (answer crash (done r)))))
unfolding lookup ◌==◌
IsShown-answer r form crash h k (inl same) = rw same (inr (inl (refl, h, refl)))
IsShown-answer r form crash h k (inr (inl same)) = rw same (inl (refl, refl, k))
IsShown-answer r form crash h k (inr (inr (inl same))) =
    rw same (inr (inr (400, _, (refl, omega arith, refl, h, k))))
IsShown-answer r form crash h k (inr (inr (inr (inl same)))) =
    rw same (inr (inr (400, _, (refl, omega arith, refl, h, k))))
IsShown-answer r form crash h k (inr (inr (inr (inr same)))) =
    rw same (inr (inr (500, _, (refl, omega arith, refl, h, k))))

finish_loading : (form : Form) (o : Option Form) → (finish form o).loading ≡ false
finish_loading form none = refl
finish_loading form (some form') = refl

not_short : (r : Response) → IsReached r → r ≢ short_password
not_short r reached e = ground (arith, reached, e)

-- A form in its first state that passes the page's check and is answered by the handler, which
-- never throws: the page
-- asks to read the mail exactly where one was sent, goes to the login where the account is made
-- without a mail, and shows the handler's message where it refused; it no longer waits, and
-- the handler has not refused the password as too short.
signup_page_shows :
    (p : Platform) (env : Env) (origin : Text) (w : World p.Store) (crash : Reply)
    (fetch : Doc → Option Reply) (form : Form)
    → (form.password == form.confirm_password) ≡ true
    → ltb (length form.password) 8 ≡ false
    → form.success ≡ false
    → form.location ≡ none
    → fetch (signup_body form)
      ≡ some (answer crash (post_signup p env origin (signup_body form) w).0)
    → (r : Response) × ((post_signup p env origin (signup_body form) w).0 ≡ done r)
      × (r ≢ short_password)
      × IsShown (done r) (handle_signup fetch form)
      × ((handle_signup fetch form).loading ≡ false)
unfolding handle_signup
signup_page_shows p env origin w crash fetch form same long h k replied =
    let (r, ran, reached) = post_signup-IsReached p env origin form w long in
    let waiting = record form { loading = true; error = str [] } in
    let received : fetch (signup_body form) ≡ some (answer crash (done r)) =
      replied ∙ ap (λ o. some (answer crash o)) ran in
    (
      r,
      ran,
      not_short r reached,
      rw (same, long, received) (IsShown-answer r waiting crash h k reached),
      rw (same, long) (finish_loading waiting (try_signup waiting (fetch (signup_body waiting)))),
    )
