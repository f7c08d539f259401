-- ===== src/Pages/Login/Laws.antt =====
-- The page /login: what it shows for the `error` of its address, and a login on the answers of
-- POST /api/auth/login.
use temporal_cloud_offering.Prelude.{
  ◌≡◌, ◌≢◌, refl, subst, ◌⊎◌, inl, inr, true, false, [], ◌∷◌, Option, none, some, arith, Bool-cases,
  All,
}
use temporal_cloud_offering.Text.{Text, codes, non_empty, lookup, first_part, ◌==◌}
use temporal_cloud_offering.Json.{Json, str, literal}
use temporal_cloud_offering.Json.Doc.{Doc, stringify}
use temporal_cloud_offering.Platform.{Platform, Reply}
use temporal_cloud_offering.Platform.Exec.{World}
use temporal_cloud_offering.Auth.{at}
use temporal_cloud_offering.Auth.Login.{post_login, auth_data}
use temporal_cloud_offering.Auth.Login.Laws.{post_login_accepts}
use temporal_cloud_offering.Pages.{answer}
use temporal_cloud_offering.Pages.Login.{
  Form, login_body, handle_email_login, try_login, finish, on_mount, spaced,
}

-- A message that can be shown: not empty, and without `_`.
abbrev pub IsReadable : Json → Type 0
IsReadable message = (t : Text) × ((message ≡ str t) × (non_empty t ≡ true) × All (λ c. c ≢ b'_') t)

spaced-All : (s : Text) → All (λ c. c ≢ b'_') (spaced s)
unfolding spaced
spaced-All [] = tt
spaced-All (c ∷ s) = (ground arith, spaced-All s)

spaced-IsReadable : (s : Text) → non_empty s ≡ true → IsReadable (str (spaced s))
unfolding spaced
spaced-IsReadable [] h = absurd (ground arith)
spaced-IsReadable (c ∷ s) h = (spaced (c ∷ s), (refl, refl, spaced-All (c ∷ s)))

literal-IsReadable : (s : Text) → spaced s ≡ s → non_empty s ≡ true → IsReadable (str s)
literal-IsReadable s same h = (s, (refl, h, subst (All (λ c. c ≢ b'_')) same (spaced-All s)))

-- Whatever error the address names, the page shows a message without underscores; an address that
-- says that the account was created shows none.
pub login_error_shown :
    (url_error message : Text) (form : Form)
    → non_empty url_error ≡ true
    → ((message == codes "account_created") ≡ false)
        × IsReadable (on_mount url_error message form).error
      ⊎ ((message == codes "account_created") ≡ true)
        × ((on_mount url_error message form).error ≡ str [])
unfolding on_mount spaced
login_error_shown url_error message form h =
    elim (Bool-cases (message == codes "account_created")) [
      | inl created ↦ inr (created, rw created refl)
      | inr plain ↦ elim (Bool-cases (url_error == codes "sso_not_configured")) [
        | inl sso ↦ inl (plain, rw (plain, sso) (literal-IsReadable _ refl refl))
        | inr a ↦ elim (Bool-cases (url_error == codes "oauth_failed")) [
          | inl oauth ↦ inl (plain, rw (plain, a, oauth) (literal-IsReadable _ refl refl))
          | inr b ↦ elim (Bool-cases (url_error == codes "access_denied")) [
            | inl denied ↦ inl (plain, rw (plain, a, b, denied) (literal-IsReadable _ refl refl))
            | inr c ↦ inl (plain, rw (plain, a, b, c, h) (spaced-IsReadable url_error h))
          ]
        ]
      ]
    ]

finish_loading : (form : Form) (o : Option Form) → (finish form o).loading ≡ false
finish_loading form none = refl
finish_loading form (some form') = refl

-- How a login of the page ends: on the way to the dashboard, with the cookie of the user set, or
-- with the handler's message.
abbrev pub IsLoggedIn : (p : Platform) → Form → Form → World p.Store → Type 0
IsLoggedIn p form form' v =
    ((non_empty form.email ≡ true)
      × (non_empty form.password ≡ true)
      × (form'.goes_to ≡ some (codes "/dashboard"))
      × (form'.error ≡ str [])
      × (lookup (codes "auth") v.jar
          ≡ some (stringify (auth_data (some (str form.email)) (str (first_part form.email at))))))
    ⊎ (((non_empty form.email ≡ false) ⊎ (non_empty form.password ≡ false))
        × (form'.goes_to ≡ form.goes_to)
        × (form'.error ≡ str (codes "Email and password are required")))

-- A login that the handler answers: with an email and a password that are not empty, and only
-- then, the page goes to the dashboard and the cookie `auth` is the user that the email names;
-- else it stays and shows that both are required. It no longer waits.
login_page_enters :
    (p : Platform) (w : World p.Store) (crash : Reply) (fetch : Doc → Option Reply) (form : Form)
    → fetch (login_body form) ≡ some (answer crash (post_login p (login_body form) w).0)
    → let form' = handle_email_login fetch form in
      (form'.loading ≡ false) × IsLoggedIn p form form' (post_login p (login_body form) w).1
unfolding handle_email_login lookup ◌==◌
login_page_enters p w crash fetch form replied =
    let input = literal (
      (codes "email", some (str form.email)) ∷ (codes "password", some (str form.password)) ∷ []) in
    let accepted =
      post_login_accepts p (login_body form) input form.email (some (str form.password)) w refl refl
        refl in
    let waiting = record form { loading = true; error = str [] } in
    elim accepted [
      | inl (e, k, ran, after) ↦ (
        finish_loading waiting (try_login waiting (fetch (login_body form))),
        inl (e, k, rw (replied, ran) refl, rw (replied, ran) refl, rw after refl),
      )
      | inr (missing, ran, _) ↦ (
        finish_loading waiting (try_login waiting (fetch (login_body form))),
        inr (missing, rw (replied, ran) refl, rw (replied, ran) refl),
      )
    ]
