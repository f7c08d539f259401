-- ===== src/Pages/Verify/Laws.antt =====
-- The page /auth/verify on the answers of GET /api/auth/verify: it settles on every one.
use temporal_cloud_offering.Prelude.{
  ◌≡◌, refl, sym, ap, ◌∙◌, ◌⊎◌, inl, inr, Bool, true, false, not, ◌||◌, [], ◌∷◌, Option, none, some,
  Bool-cases, Option-cases,
}
use temporal_cloud_offering.Text.{Text, codes, non_empty, or_else, lookup, ◌==◌}
use temporal_cloud_offering.Json.{Json, str, literal, Try-cases}
use temporal_cloud_offering.Json.Doc.{printed}
use temporal_cloud_offering.Platform.{Platform, Reply}
use temporal_cloud_offering.Platform.Exec.{Outcome, Exn, World, done, thrown, Outcome-cases}
use temporal_cloud_offering.Auth.{Env, Response, error_response}
use temporal_cloud_offering.Auth.Verify.{get_verify, signed_in, email_verified, local_part}
use temporal_cloud_offering.Auth.Verify.Laws.{is_signup}
use temporal_cloud_offering.Auth.Verify.Answers.{IsAnswer, get_verify_answers}
use temporal_cloud_offering.Session.{Session, login}
use temporal_cloud_offering.Session.Runtime.{Browser}
use temporal_cloud_offering.Pages.{answer, received, IsCrash, error_of}
use temporal_cloud_offering.Pages.Verify.{
  Page, opened, error, success, verified, try_verify, or_failed, on_mount, verify_url, fetch_url,
}

-- The user that a link signs in.
abbrev pub link_user : Text → Json
link_user email = literal (
    (codes "email", some (str email))
    ∷ (codes "name", some (str (local_part email)))
    ∷ (codes "provider", some (str (codes "email")))
    ∷ [])

-- A request that failed, a handler that threw, or its refusal.
abbrev pub IsRefused : Option (Outcome Response) → Type 0
IsRefused none = Unit
IsRefused (some (thrown _)) = Unit
IsRefused (some (done r)) = (message : Text) × (r ≡ error_response 400 message)

-- A link without a token or an email is refused, whatever would become of a request.
invalid-IsRefused :
    (p : Platform) (env : Env) (token email type : Text) (w : World p.Store)
    (o : Option (Outcome Response))
    → not (non_empty token) || not (non_empty email) ≡ true
    → (o ≡ none) ⊎ (o ≡ some (get_verify p env token email type w).0)
    → IsRefused o
unfolding get_verify
invalid-IsRefused p env token email type w o invalid (inl failed) = rw failed tt
invalid-IsRefused p env token email type w o invalid (inr asked) =
    rw (asked, invalid) (codes "Invalid verification link", refl)

module _ (b : Browser) (fetch : Text → Option Reply) where
  -- Where the page is left, by what became of the request: with an error and the session as it was,
  -- where the link is refused or the login throws; with a verified email; or with the owner of the
  -- link signed in.
  abbrev pub IsSettled :
      Text → Text → Session b.State → Option (Outcome Response) → Page × Session b.State → Type 0
  IsSettled email type session o left =
      ((left.0.status ≡ error)
        × (left.0.timers ≡ [])
        × (left.1 ≡ session)
        × (IsRefused o
            ⊎ ((o ≡ some (done (signed_in email)))
                × (login b true (link_user email) session ≡ none))))
      ⊎ ((left.0.status ≡ verified)
          × (left.0.timers ≡ (codes "/login", 2000) ∷ [])
          × (left.1 ≡ session)
          × (is_signup type ≡ true)
          × (o ≡ some (done (email_verified email))))
      ⊎ ((left.0.status ≡ success)
          × (left.0.timers ≡ (codes "/dashboard", 1500) ∷ [])
          × (login b true (link_user email) session ≡ some left.1)
          × (o ≡ some (done (signed_in email))))

  IsSettled-refusal :
      (email type message : Text) (page : Page) (session : Session b.State) (ok : Bool)
      → page.timers ≡ []
      → IsSettled email type session (some (done (error_response 400 message))) (
          or_failed b fetch page session (
            try_verify b fetch page session
              (some (record { ok = ok; json = printed (error_response 400 message).body }))))
  unfolding lookup ◌==◌
  IsSettled-refusal email type message page session ok h = inl (refl, h, refl, inl (message, refl))

  IsSettled-crash :
      (email type : Text) (page : Page) (session : Session b.State) (crash : Reply) (x : Exn)
      → page.timers ≡ []
      → IsCrash crash
      → IsSettled email type session
          (some (thrown x))
          (or_failed b fetch page session (try_verify b fetch page session (some crash)))
  IsSettled-crash email type page session crash x h (_, inl malformed) =
      rw malformed (inl (refl, h, refl, inl tt))
  IsSettled-crash email type page session crash x h (_, inr (data', v, (read, given, falsy))) =
      elim (Try-cases (error_of data' (codes "Verification failed"))) [
        | inl bad ↦ rw (read, given, falsy, bad) (inl (refl, h, refl, inl tt))
        | inr (message, found) ↦ rw (read, given, falsy, found) (inl (refl, h, refl, inl tt))
      ]

  IsSettled-verified :
      (email type : Text) (page : Page) (session : Session b.State) (ok : Bool)
      → page.timers ≡ []
      → is_signup type ≡ true
      → IsSettled email type session (some (done (email_verified email))) (
          or_failed b fetch page session (
            try_verify b fetch page session
              (some (record { ok = ok; json = printed (email_verified email).body }))))
  unfolding lookup ◌==◌
  IsSettled-verified email type page session ok h k =
      inr (inl (refl, ap (λ timers. (codes "/login", 2000) ∷ timers) h, refl, k, refl))

  IsSettled-signed_in :
      (email type : Text) (page : Page) (session : Session b.State) (ok : Bool)
      → page.timers ≡ []
      → IsSettled email type session (some (done (signed_in email))) (
          or_failed b fetch page session (
            try_verify b fetch page session
              (some (record { ok = ok; json = printed (signed_in email).body }))))
  unfolding lookup ◌==◌
  IsSettled-signed_in email type page session ok h =
      elim (Option-cases (login b true (link_user email) session)) [
        | inl threw ↦ rw threw (inl (refl, h, refl, inr (refl, refl)))
        | inr (session', signed) ↦
            rw signed
              (inr (inr (refl, ap (λ timers. (codes "/dashboard", 1500) ∷ timers) h, refl, refl)))
      ]

  -- Every answer of the handler settles the page.
  IsSettled-answer :
      (email type : Text) (page : Page) (session : Session b.State) (crash : Reply) (r : Response)
      → page.timers ≡ []
      → IsAnswer email type r
      → IsSettled email type session (some (done r)) (
          or_failed b fetch page session
            (try_verify b fetch page session (some (answer crash (done r)))))
  IsSettled-answer email type page session crash r h (inl (message, same)) =
      rw same (IsSettled-refusal email type message page session false h)
  IsSettled-answer email type page session crash r h (inr (inl same)) =
      rw same (IsSettled-signed_in email type page session false h)
  IsSettled-answer email type page session crash r h (inr (inr (same, signup))) =
      rw same (IsSettled-verified email type page session false h signup)

  IsSettled-outcome :
      (p : Platform) (env : Env) (token email type : Text) (w : World p.Store) (page : Page)
      (session : Session b.State) (crash : Reply)
      → page.timers ≡ []
      → IsCrash crash
      → IsSettled email type session (some (get_verify p env token email type w).0) (
          or_failed b fetch page session (
            try_verify b fetch page session
              (some (answer crash (get_verify p env token email type w).0))))
  IsSettled-outcome p env token email type w page session crash h k =
      elim (Outcome-cases (get_verify p env token email type w)) [
        | inl (r, w', ran) ↦ rw ran (
            IsSettled-answer email type page session crash r h
              (get_verify_answers p token email env type w w' r ran))
        | inr (x, w', threw) ↦ rw threw (IsSettled-crash email type page session crash x h k)
      ]

  IsSettled-asked :
      (p : Platform) (env : Env) (token email type : Text) (w : World p.Store) (page : Page)
      (session : Session b.State) (crash : Reply) (o : Option (Outcome Response))
      → page.timers ≡ []
      → IsCrash crash
      → (o ≡ none) ⊎ (o ≡ some (get_verify p env token email type w).0)
      → IsSettled email type session o
          (or_failed b fetch page session (try_verify b fetch page session (received crash o)))
  IsSettled-asked p env token email type w page session crash o h k (inl failed) =
      rw failed (inl (refl, h, refl, inl tt))
  IsSettled-asked p env token email type w page session crash o h k (inr asked) =
      rw asked (IsSettled-outcome p env token email type w page session crash h k)

  default_kind : (type : Text) → is_signup (or_else type (codes "magic_link")) ≡ is_signup type
  default_kind [] = refl
  default_kind (c ∷ type) = refl

  IsSettled-kind :
      (email kind type : Text) (session : Session b.State) (o : Option (Outcome Response))
      (left : Page × Session b.State)
      → is_signup kind ≡ is_signup type
      → IsSettled email kind session o left
      → IsSettled email type session o left
  IsSettled-kind email kind type session o left same (inl h) = inl h
  IsSettled-kind email kind type session o left same (inr (inl (h, t, s, signup, e))) =
      inr (inl (h, t, s, sym same ∙ signup, e))
  IsSettled-kind email kind type session o left same (inr (inr h)) = inr (inr h)

  -- On a link, where the request to verify fails, or its handler answers or throws, over any
  -- KV store and runtime, and what is received for a throw is no success: the page shows an error, with the session as it was, exactly where
  -- the link is refused, the request fails, the handler throws, or the login of the session
  -- throws; it shows a verified email, and leaves the session, where the handler verified the
  -- email of a signup; and it shows a success where the handler signed the owner in, with a login of
  -- the owner of the link. It never stays as it was opened.
  pub verify_page_settles :
      (p : Platform) (env : Env) (token email type : Text) (w : World p.Store)
      (session : Session b.State) (crash : Reply) (o : Option (Outcome Response))
      → IsCrash crash
      → (o ≡ none)
        ⊎ (o ≡ some (get_verify p env token email (or_else type (codes "magic_link")) w).0)
      → fetch_url fetch (verify_url token email (or_else type (codes "magic_link")))
        ≡ received crash o
      → IsSettled email type session o (on_mount b fetch token email type session)
  unfolding on_mount
  verify_page_settles p env token email type w session crash o k asked replied =
      let kind = or_else type (codes "magic_link") in
      elim (Bool-cases (not (non_empty token) || not (non_empty email))) [
        | inl invalid ↦ rw invalid (
            inl
              (refl, refl, refl, inl (invalid-IsRefused p env token email kind w o invalid asked)))
        | inr valid ↦
            let page = record opened { is_signup_verification = kind == codes "signup" } in
            rw (valid, replied)
              (IsSettled-kind email kind type session o
                (or_failed b fetch page session
                  (try_verify b fetch page session (received crash o)))
                (default_kind type)
                (IsSettled-asked p env token email kind w page session crash o refl k asked))
      ]
