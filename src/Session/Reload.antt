-- ===== src/Session/Reload.antt =====
-- How a user comes to the store without a call of `login`: the cookie `auth` that the server sets,
-- which is the JSON text of the user, percent-encoded by SvelteKit.
use temporal_cloud_offering.Prelude.{
  ◌≡◌, refl, ◌∙◌, sym, ap, true, false, List, [], ◌∷◌, ◌++◌, none, some, inl, inr, ◌≢◌, ◌⊎◌,
  Option-cases,
}
use temporal_cloud_offering.Text.{Text}
use temporal_cloud_offering.Text.Utf8.{encode_uri_component}
use temporal_cloud_offering.Text.Uri.{decode_uri_component, unescape, decode_pieces}
use temporal_cloud_offering.Text.Uri.Laws.{IsUnits, decode-encode_uri_component}
use temporal_cloud_offering.Json.{Json, null, fine}
use temporal_cloud_offering.Json.Doc.{printed, malformed, stringify, stored}
use temporal_cloud_offering.Session.{
  Session, auth_user, auth_cookie_name, or_absent, get_cookie, read_user, from_cookie,
  get_initial_user, create_auth_store, delete_cookie, login,
}
use temporal_cloud_offering.Session.Runtime.{Browser, BrowserLaws}
use temporal_cloud_offering.Session.Laws.{item_of_login}
use temporal_cloud_offering.Session.Cookies.{IsAbsent, get_cookie-found}

malformed_not_printed : (user : Json) → malformed [] ≢ printed user
malformed_not_printed user e = cc

module _ (b : Browser) (laws : BrowserLaws b) where
  sent_not_empty :
      (user : Json) (text sent : Text)
      → IsUnits text
      → encode_uri_component text ≡ some sent
      → b.read text ≡ printed user
      → or_absent sent ≡ some sent
  unfolding decode_uri_component unescape decode_pieces
  sent_not_empty user text [] units e known =
      let empty : [] ≡ text =
        ap (λ o. elim o [ none ↦ [] | some t ↦ t ]) (decode-encode_uri_component text [] units e) in
      absurd (malformed_not_printed user (sym laws.read-empty ∙ ap b.read empty ∙ known))
  sent_not_empty user text (c ∷ sent) units e known = refl

  -- After a login the page loads with the same user as long as `localStorage` is as the login left
  -- it, whatever happens to the cookies, also where the server has set the cookie of another user.
  login_outlives_cookies :
      (user : Json) (session session' : Session b.State) (s : b.State)
      → login b true user session ≡ some session'
      → b.get_item auth_user s ≡ b.get_item auth_user session'.page
      → create_auth_store b true s ≡ record { page = s; user = user }
  unfolding create_auth_store get_initial_user
  login_outlives_cookies user session session' s e kept =
      let held : b.get_item auth_user s ≡ some (printed user) =
        kept ∙ item_of_login b laws user session session' e in
      rw held refl

  -- The only cookie `auth` is the text of the user, encoded.
  abbrev pub HasCookie : Json → b.State → Type 0
  HasCookie user s =
      (before : List (Text × Text)) × (after : List (Text × Text)) × (text : Text) × (sent : Text)
      × ((laws.cookies s ≡ before ++ ((auth_cookie_name, sent) ∷ after))
          × IsAbsent auth_cookie_name before
          × IsAbsent auth_cookie_name after
          × IsUnits text
          × (encode_uri_component text ≡ some sent)
          × (b.read text ≡ printed user))

  read_cookie :
      (user : Json) (s : b.State)
      → HasCookie user s
      → (cookie : Text) × (get_cookie b true auth_cookie_name s ≡ some cookie)
        × (read_user b true cookie ≡ fine user)
  unfolding read_user
  read_cookie user s (before, after, text, sent, (held, hb, ha, units, e, known)) = (
    sent,
    get_cookie-found b laws s auth_cookie_name sent before after held hb ha
        ∙ sent_not_empty user text sent units e known,
    rw (decode-encode_uri_component text sent units e, read_user, known) refl,
  )

  -- A page whose only cookie `auth` is the JSON text of a user, percent-encoded, among any other
  -- cookies, and with nobody in `localStorage`: loading it signs the user in and writes the user to
  -- `localStorage`; where that throws, the cookie is deleted and nobody is signed in.
  pub cookie_signs_in :
      (user : Json) (s : b.State)
      → HasCookie user s
      → stored (b.get_item auth_user s) ≡ false
      → ((s' : b.State) × (b.set_item auth_user (stringify user) s ≡ some s')
          × (create_auth_store b true s ≡ record { page = s'; user = user }))
        ⊎ ((b.set_item auth_user (stringify user) s ≡ none)
            × (create_auth_store b true s
                ≡ record { page = delete_cookie b true auth_cookie_name s; user = null }))
  unfolding create_auth_store get_initial_user from_cookie
  cookie_signs_in user s has empty =
      let (cookie, found, read) = read_cookie user s has in
      elim (Option-cases (b.set_item auth_user (stringify user) s)) [
        | inl failed ↦ inr (failed, rw (empty, found, from_cookie, read, failed) refl)
        | inr (s', written) ↦ inl (s', written, rw (empty, found, from_cookie, read, written) refl)
      ]
