-- ===== src/Session/Laws.antt =====
-- What the store promises: the page and the store agree after every operation, and a reload of a
-- page that agrees with the store changes neither.
use temporal_cloud_offering.Prelude.{
  ◌≡◌, refl, ◌∙◌, sym, ap, ◌⊎◌, inl, inr, true, false, Option, none, some, [], ◌∷◌, arith, List,
  subst,
}
use temporal_cloud_offering.Text.{Text, remove, ◌==◌}
use temporal_cloud_offering.Text.Laws.{==_iff}
use temporal_cloud_offering.Json.{Json, null, Try-cases}
use temporal_cloud_offering.Json.Doc.{printed, stringify, stored, doc-cases}
use temporal_cloud_offering.Session.{
  Session, auth_user, auth_cookie_name, get_cookie, delete_cookie, read_user, sync_user,
  from_cookie, get_initial_user, create_auth_store, login, logout, set_user,
}
use temporal_cloud_offering.Session.Runtime.{Browser, BrowserLaws}
use temporal_cloud_offering.Session.Cookies.{get_cookie-absent, IsAbsent}

module _ (b : Browser) where
  -- The page holds the user of the store, or nobody: neither in `localStorage` nor in a cookie.
  abbrev pub Holds : Json → b.State → Type 0
  Holds user s =
      (b.get_item auth_user s ≡ some (printed user))
      ⊎ ((stored (b.get_item auth_user s) ≡ false)
          × (get_cookie b true auth_cookie_name s ≡ none)
          × (user ≡ null))

  abbrev pub IsSynced : Session b.State → Type 0
  IsSynced session = Holds session.user session.page

  module _ (laws : BrowserLaws b) where
    remove-IsAbsent :
        (name : Text) (cookies : List (Text × Text)) → IsAbsent name (remove name cookies)
    unfolding remove
    remove-IsAbsent name [] = tt
    remove-IsAbsent name ((other, value) ∷ cookies) =
        ground (arith, remove-IsAbsent name cookies, ==_iff other name)

    -- Behind the deletion of the cookie there is none.
    pub get-delete_cookie :
        (s : b.State)
        → get_cookie b true auth_cookie_name (delete_cookie b true auth_cookie_name s) ≡ none
    unfolding delete_cookie
    get-delete_cookie s =
        get_cookie-absent b laws (delete_cookie b true auth_cookie_name s) auth_cookie_name
          (omega arith)
          (subst (IsAbsent auth_cookie_name)
            (sym (laws.cookies-expire auth_cookie_name s (omega arith)))
            (remove-IsAbsent auth_cookie_name (laws.cookies s)))

    item_of_deleted :
        (s : b.State)
        → b.get_item auth_user (delete_cookie b true auth_cookie_name s) ≡ b.get_item auth_user s
    unfolding delete_cookie
    item_of_deleted s = laws.get-set_cookie _ auth_user s

    -- After the cookie is deleted, nobody is left where `localStorage` holds nobody.
    deleted-Holds :
        (s : b.State)
        → stored (b.get_item auth_user s) ≡ false
        → Holds null (delete_cookie b true auth_cookie_name s)
    deleted-Holds s empty = inr (ap stored (item_of_deleted s) ∙ empty, get-delete_cookie s, refl)

    synced-Holds :
        (user : Json) (s : b.State) (written : Option b.State)
        → stored (b.get_item auth_user s) ≡ false
        → b.set_item auth_user (stringify user) s ≡ written
        → let (user', s') = sync_user b true user s written in Holds user' s'
    unfolding ◌==◌
    synced-Holds user s none empty e = deleted-Holds s empty
    synced-Holds user s (some s') empty e =
        inl (laws.get-set_item auth_user auth_user (stringify user) s s' e)

    found-Holds :
        (s : b.State) (found : Option Text)
        → get_cookie b true auth_cookie_name s ≡ found
        → stored (b.get_item auth_user s) ≡ false
        → let (user, s') = from_cookie b true found s in Holds user s'
    unfolding from_cookie
    found-Holds s none e empty = inr (empty, e, refl)
    found-Holds s (some cookie) e empty = elim (Try-cases (read_user b true cookie)) [
      | inl bad ↦ rw (bad, from_cookie) (deleted-Holds s empty)
      | inr (user, good) ↦ rw (good, from_cookie) (synced-Holds user s _ empty refl)
    ]

    pub create_auth_store-IsSynced : (s : b.State) → IsSynced (create_auth_store b true s)
    unfolding create_auth_store get_initial_user ◌==◌
    create_auth_store-IsSynced s = elim (doc-cases (b.get_item auth_user s)) [
      | inl empty ↦ rw empty (found-Holds s (get_cookie b true auth_cookie_name s) refl empty)
      | inr (inl (full, bad)) ↦
          let s' = b.remove_item auth_user s in
          rw (full, bad)
            (found-Holds s' (get_cookie b true auth_cookie_name s') refl
              (ap stored (laws.get-remove_item auth_user auth_user s)))
      | inr (inr (user, e)) ↦ rw e (inl e)
    ]

    set_user-some :
        (user : Json) (written : Option b.State) (session : Session b.State)
        → set_user b true user written ≡ some session
        → (written ≡ some session.page) × (session.user ≡ user)
    set_user-some user none session e = ground arith
    set_user-some user (some s) session e = ground arith

    -- What a login writes.
    pub item_of_login :
        (user : Json) (session session' : Session b.State)
        → login b true user session ≡ some session'
        → b.get_item auth_user session'.page ≡ some (printed user)
    unfolding login ◌==◌
    item_of_login user session session' e =
        let (written, _) =
          set_user-some user (b.set_item auth_user (stringify user) session.page) session' e in
        laws.get-set_item auth_user auth_user (stringify user) session.page session'.page written

    pub login-IsSynced :
        (user : Json) (session session' : Session b.State)
        → login b true user session ≡ some session'
        → IsSynced session' × (session'.user ≡ user)
    unfolding login
    login-IsSynced user session session' e =
        let (_, same) =
          set_user-some user (b.set_item auth_user (stringify user) session.page) session' e in
        (inl (rw same (item_of_login user session session' e)), same)

    pub logout-IsSynced : (session : Session b.State) → IsSynced (logout b true session)
    unfolding logout ◌==◌
    logout-IsSynced session =
        deleted-Holds (b.remove_item auth_user session.page)
          (ap stored (laws.get-remove_item auth_user auth_user session.page))

    pub reload_same :
        (session : Session b.State)
        → IsSynced session
        → create_auth_store b true session.page ≡ session
    unfolding create_auth_store get_initial_user from_cookie
    reload_same session (inl held) = rw held refl
    reload_same session (inr (empty, absent, nobody)) = rw (empty, absent, sym nobody) refl
