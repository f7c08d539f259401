-- ===== src/Session/Machine.antt =====
-- The store over time: sequences of logins, logouts and reloads of the page, and the account that
-- they stand for, a single value.
use temporal_cloud_offering.Prelude.{
  ◌≡◌, refl, ◌∙◌, ap, true, false, none, some, List, [], ◌∷◌, All,
}
use temporal_cloud_offering.Json.{Json, null}
use temporal_cloud_offering.Session.{Session, create_auth_store, login, logout, is_authenticated}
use temporal_cloud_offering.Session.Runtime.{Browser, BrowserLaws}
use temporal_cloud_offering.Session.Laws.{
  IsSynced, create_auth_store-IsSynced, login-IsSynced, logout-IsSynced, reload_same,
}

-- A login that `localStorage` refuses throws, and leaves the store as it is.
pub data Event : Type 0 where
  signed_in : Json → Event
  refused : Json → Event
  signed_out : Event
  reloaded : Event

-- The account, as a single value.
abbrev pub account : Event → Json → Json
account (signed_in user) _ = user
account (refused _) user = user
account signed_out _ = null
account reloaded user = user

abbrev pub account_after : List Event → Json → Json
account_after [] user = user
account_after (e ∷ events) user = account_after events (account e user)

abbrev pub IsQuiet : Event → Type 0
IsQuiet (signed_in _) = ⊥
IsQuiet _ = Unit

module _ (b : Browser) where
  pub data Step : Event → Session b.State → Session b.State → Type 0 where
    sign_in :
        (user : Json) {s t : Session b.State}
        → login b true user s ≡ some t
        → Step (signed_in user) s t
    refuse :
        (user : Json) (s : Session b.State) → login b true user s ≡ none → Step (refused user) s s
    sign_out : (s : Session b.State) → Step signed_out s (logout b true s)
    reload : (s : Session b.State) → Step reloaded s (create_auth_store b true s.page)

  -- The events, from first to last.
  pub data Run : List Event → Session b.State → Session b.State → Type 0 where
    stop : (s : Session b.State) → Run [] s s
    next :
        {e : Event} {events : List Event} {s t u : Session b.State}
        → Step e s t
        → Run events t u
        → Run (e ∷ events) s u

  module _ (laws : BrowserLaws b) where
    -- A step keeps page and store in agreement, and does to the user what it does to the account.
    step_refines :
        {e : Event} {s t : Session b.State}
        → Step e s t
        → IsSynced b s
        → IsSynced b t × (t.user ≡ account e s.user)
    unfolding logout
    step_refines (sign_in user {s} {t} e) h = login-IsSynced b laws user s t e
    step_refines (refuse user s e) h = (h, refl)
    step_refines (sign_out s) h = (logout-IsSynced b laws s, refl)
    step_refines (reload s) h =
        (create_auth_store-IsSynced b laws s.page, ap (λ r. r.user) (reload_same b laws s h))

    run_refines :
        {events : List Event} {s t : Session b.State}
        → Run events s t
        → IsSynced b s
        → IsSynced b t × (t.user ≡ account_after events s.user)
    run_refines (stop s) h = (h, refl)
    run_refines (next {e} {events} step run) h =
        let (h', same) = step_refines step h in
        let (h'', last) = run_refines run h' in (h'', last ∙ ap (account_after events) same)

    quiet_null : (events : List Event) → All IsQuiet events → account_after events null ≡ null
    quiet_null [] h = refl
    quiet_null (signed_in user ∷ events) h = absurd h.0
    quiet_null (refused user ∷ events) (_, h) = quiet_null events h
    quiet_null (signed_out ∷ events) (_, h) = quiet_null events h
    quiet_null (reloaded ∷ events) (_, h) = quiet_null events h

    -- From the first load of a page on, the user of the store is the account, whatever the events,
    -- and one more reload gives the same store and page.
    pub session_refines :
        (page : b.State) (events : List Event) (s : Session b.State)
        → Run events (create_auth_store b true page) s
        → (s.user ≡ account_after events (create_auth_store b true page).user)
          × (create_auth_store b true s.page ≡ s)
    session_refines page events s run =
        let (synced, same) = run_refines run (create_auth_store-IsSynced b laws page) in
        (same, reload_same b laws s synced)

    -- After a logout nobody is signed in, through any number of reloads, further logouts and
    -- refused logins.
    pub logout_lasts :
        (s t : Session b.State) (events : List Event)
        → All IsQuiet events
        → Run events (logout b true s) t
        → (is_authenticated t ≡ false)
          × (is_authenticated (create_auth_store b true t.page) ≡ false)
    unfolding is_authenticated logout
    logout_lasts s t events quiet run =
        let (synced, same) = run_refines run (logout-IsSynced b laws s) in
        let nobody : t.user ≡ null = same ∙ quiet_null events quiet in
        (rw nobody refl, rw (reload_same b laws t synced, nobody) refl)
