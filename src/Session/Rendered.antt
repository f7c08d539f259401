-- ===== src/Session/Rendered.antt =====
-- The store of the committed builds, chunks/auth.js of marketing-site/.svelte-kit/adapter-node and
-- of marketing-site/.svelte-kit/output/server, which are alike: compiled for the server, without a browser.
use temporal_cloud_offering.Prelude.{◌≡◌, refl, Bool, false, not, some}
use temporal_cloud_offering.Json.{Json, null}
use temporal_cloud_offering.Session.{
  Session, is_null, create_auth_store, login, logout, is_authenticated, get_initial_user,
}
use temporal_cloud_offering.Session.Runtime.{Browser}

-- `getInitialUser`, and so the value of the new store.
abbrev pub rendered_user : Json
rendered_user = null

abbrev pub rendered_login : Json → Json → Json
rendered_login user _ = user

abbrev pub rendered_logout : Json → Json
rendered_logout _ = null

abbrev pub rendered_authenticated : Json → Bool
rendered_authenticated user = not (is_null user)

module _ (b : Browser) where
  -- On the server, where `browser` is false, the store of the sources does what the builds' does,
  -- and no operation of it touches the page.
  pub rendered_agrees :
      (s : b.State) (user : Json) (session : Session b.State)
      → (create_auth_store b false s ≡ record { page = s; user = rendered_user })
        × (login b false user session
            ≡ some (record session { user = rendered_login user session.user }))
        × (logout b false session ≡ record session { user = rendered_logout session.user })
        × (is_authenticated session ≡ rendered_authenticated session.user)
  unfolding create_auth_store get_initial_user login logout is_authenticated
  rendered_agrees s user session = (refl, refl, refl, refl)
