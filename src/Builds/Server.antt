-- ===== src/Builds/Server.antt =====
-- marketing-site/.svelte-kit/output/server: manifest.js, manifest-full.js, and the modules under
-- entries/endpoints/api/auth, and cloudflare-tmp/manifest.js, which serves the same modules. Every
-- handler is as in the sources.
use temporal_cloud_offering.Prelude.{ℕ, List, [], ◌∷◌, Option, none, some}
use temporal_cloud_offering.Text.{Text, codes}
use temporal_cloud_offering.Platform.{Platform}
use temporal_cloud_offering.Platform.Exec.{Exec}
use temporal_cloud_offering.Auth.{Env, Response}
use temporal_cloud_offering.Auth.Google
use temporal_cloud_offering.Auth.MagicLink
use temporal_cloud_offering.Auth.Password
use temporal_cloud_offering.Auth.Login
use temporal_cloud_offering.Auth.Signup
use temporal_cloud_offering.Auth.Verify
use temporal_cloud_offering.Builds.{
  Endpoint, google, google_callback, login, magic_link, set_password, signup, verify, Route, Method,
  get, post, Input, api_route, page_route, site_layouts, site_errors, dashboard_layouts,
  dashboard_errors,
}

-- `routes` of manifest.js: the endpoints, since the pages are prerendered.
abbrev pub server_routes : List Route
server_routes =
    (api_route (codes "/api/auth/google") google)
    ∷ (api_route (codes "/api/auth/google/callback") google_callback)
    ∷ (api_route (codes "/api/auth/login") login)
    ∷ (api_route (codes "/api/auth/magic-link") magic_link)
    ∷ (api_route (codes "/api/auth/set-password") set_password)
    ∷ (api_route (codes "/api/auth/signup") signup)
    ∷ (api_route (codes "/api/auth/verify") verify)
    ∷ []

-- `prerendered_routes` of manifest.js
abbrev pub server_prerendered : List Text
server_prerendered =
    codes "/"
    ∷ codes "/auth/verify"
    ∷ codes "/dashboard"
    ∷ codes "/dashboard/batch-operations"
    ∷ codes "/dashboard/billing"
    ∷ codes "/dashboard/namespaces"
    ∷ codes "/dashboard/schedules"
    ∷ codes "/dashboard/settings"
    ∷ codes "/dashboard/settings/security"
    ∷ codes "/dashboard/ui"
    ∷ codes "/login"
    ∷ codes "/signup"
    ∷ []

-- `routes` of manifest-full.js
abbrev pub server_full_routes : List Route
server_full_routes =
    (page_route (codes "/") site_layouts site_errors 3)
    ∷ (api_route (codes "/api/auth/google") google)
    ∷ (api_route (codes "/api/auth/google/callback") google_callback)
    ∷ (api_route (codes "/api/auth/login") login)
    ∷ (api_route (codes "/api/auth/magic-link") magic_link)
    ∷ (api_route (codes "/api/auth/set-password") set_password)
    ∷ (api_route (codes "/api/auth/signup") signup)
    ∷ (api_route (codes "/api/auth/verify") verify)
    ∷ (page_route (codes "/auth/verify") site_layouts site_errors 4)
    ∷ (page_route (codes "/dashboard") dashboard_layouts dashboard_errors 5)
    ∷ (page_route (codes "/dashboard/batch-operations") dashboard_layouts dashboard_errors 6)
    ∷ (page_route (codes "/dashboard/billing") dashboard_layouts dashboard_errors 7)
    ∷ (page_route (codes "/dashboard/namespaces") dashboard_layouts dashboard_errors 8)
    ∷ (page_route (codes "/dashboard/schedules") dashboard_layouts dashboard_errors 9)
    ∷ (page_route (codes "/dashboard/settings") dashboard_layouts dashboard_errors 10)
    ∷ (page_route (codes "/dashboard/settings/security") dashboard_layouts dashboard_errors 11)
    ∷ (page_route (codes "/dashboard/ui") dashboard_layouts dashboard_errors 12)
    ∷ (page_route (codes "/login") site_layouts site_errors 13)
    ∷ (page_route (codes "/signup") site_layouts site_errors 14)
    ∷ []

-- `routes` of cloudflare-tmp/manifest.js
abbrev pub cloudflare_routes : List Route
cloudflare_routes =
    (api_route (codes "/api/auth/google") google)
    ∷ (api_route (codes "/api/auth/google/callback") google_callback)
    ∷ (api_route (codes "/api/auth/login") login)
    ∷ (api_route (codes "/api/auth/magic-link") magic_link)
    ∷ (api_route (codes "/api/auth/set-password") set_password)
    ∷ (api_route (codes "/api/auth/signup") signup)
    ∷ (api_route (codes "/api/auth/verify") verify)
    ∷ []

module _ (p : Platform) (iso : ℕ → Text) (env : Env) where
  -- The module of /api/auth/google.
  abbrev pub get_google : Input → Exec p.Store Response
  get_google input = Google.get_google p env input.origin

  -- The module of /api/auth/google/callback.
  abbrev pub get_callback : Input → Exec p.Store Response
  get_callback input = Google.get_callback p env input.code input.error

  -- The module of /api/auth/magic-link.
  abbrev pub post_magic_link : Input → Exec p.Store Response
  post_magic_link input = MagicLink.post_magic_link p env input.origin input.body

  -- The module of /api/auth/set-password.
  abbrev pub post_set_password : Input → Exec p.Store Response
  post_set_password input = Password.post_set_password p iso env input.body

  -- The module of /api/auth/login.
  abbrev pub post_login : Input → Exec p.Store Response
  post_login input = Login.post_login p input.body

  -- The module of /api/auth/signup.
  abbrev pub post_signup : Input → Exec p.Store Response
  post_signup input = Signup.post_signup p env input.origin input.body

  -- The module of /api/auth/verify.
  abbrev pub get_verify : Input → Exec p.Store Response
  get_verify input = Verify.get_verify p env input.token input.email input.kind

  -- What the modules export.
  abbrev pub server_handlers : Endpoint → Method → Option (Input → Exec p.Store Response)
  server_handlers google get = some get_google
  server_handlers google_callback get = some get_callback
  server_handlers login post = some post_login
  server_handlers magic_link post = some post_magic_link
  server_handlers set_password post = some post_set_password
  server_handlers signup post = some post_signup
  server_handlers verify get = some get_verify
  server_handlers _ _ = none
