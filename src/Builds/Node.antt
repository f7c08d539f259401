-- ===== src/Builds/Node.antt =====
-- marketing-site/.svelte-kit/adapter-node: manifest.js, manifest-full.js, and the modules under
-- entries/endpoints/api/auth. Google, the magic link and the password are as in the sources;
-- login and verify are older.
use temporal_cloud_offering.Prelude.{ℕ, List, [], ◌∷◌, Option, none, some}
use temporal_cloud_offering.Text.{Text, codes}
use temporal_cloud_offering.Platform.{Platform}
use temporal_cloud_offering.Platform.Exec.{Exec}
use temporal_cloud_offering.Auth.{Env, Response}
use temporal_cloud_offering.Auth.Google
use temporal_cloud_offering.Auth.MagicLink
use temporal_cloud_offering.Auth.Password
use temporal_cloud_offering.Auth.Deployed.{post_kv_login, get_link_verify}
use temporal_cloud_offering.Builds.{
  Endpoint, google, google_callback, login, magic_link, set_password, verify, Route, Method, get,
  post, Input, api_route, page_route, site_layouts, site_errors, dashboard_layouts,
  dashboard_errors,
}

-- `routes` of manifest.js: the endpoints, since the pages are prerendered.
abbrev pub node_routes : List Route
node_routes =
    (api_route (codes "/api/auth/google") google)
    ∷ (api_route (codes "/api/auth/google/callback") google_callback)
    ∷ (api_route (codes "/api/auth/login") login)
    ∷ (api_route (codes "/api/auth/magic-link") magic_link)
    ∷ (api_route (codes "/api/auth/set-password") set_password)
    ∷ (api_route (codes "/api/auth/verify") verify)
    ∷ []

-- `prerendered_routes` of manifest.js
abbrev pub node_prerendered : List Text
node_prerendered =
    codes "/"
    ∷ codes "/auth/verify"
    ∷ codes "/dashboard"
    ∷ codes "/dashboard/batch-operations"
    ∷ codes "/dashboard/billing"
    ∷ codes "/dashboard/namespaces"
    ∷ codes "/dashboard/schedules"
    ∷ codes "/dashboard/settings"
    ∷ codes "/dashboard/settings/security"
    ∷ codes "/dashboard/ui"
    ∷ codes "/login"
    ∷ []

-- `routes` of manifest-full.js
abbrev pub node_full_routes : List Route
node_full_routes =
    (page_route (codes "/") site_layouts site_errors 3)
    ∷ (api_route (codes "/api/auth/google") google)
    ∷ (api_route (codes "/api/auth/google/callback") google_callback)
    ∷ (api_route (codes "/api/auth/login") login)
    ∷ (api_route (codes "/api/auth/magic-link") magic_link)
    ∷ (api_route (codes "/api/auth/set-password") set_password)
    ∷ (api_route (codes "/api/auth/verify") verify)
    ∷ (page_route (codes "/auth/verify") site_layouts site_errors 4)
    ∷ (page_route (codes "/dashboard") dashboard_layouts dashboard_errors 5)
    ∷ (page_route (codes "/dashboard/batch-operations") dashboard_layouts dashboard_errors 6)
    ∷ (page_route (codes "/dashboard/billing") dashboard_layouts dashboard_errors 7)
    ∷ (page_route (codes "/dashboard/namespaces") dashboard_layouts dashboard_errors 8)
    ∷ (page_route (codes "/dashboard/schedules") dashboard_layouts dashboard_errors 9)
    ∷ (page_route (codes "/dashboard/settings") dashboard_layouts dashboard_errors 10)
    ∷ (page_route (codes "/dashboard/settings/security") dashboard_layouts dashboard_errors 11)
    ∷ (page_route (codes "/dashboard/ui") dashboard_layouts dashboard_errors 12)
    ∷ (page_route (codes "/login") site_layouts site_errors 13)
    ∷ []

module _ (p : Platform) (iso : ℕ → Text) (env : Env) where
  -- The module of /api/auth/google.
  abbrev pub get_google : Input → Exec p.Store Response
  get_google input = Google.get_google p env input.origin

  -- The module of /api/auth/google/callback.
  abbrev pub get_callback : Input → Exec p.Store Response
  get_callback input = Google.get_callback p env input.code input.error

  -- The module of /api/auth/magic-link.
  abbrev pub post_magic_link : Input → Exec p.Store Response
  post_magic_link input = MagicLink.post_magic_link p env input.origin input.body

  -- The module of /api/auth/set-password.
  abbrev pub post_set_password : Input → Exec p.Store Response
  post_set_password input = Password.post_set_password p iso env input.body

  -- What the modules export.
  abbrev pub node_handlers : Endpoint → Method → Option (Input → Exec p.Store Response)
  node_handlers google get = some get_google
  node_handlers google_callback get = some get_callback
  node_handlers login post = some (λ input. post_kv_login p env input.body)
  node_handlers magic_link post = some post_magic_link
  node_handlers set_password post = some post_set_password
  node_handlers verify get = some (λ input. get_link_verify p env input.token input.email)
  node_handlers _ _ = none
