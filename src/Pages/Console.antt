-- ===== src/Pages/Console.antt =====
-- The pages below /dashboard, marketing-site/src/routes/dashboard, which go to the console, whose
-- address is in marketing-site/src/lib/config.ts, and the logout of the site's layout,
-- marketing-site/src/routes/+layout.svelte.
use temporal_cloud_offering.Prelude.{◌≡◌, refl, true, List, [], ◌∷◌, All, if◌then◌else◌}
use temporal_cloud_offering.Text.{Text, codes, or_else, starts_with}
use temporal_cloud_offering.Builds.{Route}
use temporal_cloud_offering.Builds.Server.{server_full_routes}
use temporal_cloud_offering.Builds.Node.{node_full_routes}
use temporal_cloud_offering.Session.{Session, logout}
use temporal_cloud_offering.Session.Runtime.{Browser}

-- `config.urls.app`, on VITE_APP_URL; an absent one is empty.
abbrev pub app_url : Text → Text
app_url vite_app_url = or_else vite_app_url (codes "http://ui.temporal.zach.cloud")

-- What a page shows, and the address that it sets `window.location.href` to when it is mounted.
pub record Redirection : Type 0 where
  pub label : Text
  pub text : Text
  pub opens : Text

abbrev pub redirection : Text → Text → Text → Redirection
redirection label text app = record { label = label; text = text; opens = app }

module _ (vite_app_url : Text) where
  abbrev pub dashboard_page : Redirection
  dashboard_page =
      redirection (codes "Redirecting to Temporal Cloud Console")
        (codes "Opening Temporal Cloud Console…") (app_url vite_app_url)

  abbrev pub batch_operations_page : Redirection
  batch_operations_page =
      redirection (codes "Redirecting to Batch Operations")
        (codes "Opening Batch Operations in Temporal Cloud Console…") (app_url vite_app_url)

  abbrev pub billing_page : Redirection
  billing_page =
      redirection (codes "Redirecting to Billing Console")
        (codes "Opening Billing in Temporal Cloud Console…") (app_url vite_app_url)

  abbrev pub namespaces_page : Redirection
  namespaces_page =
      redirection (codes "Redirecting to Namespaces")
        (codes "Opening Namespaces in Temporal Cloud Console…") (app_url vite_app_url)

  abbrev pub schedules_page : Redirection
  schedules_page =
      redirection (codes "Redirecting to Schedules")
        (codes "Opening Schedules in Temporal Cloud Console…") (app_url vite_app_url)

  abbrev pub settings_page : Redirection
  settings_page =
      redirection (codes "Redirecting to Settings")
        (codes "Opening Settings in Temporal Cloud Console…") (app_url vite_app_url)

  abbrev pub security_page : Redirection
  security_page =
      redirection (codes "Redirecting to Security Settings")
        (codes "Opening Security settings in Temporal Cloud Console…") (app_url vite_app_url)

  abbrev pub ui_page : Redirection
  ui_page =
      redirection (codes "Redirecting to UI") (codes "Opening Temporal UI in Cloud Console…")
        (app_url vite_app_url)

  -- The layout around them.
  abbrev pub console_layout : Redirection
  console_layout =
      redirection [] (codes "Redirecting to Temporal Cloud Console...") (app_url vite_app_url)

  abbrev pub console_pages : List (Text × Redirection)
  console_pages =
      (codes "/dashboard", dashboard_page)
      ∷ (codes "/dashboard/batch-operations", batch_operations_page)
      ∷ (codes "/dashboard/billing", billing_page)
      ∷ (codes "/dashboard/namespaces", namespaces_page)
      ∷ (codes "/dashboard/schedules", schedules_page)
      ∷ (codes "/dashboard/settings", settings_page)
      ∷ (codes "/dashboard/settings/security", security_page)
      ∷ (codes "/dashboard/ui", ui_page)
      ∷ []

-- `handleLogout`: the session, and where the page goes.
unfoldable pub handle_logout : (b : Browser) → Session b.State → Session b.State × Text
handle_logout b session = (logout b true session, codes "/")

unfoldable pub paths_of : {A : Type 0} → List (Text × A) → List Text
paths_of [] = []
paths_of ((path, _) ∷ pages) = path ∷ paths_of pages

-- The routes of a manifest at or below /dashboard.
unfoldable pub console_routes : List Route → List Text
unfolding starts_with
console_routes [] = []
console_routes (route ∷ routes) =
    let rest = console_routes routes in
    if starts_with route.id (codes "/dashboard") then route.id ∷ rest else rest

-- Both builds have exactly these pages below /dashboard, in this order, and each goes to the same
-- address.
pub console_routes_lem :
    (vite_app_url : Text)
    → (console_routes server_full_routes ≡ paths_of (console_pages vite_app_url))
      × (console_routes node_full_routes ≡ paths_of (console_pages vite_app_url))
      × All (λ page. page.1.opens ≡ app_url vite_app_url) (console_pages vite_app_url)
unfolding console_routes paths_of
console_routes_lem vite_app_url =
    (refl, refl, (refl, (refl, (refl, (refl, (refl, (refl, (refl, (refl, tt)))))))))
