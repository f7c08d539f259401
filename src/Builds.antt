-- ===== src/Builds.antt =====
-- The committed builds of the site, marketing-site/.svelte-kit: the routes that their manifests
-- declare, and the handlers of their endpoints. Node.antt is the build for the Node adapter,
-- Server.antt the build under output/server, which cloudflare-tmp/manifest.js serves.
pub mod Node
pub mod Server
pub mod Laws
use temporal_cloud_offering.Prelude.{
  ℕ, Bool, true, false, not, ◌&&◌, ◌||◌, List, [], ◌∷◌, ◌++◌, Option, none, some, if◌then◌else◌,
}
use temporal_cloud_offering.Text.{Text, codes, ◌==◌}
use temporal_cloud_offering.Json.Doc.{Doc}
use temporal_cloud_offering.Platform.Exec.{Exec, pure}
use temporal_cloud_offering.Auth.{Response}

pub data Endpoint : Type 0 where
  google : Endpoint
  google_callback : Endpoint
  login : Endpoint
  magic_link : Endpoint
  set_password : Endpoint
  signup : Endpoint
  verify : Endpoint

-- `page: { layouts, errors, leaf }`: the numbers of the nodes; a hole of `errors` is `none`.
pub record Page : Type 0 where
  pub layouts : List ℕ
  pub errors : List (Option ℕ)
  pub leaf : ℕ

pub record Route : Type 0 where
  pub id : Text
  pub page : Option Page
  pub endpoint : Option Endpoint

abbrev pub api_route : Text → Endpoint → Route
api_route id endpoint = record { id = id; page = none; endpoint = some endpoint }

abbrev pub page_route : Text → List ℕ → List (Option ℕ) → ℕ → Route
page_route id layouts errors leaf = record {
  id = id;
  page = some (record { layouts = layouts; errors = errors; leaf = leaf });
  endpoint = none;
}

abbrev pub site_layouts : List ℕ
site_layouts = 0 ∷ []

abbrev pub site_errors : List (Option ℕ)
site_errors = some 1 ∷ []

abbrev pub dashboard_layouts : List ℕ
dashboard_layouts = 0 ∷ 2 ∷ []

abbrev pub dashboard_errors : List (Option ℕ)
dashboard_errors = some 1 ∷ none ∷ []

-- The `pattern` of a route: its id, with a slash behind it or without; the root only itself.
unfoldable pub matches : Text → Text → Bool
unfolding ◌==◌
matches id path = id == path || (not (id == codes "/") && (id ++ codes "/") == path)

-- The first route whose pattern matches.
unfoldable pub find_route : List Route → Text → Option Route
unfolding matches
find_route [] path = none
find_route (r ∷ routes) path =
    let later = find_route routes path in if matches r.id path then some r else later

pub data Method : Type 0 where
  get : Method
  post : Method

-- What the handlers read of a request: the origin, the body and the query.
pub record Input : Type 0 where
  pub origin : Text
  pub body : Doc
  pub token : Text
  pub email : Text
  pub kind : Text
  pub code : Text
  pub error : Text

unfoldable pub member : Text → List Text → Bool
unfolding ◌==◌
member path [] = false
member path (p ∷ paths) = let later = member path paths in p == path || later

-- A build: the paths of `prerendered_routes`, the routes, and the handler that a module of an
-- endpoint exports for a method. The file of a prerendered page, which the adapter serves, and what
-- SvelteKit answers without a handler are arguments.
module _ {S : Type 0} (asset : Text → Response) (unserved : Response) where
  abbrev served : Method → Input → Option (Input → Exec S Response) → Exec S Response
  served method input none = pure unserved
  served method input (some handler) = handler input

  abbrev routed :
      (Endpoint → Method → Option (Input → Exec S Response))
      → Method
      → Input
      → Option Route
      → Exec S Response
  routed handlers method input none = pure unserved
  routed handlers method input (some r) = elim r.endpoint [
    | none ↦ pure unserved
    | some e ↦ served method input (handlers e method)
  ]

  -- A GET of a prerendered page has its file, any other request what its route has.
  abbrev dispatched :
      Bool
      → List Route
      → (Endpoint → Method → Option (Input → Exec S Response))
      → Method
      → Text
      → Input
      → Exec S Response
  dispatched true routes handlers get path input = pure (asset path)
  dispatched _ routes handlers method path input =
      routed handlers method input (find_route routes path)

  unfoldable pub serve :
      List Text
      → List Route
      → (Endpoint → Method → Option (Input → Exec S Response))
      → Method
      → Text
      → Input
      → Exec S Response
  unfolding find_route member
  serve prerendered routes handlers method path input =
      dispatched (member path prerendered) routes handlers method path input
