-- ===== src/Builds/Laws.antt =====
-- Routing in the builds: no path has two routes, and where signing up is served.
use temporal_cloud_offering.Prelude.{
  ℕ, ◌≡◌, refl, ◌≤◌, ◌⊎◌, inl, inr, Bool, true, not, ◌&&◌, List, [], ◌∷◌, ◌++◌, arith, length,
  if◌then◌else◌,
}
use temporal_cloud_offering.Text.{Text, codes, ◌==◌}
use temporal_cloud_offering.Text.Laws.{==_iff}
use temporal_cloud_offering.Platform.{Platform}
use temporal_cloud_offering.Platform.Exec.{World, done}
use temporal_cloud_offering.Auth.{Env, Response}
use temporal_cloud_offering.Auth.Signup.{post_signup}
use temporal_cloud_offering.Builds.{Route, matches, find_route, member, Input, serve, post, get}
use temporal_cloud_offering.Builds.Node.{
  node_routes, node_full_routes, node_prerendered, node_handlers,
}
use temporal_cloud_offering.Builds.Server.{
  server_routes, server_full_routes, server_prerendered, cloudflare_routes, server_handlers,
}

matches-paths : (id path : Text) → matches id path ≡ true → (path ≡ id) ⊎ (path ≡ id ++ codes "/")
unfolding matches
matches-paths id path e = ground (arith, ==_iff id path, ==_iff (id ++ codes "/") path)

-- The routes whose pattern matches.
abbrev pub matching : List Route → Text → List Route
matching [] path = []
matching (r ∷ routes) path =
    let later = matching routes path in if matches r.id path then r ∷ later else later

-- No route of the list matches the two paths of an id.
apart : Text → List Route → Bool
unfolding matches
apart id [] = true
apart id (s ∷ routes) =
    let later = apart id routes in
    not (matches s.id id) && not (matches s.id (id ++ codes "/")) && later

clear : List Route → Bool
unfolding apart
clear [] = true
clear (r ∷ routes) = let later = clear routes in apart r.id routes && later

apart-matching :
    (id path : Text) (routes : List Route)
    → apart id routes ≡ true
    → matches id path ≡ true
    → matching routes path ≡ []
unfolding apart
apart-matching id path [] a m = refl
apart-matching id path (s ∷ routes) a m = elim (matches-paths id path m) [
  | inl e ↦ rw e (ground (arith, apart-matching id id routes, rw e at m))
  | inr e ↦ rw e (ground (arith, apart-matching id (id ++ codes "/") routes, rw e at m))
]

clear-matching :
    (routes : List Route) (path : Text) → clear routes ≡ true → length (matching routes path) ≤ 1
unfolding clear
clear-matching [] path c = omega arith
clear-matching (r ∷ routes) path c =
    ground (arith, apart-matching r.id path routes, clear-matching routes path)

-- In each manifest, at most one route matches a path.
routes_unambiguous :
    (path : Text)
    → (length (matching node_routes path) ≤ 1)
      × (length (matching node_full_routes path) ≤ 1)
      × (length (matching server_routes path) ≤ 1)
      × (length (matching server_full_routes path) ≤ 1)
      × (length (matching cloudflare_routes path) ≤ 1)
unfolding clear apart matches ◌==◌
routes_unambiguous path = (
  clear-matching node_routes path refl,
  clear-matching node_full_routes path refl,
  clear-matching server_routes path refl,
  clear-matching server_full_routes path refl,
  clear-matching cloudflare_routes path refl,
)

module _ (p : Platform) (iso : ℕ → Text) (env : Env) (asset : Text → Response)
    (unserved : Response) where
  -- The page /signup is prerendered in the server build alone. A POST to the signup reaches its
  -- handler there, and none in the Node build.
  signup_served :
      (input : Input) (w : World p.Store)
      → let in_server =
          serve asset unserved server_prerendered server_routes (server_handlers p iso env) in
        let in_node = serve asset unserved node_prerendered node_routes (node_handlers p iso env) in
        (in_server get (codes "/signup") input w ≡ (done (asset (codes "/signup")), w))
        × (in_node get (codes "/signup") input w ≡ (done unserved, w))
        × (in_server post (codes "/api/auth/signup") input w
            ≡ post_signup p env input.origin input.body w)
        × (in_node post (codes "/api/auth/signup") input w ≡ (done unserved, w))
  unfolding serve find_route member matches ◌==◌
  signup_served input w = (refl, refl, refl, refl)
