-- ===== src/Proxy/Worker.antt =====
-- api-proxy/src/index.ts: the Cloudflare Worker.
pub mod Laws
use temporal_cloud_offering.Prelude.{
  Bool, true, false, not, ◌&&◌, ◌||◌, List, [], ◌∷◌, ◌++◌, Option, none, some, if◌then◌else◌,
}
use temporal_cloud_offering.Text.{Text, codes, or_else, replace_first, starts_with, ◌==◌}
use temporal_cloud_offering.Proxy.{
  Incoming, Outgoing, BackendReply, Fetched, replied, failed, Answer, empty, relayed, set_headers,
  append_headers, optional_header, cors_headers, json_type, error_body, unavailable_body,
}

pub record Env : Type 0 where
  pub oke_billing_url : Text
  pub oke_temporal_url : Text

-- The backend and the path there.
unfoldable pub route : Env → Text → Option (Text × Text)
route env path =
    if path == codes "/api/health"
    then some (env.oke_billing_url, codes "/health")
    else if starts_with path (codes "/api/")
    then some (env.oke_billing_url, codes "/api/v1" ++ replace_first path (codes "/api") [])
    else if starts_with path (codes "/temporal/")
    then some (env.oke_temporal_url, replace_first path (codes "/temporal") [])
    else none

-- `request.method !== "GET" && request.method !== "HEAD"`
unfoldable pub has_body : Text → Bool
has_body method = not (method == codes "GET") && not (method == codes "HEAD")

-- The request to the backend.
unfoldable pub forward : Incoming → Text × Text → Outgoing
forward request (backend, path) = record {
  url = backend ++ path ++ request.search;
  method = request.method;
  headers =
      (codes "Content-Type", or_else request.content_type (codes "application/json"))
        ∷ optional_header (codes "Authorization") request.authorization
      ++ optional_header (codes "X-API-Key") request.api_key;
  body = if has_body request.method then some request.body else none;
}

unfoldable pub relay : Fetched → Answer
relay (replied r) = record {
  status = r.status;
  status_text = r.status_text;
  headers = set_headers cors_headers r.headers;
  body = relayed r.body;
}
relay (failed error) = record {
  status = 502;
  status_text = [];
  headers = append_headers (cors_headers ++ json_type ∷ []) [];
  body = unavailable_body error;
}

unfoldable pub preflight : Answer
preflight = record {
  status = 200;
  status_text = [];
  headers = append_headers cors_headers [];
  body = empty;
}

unfoldable pub not_found : Answer
not_found = record {
  status = 404;
  status_text = [];
  headers = append_headers (cors_headers ++ json_type ∷ []) [];
  body = error_body (codes "Not found");
}

-- The handler, for a backend: the answer, and the requests that were sent.
unfoldable pub worker_fetch : (Outgoing → Fetched) → Env → Incoming → Answer × List Outgoing
worker_fetch backend env request =
    if request.method == codes "OPTIONS" then (preflight, []) else elim (route env request.path) [
      | none ↦ (not_found, [])
      | some target ↦ (relay (backend (forward request target)), forward request target ∷ [])
    ]
