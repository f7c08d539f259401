-- ===== src/Proxy/Pages.antt =====
-- marketing-site/functions/api/[[path]].ts: the Cloudflare Pages function.
pub mod Laws
use temporal_cloud_offering.Prelude.{List, [], ◌∷◌, ◌++◌, Option, none, some, not, if◌then◌else◌}
use temporal_cloud_offering.Text.{Text, codes, non_empty, strip_prefix, ◌==◌}
use temporal_cloud_offering.Proxy.{
  Incoming, Outgoing, Fetched, replied, failed, Answer, empty, relayed, append_headers, spread,
  optional_header, cors_headers, json_type, error_body, unavailable_body,
}

-- `url.pathname.replace(/^\/api/, "")`
unfoldable pub api_path : Text → Text
api_path path = elim (strip_prefix (codes "/api") path) [ none ↦ path | some rest ↦ rest ]

abbrev pub page_headers : List (Text × Text)
page_headers = cors_headers ++ json_type ∷ []

unfoldable pub forward : Text → Incoming → Outgoing
forward backend_url request = record {
  url = backend_url ++ codes "/api/v1" ++ api_path request.path ++ request.search;
  method = request.method;
  headers =
      json_type ∷ optional_header (codes "Authorization") request.authorization
      ++ optional_header (codes "X-API-Key") request.api_key;
  body = if not (request.method == codes "GET") then some request.body else none;
}

unfoldable pub relay : Fetched → Answer
relay (replied r) = record {
  status = r.status;
  status_text = [];
  headers = append_headers (spread page_headers r.headers) [];
  body = relayed r.body;
}
relay (failed error) = record {
  status = 502;
  status_text = [];
  headers = append_headers page_headers [];
  body = unavailable_body error;
}

unfoldable pub not_configured : Answer
not_configured = record {
  status = 500;
  status_text = [];
  headers = append_headers page_headers [];
  body = error_body (codes "Backend not configured");
}

-- `onRequest`, for a backend address, which may be empty: the answer, and the requests sent.
unfoldable pub on_request : (Outgoing → Fetched) → Text → Incoming → Answer × List Outgoing
on_request backend backend_url request =
    if not (non_empty backend_url)
    then (not_configured, [])
    else (relay (backend (forward backend_url request)), forward backend_url request ∷ [])

-- `onRequestOptions`
unfoldable pub on_request_options : Answer
on_request_options = record {
  status = 200;
  status_text = [];
  headers =
      append_headers (cors_headers ++ (codes "Access-Control-Max-Age", codes "86400") ∷ []) [];
  body = empty;
}
