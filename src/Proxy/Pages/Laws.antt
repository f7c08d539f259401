-- ===== src/Proxy/Pages/Laws.antt =====
-- What the Pages function promises, and what becomes of a HEAD request.
use temporal_cloud_offering.Prelude.{◌≡◌, refl, ◌⊎◌, inl, inr, true, [], ◌∷◌, ◌++◌, some, arith}
use temporal_cloud_offering.Text.{lookup, insert, Text, codes, ◌==◌, non_empty}
use temporal_cloud_offering.Text.Laws.{strip_prefix-append}
use temporal_cloud_offering.Proxy.{
  append_headers, append_header, spread, lower, Incoming, Outgoing, Fetched, BackendReply, replied,
  failed, relayed,
}
use temporal_cloud_offering.Proxy.Pages.{api_path, forward, relay, not_configured, on_request}

relay_cases :
    (f : Fetched)
    → ((r : BackendReply) × (f ≡ replied r)
        × ((relay f).status ≡ r.status)
        × ((relay f).body ≡ relayed r.body))
      ⊎ ((error : Text) × (f ≡ failed error) × ((relay f).status ≡ 502))
unfolding relay
relay_cases (replied r) = inl (r, refl, refl, refl)
relay_cases (failed error) = inr (error, refl, refl)

-- Without a backend address the answer is that it is not configured, and nothing is sent; with
-- one, the request is sent once, and the answer has the status and the body of the reply, or,
-- where the backend fails, the status 502.
on_request_contacts :
    (backend : Outgoing → Fetched) (backend_url : Text) (request : Incoming)
    → let (answer, sent) = on_request backend backend_url request in
      ((backend_url ≡ []) × (sent ≡ []) × (answer ≡ not_configured))
      ⊎ ((sent ≡ forward backend_url request ∷ [])
          × (((r : BackendReply) × (backend (forward backend_url request) ≡ replied r)
                × (answer.status ≡ r.status)
                × (answer.body ≡ relayed r.body))
              ⊎ ((error : Text) × (backend (forward backend_url request) ≡ failed error)
                  × (answer.status ≡ 502))))
unfolding on_request
on_request_contacts backend [] request = inl (refl, refl, refl)
on_request_contacts backend (c ∷ url) request =
    inr (refl, relay_cases (backend (forward (c ∷ url) request)))

-- A path below /api is sent to the backend below /api/v1, with the query as it came.
forward_url :
    (backend_url rest : Text) (request : Incoming)
    → request.path ≡ codes "/api" ++ rest
    → (forward backend_url request).url ≡ backend_url ++ codes "/api/v1" ++ rest ++ request.search
unfolding forward api_path
forward_url backend_url rest request e =
    rw (e, strip_prefix-append (codes "/api") rest, api_path) refl

-- Over a `fetch` that rejects every HEAD request with a body, every HEAD request to a configured
-- function is answered with 502.
on_request_head :
    (backend : Outgoing → Fetched) (backend_url : Text) (request : Incoming)
    → ((out : Outgoing) (body : Text)
        → out.method ≡ codes "HEAD"
        → out.body ≡ some body
        → (error : Text) × (backend out ≡ failed error))
    → non_empty backend_url ≡ true
    → request.method ≡ codes "HEAD"
    → (on_request backend backend_url request).0.status ≡ 502
unfolding on_request forward relay ◌==◌
on_request_head backend backend_url request rejects configured head =
    let (error, e) = rejects (forward backend_url request) request.body head (rw head refl) in
    ground (arith, configured, e)

-- A reply that carries its own Content-Type and its own allowed origin: both values of each header
-- stand in the answer, joined by a comma, with the function's own in front.
relay_joins :
    (r : BackendReply) (type origin : Text)
    → r.headers ≡ (codes "access-control-allow-origin", origin) ∷ (codes "content-type", type) ∷ []
    → let headers = (relay (replied r)).headers in
      (lookup (codes "content-type") headers ≡ some (codes "application/json, " ++ type))
      × (lookup (codes "access-control-allow-origin") headers ≡ some (codes "*, " ++ origin))
unfolding relay spread append_headers append_header insert lookup lower
relay_joins r type origin e = rw e (refl, refl)
