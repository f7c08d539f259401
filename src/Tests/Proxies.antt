-- ===== src/Tests/Proxies.antt =====
-- Requests through the two proxies.
use temporal_cloud_offering.Prelude.{false, ◌≢◌, ◌≡◌, refl, ◌⊎◌, [], ◌∷◌, some, if◌then◌else◌}
use temporal_cloud_offering.Text.{Text, codes, ◌==◌, starts_with, replace_first}
use temporal_cloud_offering.Proxy.{
  empty, error_body, Incoming, Outgoing, Fetched, BackendReply, replied, failed, relayed,
}
use temporal_cloud_offering.Proxy.Worker.{Env, route, worker_fetch}
use temporal_cloud_offering.Proxy.Worker.Laws.{
  route-IsConfined, worker_fetch-HasCors, worker_fetch_contacts, Leads, IsSent, IsConfined, HasCors,
}

abbrev env : Env
env = record {
  oke_billing_url = codes "http://billing";
  oke_temporal_url = codes "http://temporal";
}

abbrev request : Text → Incoming
request method = record {
  method = method;
  path = codes "/api/usage";
  search = codes "?org=1";
  content_type = [];
  authorization = codes "Bearer x";
  api_key = [];
  body = codes "{}";
}

-- Rejects a HEAD with a body, as `fetch` does.
abbrev backend : Outgoing → Fetched
backend out =
    if out.method == codes "HEAD"
    then failed (codes "TypeError")
    else replied (record {
      status = 201;
      status_text = codes "Created";
      headers = (codes "content-type", codes "text/plain") ∷ [];
      body = codes "ok";
    })

abbrev target : Text × Text
target = (codes "http://billing", codes "/api/v1/usage")

routed : route env (codes "/api/usage") ≡ some target
unfolding route starts_with replace_first ◌==◌
routed = refl

route-IsConfined_example : IsConfined env target
route-IsConfined_example = route-IsConfined env (codes "/api/usage") target routed

worker_fetch-HasCors_example : HasCors (worker_fetch backend env (request (codes "POST"))).0.headers
worker_fetch-HasCors_example = worker_fetch-HasCors backend env (request (codes "POST"))

worker_fetch_contacts_example :
    let posted = request (codes "POST") in
    let (answer, sent) = worker_fetch backend env posted in
    ((sent ≡ [])
      × (((codes "POST" ≡ codes "OPTIONS") × (answer.status ≡ 200) × (answer.body ≡ empty))
          ⊎ ((starts_with posted.path (codes "/api/") ≡ false)
              × (starts_with posted.path (codes "/temporal/") ≡ false)
              × (answer.status ≡ 404)
              × (answer.body ≡ error_body (codes "Not found")))))
    ⊎ ((to : Text × Text) × (out : Outgoing) × ((codes "POST" ≢ codes "OPTIONS")
          × Leads env posted.path to
          × IsSent posted to out
          × (sent ≡ out ∷ [])
          × (((r : BackendReply) × (backend out ≡ replied r)
                × (answer.status ≡ r.status)
                × (answer.status_text ≡ r.status_text)
                × (answer.body ≡ relayed r.body))
              ⊎ ((error : Text) × (backend out ≡ failed error) × (answer.status ≡ 502)))))
worker_fetch_contacts_example = worker_fetch_contacts backend env (request (codes "POST"))

abbrev url : Text
url = codes "http://backend"

rejects_head :
    (out : Outgoing) (body : Text)
    → out.method ≡ codes "HEAD"
    → out.body ≡ some body
    → (error : Text) × (backend out ≡ failed error)
unfolding ◌==◌
rejects_head out body e given = (codes "TypeError", rw e refl)

abbrev reply : BackendReply
reply = record {
  status = 200;
  status_text = codes "OK";
  headers =
      (codes "access-control-allow-origin", codes "https://site")
      ∷ (codes "content-type", codes "text/plain")
      ∷ [];
  body = codes "ok";
}
