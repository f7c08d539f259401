-- ===== src/Proxy/Worker/Laws.antt =====
-- What the Worker promises: where a request goes, that every answer carries the CORS headers, and
-- when a backend is contacted.
use temporal_cloud_offering.Prelude.{
  append_assoc, ◌≢◌, ap, ◌∙◌, ◌≡◌, refl, ◌⊎◌, inl, inr, true, false, List, [], ◌∷◌, ◌++◌, none,
  some, arith, Bool-cases, Option-cases, if◌then◌else◌,
}
use temporal_cloud_offering.Text.{
  or_else, non_empty, Text, codes, lookup, insert, starts_with, ◌==◌, replace_first,
}
use temporal_cloud_offering.Text.Laws.{
  starts_with-rest, starts_with-append, replace_first-append, ==_iff,
}
use temporal_cloud_offering.Proxy.{
  empty, error_body, Incoming, Outgoing, Fetched, BackendReply, replied, failed, append_header,
  append_headers, lower, set_headers, cors_headers, relayed,
}
use temporal_cloud_offering.Proxy.Laws.{lookup-set_header}
use temporal_cloud_offering.Proxy.Worker.{
  Env, has_body, route, forward, relay, preflight, not_found, worker_fetch,
}

temporal_not_api : (rest : Text) → starts_with (codes "/temporal/" ++ rest) (codes "/api/") ≡ false
unfolding starts_with
temporal_not_api rest = refl

module _ (env : Env) (rest : Text) where
  -- A path below /api/ goes to the billing backend, /api/health to its /health and any other
  -- below its /api/v1/; a path below /temporal/ goes to the Temporal backend without that prefix.
  route_paths :
      (route env (codes "/api/" ++ rest)
        ≡ some (
          env.oke_billing_url,
          if rest == codes "health" then codes "/health" else codes "/api/v1/" ++ rest,
        ))
      × (route env (codes "/temporal/" ++ rest) ≡ some (env.oke_temporal_url, codes "/" ++ rest))
  unfolding route ◌==◌
  route_paths = (
    ground (
      arith,
      starts_with-append (codes "/api/") rest,
      replace_first-append (codes "/api") (codes "/" ++ rest) [],
    ),
    ground (
      arith,
      starts_with-append (codes "/temporal/") rest,
      temporal_not_api rest,
      replace_first-append (codes "/temporal") (codes "/" ++ rest) [],
    ),
  )

-- A backend, and the paths that the Worker may ask of it.
abbrev pub IsConfined : Env → Text × Text → Type 0
IsConfined env (backend, path) =
    ((backend ≡ env.oke_billing_url)
      × ((path ≡ codes "/health") ⊎ (starts_with path (codes "/api/v1/") ≡ true)))
    ⊎ ((backend ≡ env.oke_temporal_url) × (starts_with path (codes "/") ≡ true))

api-IsConfined :
    (env : Env) (path : Text)
    → starts_with path (codes "/api/") ≡ true
    → IsConfined env (env.oke_billing_url, codes "/api/v1" ++ replace_first path (codes "/api") [])
api-IsConfined env path e =
    let (rest, split) = starts_with-rest path (codes "/api/") e in
    inl (
      refl,
      inr (
          rw (split, replace_first-append (codes "/api") (codes "/" ++ rest) [])
            (starts_with-append (codes "/api/v1/") rest)),
    )

temporal-IsConfined :
    (env : Env) (path : Text)
    → starts_with path (codes "/temporal/") ≡ true
    → IsConfined env (env.oke_temporal_url, replace_first path (codes "/temporal") [])
temporal-IsConfined env path e =
    let (rest, split) = starts_with-rest path (codes "/temporal/") e in
    inr (
      refl,
      rw (split, replace_first-append (codes "/temporal") (codes "/" ++ rest) [])
          (starts_with-append (codes "/") rest),
    )

-- Whatever the path, a request goes to the billing backend at /health or below /api/v1/, or to
-- the Temporal backend below /, or nowhere.
pub route-IsConfined :
    (env : Env) (path : Text) (target : Text × Text)
    → route env path ≡ some target
    → IsConfined env target
unfolding route
route-IsConfined env path target e = elim (Bool-cases (path == codes "/api/health")) [
  | inl health ↦ ground arith
  | inr other ↦ elim (Bool-cases (starts_with path (codes "/api/"))) [
    | inl api ↦ ground (arith, api-IsConfined env path api)
    | inr not_api ↦ elim (Bool-cases (starts_with path (codes "/temporal/"))) [
      | inl temporal ↦ ground (arith, temporal-IsConfined env path temporal)
      | inr neither ↦ ground arith
    ]
  ]
]

-- The three CORS headers, with the Worker's values.
abbrev pub HasCors : List (Text × Text) → Type 0
HasCors headers =
    (lookup (codes "access-control-allow-origin") headers ≡ some (codes "*"))
    × (lookup (codes "access-control-allow-methods") headers
        ≡ some (codes "GET, POST, PUT, DELETE, OPTIONS"))
    × (lookup (codes "access-control-allow-headers") headers
        ≡ some (codes "Content-Type, Authorization, X-API-Key"))

set_headers-HasCors : (headers : List (Text × Text)) → HasCors (set_headers cors_headers headers)
unfolding set_headers lower ◌==◌
set_headers-HasCors headers =
    (simp lookup-set_header, simp lookup-set_header, simp lookup-set_header)

fixed-HasCors : HasCors preflight.headers × HasCors not_found.headers
unfolding preflight not_found append_headers append_header lookup insert lower
fixed-HasCors = ((refl, refl, refl), (refl, refl, refl))

relay-HasCors : (f : Fetched) → HasCors (relay f).headers
unfolding relay append_headers append_header lookup insert lower
relay-HasCors (replied r) = set_headers-HasCors r.headers
relay-HasCors (failed error) = (refl, refl, refl)

-- Every answer carries the CORS headers, also where the backend sends its own, or fails.
pub worker_fetch-HasCors :
    (backend : Outgoing → Fetched) (env : Env) (request : Incoming)
    → HasCors (worker_fetch backend env request).0.headers
unfolding worker_fetch
worker_fetch-HasCors backend env request = elim (Bool-cases (request.method == codes "OPTIONS")) [
  | inl options ↦ rw options (fixed-HasCors.0)
  | inr other ↦ elim (Option-cases (route env request.path)) [
    | inl unknown ↦ rw (other, unknown) (fixed-HasCors.1)
    | inr (target, known) ↦ rw (other, known) (relay-HasCors (backend (forward request target)))
  ]
]

-- Where a path leads: the backend and the path there.
abbrev pub Leads : Env → Text → Text × Text → Type 0
Leads env path (backend, there) =
    ((path ≡ codes "/api/health") × (backend ≡ env.oke_billing_url) × (there ≡ codes "/health"))
    ⊎ (((rest : Text) × ((path ≡ codes "/api/" ++ rest)
            × (rest ≢ codes "health")
            × (backend ≡ env.oke_billing_url)
            × (there ≡ codes "/api/v1/" ++ rest)))
        ⊎ ((rest : Text) × ((path ≡ codes "/temporal/" ++ rest)
              × (backend ≡ env.oke_temporal_url)
              × (there ≡ codes "/" ++ rest))))

route-Leads :
    (env : Env) (path : Text) (target : Text × Text)
    → route env path ≡ some target
    → Leads env path target
unfolding route
route-Leads env path target e = elim (Bool-cases (path == codes "/api/health")) [
  | inl health ↦ inl ((==_iff path (codes "/api/health")).0 health, ground arith, ground arith)
  | inr other ↦ elim (Bool-cases (starts_with path (codes "/api/"))) [
    | inl api ↦
        let (rest, split) = starts_with-rest path (codes "/api/") api in
        let differs : path ≢ codes "/api/health" =
          λ same. ground (arith, ==_iff path (codes "/api/health")) in
        let there : replace_first path (codes "/api") [] ≡ codes "/" ++ rest =
          ap (λ t. replace_first t (codes "/api") []) split
          ∙ replace_first-append (codes "/api") (codes "/" ++ rest) [] in
        inr (
          inl (
            rest,
            (
              split,
              (λ same. differs (split ∙ ap (λ t. codes "/api/" ++ t) same)),
              ground arith,
              ground arith,
            ),
          ))
    | inr not_api ↦ elim (Bool-cases (starts_with path (codes "/temporal/"))) [
      | inl temporal ↦
          let (rest, split) = starts_with-rest path (codes "/temporal/") temporal in
          let there : replace_first path (codes "/temporal") [] ≡ codes "/" ++ rest =
            ap (λ t. replace_first t (codes "/temporal") []) split
            ∙ replace_first-append (codes "/temporal") (codes "/" ++ rest) [] in
          inr (inr (rest, (split, ground arith, ground arith)))
      | inr neither ↦ absurd (ground arith)
    ]
  ]
]

no_route :
    (env : Env) (path : Text)
    → route env path ≡ none
    → (starts_with path (codes "/api/") ≡ false) × (starts_with path (codes "/temporal/") ≡ false)
unfolding route
no_route env path e = (ground arith, ground arith)

-- What is sent for a request: its method, its query, its body but for GET and HEAD, and its three
-- headers, where the type of the content is JSON if none is given.
abbrev pub IsSent : Incoming → Text × Text → Outgoing → Type 0
IsSent request (backend, there) out =
    (out.url ≡ backend ++ (there ++ request.search))
    × (out.method ≡ request.method)
    × ((((request.method ≡ codes "GET") ⊎ (request.method ≡ codes "HEAD")) × (out.body ≡ none))
        ⊎ ((request.method ≢ codes "GET")
            × (request.method ≢ codes "HEAD")
            × (out.body ≡ some request.body)))
    × (lookup (codes "Content-Type") out.headers
        ≡ some (or_else request.content_type (codes "application/json")))
    × (lookup (codes "Authorization") out.headers
        ≡ (if non_empty request.authorization then some request.authorization else none))
    × (lookup (codes "X-API-Key") out.headers
        ≡ (if non_empty request.api_key then some request.api_key else none))

sent_body :
    (request : Incoming) (target : Text × Text)
    → (((request.method ≡ codes "GET") ⊎ (request.method ≡ codes "HEAD"))
        × ((forward request target).body ≡ none))
      ⊎ ((request.method ≢ codes "GET")
          × (request.method ≢ codes "HEAD")
          × ((forward request target).body ≡ some request.body))
unfolding forward has_body
sent_body request target =
    let get = ==_iff request.method (codes "GET") in
    let head = ==_iff request.method (codes "HEAD") in
    elim (Bool-cases (request.method == codes "GET")) [
      | inl g ↦ inl (inl (get.0 g), rw (g, has_body) refl)
      | inr not_get ↦ elim (Bool-cases (request.method == codes "HEAD")) [
        | inl g ↦ inl (inr (head.0 g), rw (not_get, g, has_body) refl)
        | inr not_head ↦
            inr (
              (λ same. ground arith),
              (λ same. ground arith),
              rw (not_get, not_head, has_body) refl,
            )
      ]
    ]

forward-IsSent :
    (request : Incoming) (target : Text × Text) → IsSent request target (forward request target)
unfolding forward lookup ◌==◌
forward-IsSent request target =
    let url = append_assoc target.0 target.1 request.search in
    let body = sent_body request target in
    elim (Bool-cases (non_empty request.authorization)) [
      | inl signed ↦ elim (Bool-cases (non_empty request.api_key)) [
        | inl keyed ↦ (url, refl, body, refl, rw signed refl, rw (signed, keyed) refl)
        | inr no_key ↦ (url, refl, body, refl, rw signed refl, rw (signed, no_key) refl)
      ]
      | inr unsigned ↦ elim (Bool-cases (non_empty request.api_key)) [
        | inl keyed ↦ (url, refl, body, refl, rw (unsigned, keyed) refl, rw (unsigned, keyed) refl)
        | inr no_key ↦
            (url, refl, body, refl, rw (unsigned, no_key) refl, rw (unsigned, no_key) refl)
      ]
    ]

relay_cases :
    (f : Fetched)
    → ((r : BackendReply) × (f ≡ replied r)
        × ((relay f).status ≡ r.status)
        × ((relay f).status_text ≡ r.status_text)
        × ((relay f).body ≡ relayed r.body))
      ⊎ ((error : Text) × (f ≡ failed error) × ((relay f).status ≡ 502))
unfolding relay
relay_cases (replied r) = inl (r, refl, refl, refl, refl)
relay_cases (failed error) = inr (error, refl, refl)

-- An OPTIONS request contacts no backend, and is answered with 200 and no body. Nor does one whose
-- path begins with neither /api/ nor /temporal/, which is answered with 404. Any other is sent on
-- once, with its method, its query, its body but for GET and HEAD, and its Content-Type,
-- Authorization and X-API-Key, to where its path leads: /api/health to /health of the billing backend,
-- any other path below /api/ to the same below its /api/v1/, and a path below /temporal/ to the
-- Temporal backend without that prefix. The answer has the status, the status text and the body
-- of the reply, or, where the backend fails, the status 502.
pub worker_fetch_contacts :
    (backend : Outgoing → Fetched) (env : Env) (request : Incoming)
    → let (answer, sent) = worker_fetch backend env request in
      ((sent ≡ [])
        × (((request.method ≡ codes "OPTIONS") × (answer.status ≡ 200) × (answer.body ≡ empty))
            ⊎ ((starts_with request.path (codes "/api/") ≡ false)
                × (starts_with request.path (codes "/temporal/") ≡ false)
                × (answer.status ≡ 404)
                × (answer.body ≡ error_body (codes "Not found")))))
      ⊎ ((target : Text × Text) × (out : Outgoing) × ((request.method ≢ codes "OPTIONS")
            × Leads env request.path target
            × IsSent request target out
            × (sent ≡ out ∷ [])
            × (((r : BackendReply) × (backend out ≡ replied r)
                  × (answer.status ≡ r.status)
                  × (answer.status_text ≡ r.status_text)
                  × (answer.body ≡ relayed r.body))
                ⊎ ((error : Text) × (backend out ≡ failed error) × (answer.status ≡ 502)))))
unfolding worker_fetch preflight not_found
worker_fetch_contacts backend env request =
    let named = ==_iff request.method (codes "OPTIONS") in
    elim (Bool-cases (request.method == codes "OPTIONS")) [
      | inl options ↦ rw options (inl (refl, inl (named.0 options, refl, refl)))
      | inr other ↦ elim (Option-cases (route env request.path)) [
        | inl unknown ↦
            let (not_api, not_temporal) = no_route env request.path unknown in
            rw (other, unknown) (inl (refl, inr (not_api, not_temporal, refl, refl)))
        | inr (target, known) ↦
            let out = forward request target in
            rw (other, known)
              (inr (
                target,
                out,
                (
                  (λ same. ground arith),
                  route-Leads env request.path target known,
                  forward-IsSent request target,
                  refl,
                  relay_cases (backend out),
                ),
              ))
      ]
    ]
