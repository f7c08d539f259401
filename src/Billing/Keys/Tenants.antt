-- ===== src/Billing/Keys/Tenants.antt =====
-- Keys and organizations: who may make a key for whom.
use temporal_cloud_offering.Prelude.{
  ℕ, suc, ◌≡◌, refl, ap, ◌∙◌, inl, inr, Bool, true, false, List, [], ◌∷◌, ◌++◌, Option, some, arith,
  Bool-cases, subst,
}
use temporal_cloud_offering.Text.{Text, ◌==◌, non_empty}
use temporal_cloud_offering.Billing.Keys.Sound.{serve-enabled}
use temporal_cloud_offering.Billing.Keys.{
  auth_enabled, Host, ApiKey, Tables, Headers, next, called, exists, authenticate,
}
use temporal_cloud_offering.Billing.Keys.Api.{
  CreateApiKeyRequest, created, full_key, default_scopes, ensure_organization, insert_key,
  stored_row, issued, new_key, generate_api_key, expiry, create_api_key, create, path_of, handle,
  pass, serve,
}
use temporal_cloud_offering.Billing.Keys.Issue.{IsIssued, create-IsIssued}

abbrev pub knows : Text → Tables → Bool
knows organization w = exists (λ o. o.id == organization) w.organizations

module _ (h : Host) where
  ensure-known :
      (organization : Text) (w : Tables)
      → knows organization w ≡ true
      → ensure_organization h organization w ≡ called w
  unfolding ensure_organization
  ensure-known organization w known = elim (Bool-cases (h.fault w.calls)) [
    | inl fails ↦ rw fails refl
    | inr works ↦ rw (works, known) refl
  ]

  -- A request that is right in every part gets its key.
  create_completes :
      (org_id organization : Text) (req : CreateApiKeyRequest) (w : Tables) (expires : Option ℕ)
      (bytes : List ℕ)
      → h.parse_uuid org_id ≡ some organization
      → non_empty req.name ≡ true
      → expiry h req.expires_in (h.clock w.calls) ≡ some expires
      → h.random w.calls ≡ some bytes
      → knows organization w ≡ true
      → h.fault (suc (suc w.calls)) ≡ false
      → exists (λ k. k.id == h.new_uuid w.calls) w.api_keys ≡ false
      → (key : Text) × (row : ApiKey) × (v : Tables) × (create_api_key h org_id (some req) w
          ≡ (created key row, v))
  unfolding create_api_key generate_api_key ensure_organization insert_key
  create_completes org_id organization req w expires bytes parsed named timed drawn known works
        fresh =
      let made =
        new_key h bytes organization req.name (default_scopes req.scopes) expires w.calls in
      let ready = ensure_organization h organization (called w) in
      let same : ready ≡ called (called w) = ensure-known organization (called w) known in
      let stored : insert_key h made ready
          ≡ (true, record (called ready) { api_keys = w.api_keys ++ (stored_row h made ∷ []) }) =
        rw same (rw (works, known, fresh, insert_key) refl) in
      (
        full_key bytes,
        made,
        (insert_key h made ready).1,
        rw (parsed, named, timed, drawn, create_api_key, generate_api_key) (rw stored refl),
      )

  -- With the middleware on, a request that passes as one organization makes a key for any other that exists: the answer is
  -- 201, and the row of the new key belongs to the organization of the path. The request is right
  -- in every part, random bytes are given, the insertion does not fail and its id is new.
  pub cross_tenant :
      (headers : Headers) (org_id own other : Text) (req : CreateApiKeyRequest) (w u : Tables)
      (expires : Option ℕ) (bytes : List ℕ)
      → auth_enabled h.enable_auth ≡ true
      → authenticate h (path_of (create org_id (some req))) headers w ≡ (next (some own), u)
      → h.parse_uuid org_id ≡ some other
      → non_empty req.name ≡ true
      → expiry h req.expires_in (h.clock u.calls) ≡ some expires
      → h.random u.calls ≡ some bytes
      → knows other u ≡ true
      → h.fault (suc (suc u.calls)) ≡ false
      → exists (λ k. k.id == h.new_uuid u.calls) u.api_keys ≡ false
      → (key : Text) × (row : ApiKey) × (v : Tables) × ((serve h headers
              (create org_id (some req))
              w
            ≡ (created key row, v))
          × (row.organization_id ≡ other)
          × IsIssued h other u key row v)
  unfolding handle
  cross_tenant headers org_id own other req w u expires bytes enabled passed parsed named timed
        drawn known works fresh =
      let (key, row, v, ran) =
        create_completes org_id other req u expires bytes parsed named timed drawn known works
          fresh in
      let (owner, issued) = create-IsIssued h org_id key (some req) u v row ran in
      let same : row.organization_id ≡ other = ground arith in
      (
        key,
        row,
        v,
        (
          serve-enabled h headers (create org_id (some req)) w enabled
              ∙ ap (pass h (create org_id (some req))) passed
              ∙ ran,
          same,
          subst (λ o. IsIssued h o u key row v) same issued,
        ),
      )
