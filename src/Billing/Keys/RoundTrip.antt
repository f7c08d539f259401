-- ===== src/Billing/Keys/RoundTrip.antt =====
-- From `CreateAPIKey` of billing-service/api_keys.go to `Authenticate` of billing-service/auth.go.
use temporal_cloud_offering.Prelude.{
  ℕ, suc, ◌≡◌, refl, sym, ap, ◌∙◌, ◌≢◌, ◌⊎◌, inl, inr, true, false, List, [], ◌++◌, Option, some,
  All, subst,
}
use temporal_cloud_offering.Text.{Text, codes, or_else, non_empty}
use temporal_cloud_offering.Text.Hex.Laws.{IsByte}
use temporal_cloud_offering.Billing.Keys.{
  Host, ApiKey, Tables, Headers, next, is_public, key_prefix_of, expired, find_key, bearer,
  hash_api_key, validate_api_key, authenticate,
}
use temporal_cloud_offering.Billing.Keys.Api.{
  CreateApiKeyRequest, created, full_key, stored_row, create_api_key,
}
use temporal_cloud_offering.Billing.Keys.Format.{
  key_prefix_of-full_key, bearer-prefixed, bearer-full_key,
}
use temporal_cloud_offering.Billing.Keys.Sound.{shown_key}
use temporal_cloud_offering.Billing.Keys.Issue.{create-IsIssued}
use temporal_cloud_offering.Billing.Keys.Found.{IsFound, find_key-last}
use temporal_cloud_offering.Billing.Keys.Lasting.{Event, run_events, Spares, run_events-Keeps}

-- The three ways to show a key.
abbrev pub Shows : Text → Headers → Type 0
Shows key headers =
    (headers.authorization ≡ codes "Bearer " ++ key)
    ⊎ ((headers.authorization ≡ key) ⊎ ((headers.authorization ≡ []) × (headers.x_api_key ≡ key)))

shown_key-full_key :
    (bytes : List ℕ) (headers : Headers)
    → Shows (full_key bytes) headers
    → (shown_key headers ≡ full_key bytes)
      × (non_empty (or_else headers.authorization headers.x_api_key) ≡ true)
unfolding full_key
shown_key-full_key bytes headers (inl with_bearer) = (
  ap (λ t. bearer (or_else t headers.x_api_key)) with_bearer ∙ bearer-prefixed (full_key bytes),
  ap (λ t. non_empty (or_else t headers.x_api_key)) with_bearer,
)
shown_key-full_key bytes headers (inr (inl raw)) = (
  ap (λ t. bearer (or_else t headers.x_api_key)) raw ∙ bearer-full_key bytes,
  ap (λ t. non_empty (or_else t headers.x_api_key)) raw,
)
shown_key-full_key bytes headers (inr (inr (bare, other))) = (
  ap (λ t. bearer (or_else t headers.x_api_key)) bare ∙ ap bearer other ∙ bearer-full_key bytes,
  ap (λ t. non_empty (or_else t headers.x_api_key)) bare ∙ ap non_empty other,
)

module _ (h : Host) where
  -- A row that is found admits its key.
  found_passes :
      (path key prefix id organization : Text) (headers : Headers) (expires : Option ℕ) (w : Tables)
      → (shown_key headers ≡ key)
      → (non_empty (or_else headers.authorization headers.x_api_key) ≡ true)
      → key_prefix_of key ≡ some prefix
      → IsFound prefix (hash_api_key h key) id organization expires w.api_keys
      → is_public path ≡ false
      → h.fault w.calls ≡ false
      → expired expires (h.clock (suc w.calls)) ≡ false
      → (authenticate h path headers w).0 ≡ next (some organization)
  unfolding authenticate validate_api_key
  found_passes path key prefix id organization headers expires w shown some_header parsed
        (row, (found, _, owner, limit)) closed works valid =
      let in_time : expired row.expires_at (h.clock (suc w.calls)) ≡ false =
        ap (λ t. expired t (h.clock (suc w.calls))) limit ∙ valid in
      let result : (validate_api_key h (shown_key headers) w).0 ≡ some row.organization_id =
        ap (λ k. (validate_api_key h k w).0) shown
        ∙ rw (parsed, works, found, in_time, validate_api_key) refl in
      rw (closed, some_header, result, authenticate) (ap (λ o. next (some o)) owner)

  -- A key that was created goes on working. After any requests and goroutines that do not delete
  -- its row, a request that shows it in one of the three ways, on a path that is not public,
  -- passes with the organization of its row. The conditions: random numbers are bytes, no row had
  -- the hash of the key, the query works, and the row has not expired.
  pub key_lasts :
      (org_id path key : Text) (body : Option CreateApiKeyRequest) (headers : Headers)
      (w v : Tables) (row : ApiKey) (events : List Event)
      → ((i : ℕ) (bytes : List ℕ) → h.random i ≡ some bytes → All IsByte bytes)
      → All (λ r. r.key_hash ≢ hash_api_key h key) w.api_keys
      → create_api_key h org_id body w ≡ (created key row, v)
      → All (Spares h row.id) events
      → Shows key headers
      → is_public path ≡ false
      → h.fault (run_events h events v).calls ≡ false
      → expired (stored_row h row).expires_at (h.clock (suc (run_events h events v).calls)) ≡ false
      → (authenticate h path headers (run_events h events v)).0 ≡ next (some row.organization_id)
  key_lasts org_id path key body headers w v row events random fresh e spared shows closed works
        valid =
      let (_, (bytes, (drawn, made, _, prefix, hash, rows, _))) =
        create-IsIssued h org_id key body w v row e in
      let (shown, some_header) =
        shown_key-full_key bytes headers (subst (λ k. Shows k headers) made shows) in
      let last =
        find_key-last row.key_prefix row.key_hash w.api_keys (stored_row h row)
          (subst (λ t. All (λ r. r.key_hash ≢ t) w.api_keys) (sym hash) fresh) refl refl in
      let start : IsFound row.key_prefix row.key_hash row.id row.organization_id
          (stored_row h row).expires_at v.api_keys =
        (
          stored_row h row,
          (ap (find_key row.key_prefix row.key_hash) rows ∙ last, refl, refl, refl),
        ) in
      let found =
        run_events-Keeps h row.key_prefix row.key_hash row.id row.organization_id
          (stored_row h row).expires_at events v spared start in
      found_passes path key row.key_prefix row.id row.organization_id headers
        (stored_row h row).expires_at (run_events h events v) (shown ∙ sym made) some_header
        (ap key_prefix_of made
          ∙ key_prefix_of-full_key bytes (random w.calls bytes drawn)
          ∙ ap some (sym prefix))
        (subst
          (λ t.
            IsFound row.key_prefix t row.id row.organization_id (stored_row h row).expires_at
              (run_events h events v).api_keys)
          hash found)
        closed works valid
