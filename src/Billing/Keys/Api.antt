-- ===== src/Billing/Keys/Api.antt =====
-- Making, listing and deleting keys: `GenerateAPIKey` of billing-service/auth.go and the three
-- handlers of billing-service/api_keys.go.
use temporal_cloud_offering.Prelude.{
  ℕ, ◌+◌, ◌*◌, Bool, true, false, not, ◌||◌, List, [], ◌∷◌, ◌++◌, Option, none, some, leb,
  if◌then◌else◌,
}
use temporal_cloud_offering.Text.{Text, codes, ◌==◌, non_empty}
use temporal_cloud_offering.Text.Hex.{to_hex}
use temporal_cloud_offering.Billing.Keys.{
  Host, ApiKey, Tables, Headers, called, take, drop, exists, hash_api_key, Passage, next,
  unauthorized, authenticate, auth_enabled,
}

-- The body of a request for a key.
pub record CreateApiKeyRequest : Type 0 where
  pub name : Text
  pub scopes : List Text
  pub expires_in : Text

-- An answer: 201 with the key and its row, 200 with rows, 204, or an error. The hash of a row is
-- not printed.
pub data Answer : Type 0 where
  created : Text → ApiKey → Answer
  listed : List ApiKey → Answer
  no_content : Answer
  failure : ℕ → Text → Answer

unfoldable pub full_key : List ℕ → Text
full_key bytes = codes "tc_live_" ++ (to_hex (take 4 bytes) ++ (codes "_" ++ to_hex (drop 4 bytes)))

abbrev pub hour : ℕ
hour = 3600000000000

abbrev pub default_scopes : List Text → List Text
default_scopes [] = codes "read" ∷ codes "write" ∷ []
default_scopes (s ∷ scopes) = s ∷ scopes

-- `ORDER BY created_at DESC`, with rows of one time in the order of the table
abbrev pub insert_newest : ApiKey → List ApiKey → List ApiKey
insert_newest key [] = key ∷ []
insert_newest key (row ∷ rows) =
    let later = insert_newest key rows in
    if leb row.created_at key.created_at then key ∷ row ∷ rows else row ∷ later

-- The rows of an organization; the hash is not selected.
unfoldable pub newest_of : Text → List ApiKey → List ApiKey
newest_of organization [] = []
newest_of organization (row ∷ rows) =
    let others = newest_of organization rows in
    if row.organization_id == organization
    then insert_newest (record row { key_hash = [] }) others
    else others

unfoldable pub without : Text → List ApiKey → List ApiKey
without id [] = []
without id (row ∷ rows) = let rest = without id rows in if row.id == id then rest else row ∷ rest

-- A request for one of the three routes.
pub data KeyRequest : Type 0 where
  create : Text → Option CreateApiKeyRequest → KeyRequest
  list : Text → KeyRequest
  delete : Text → KeyRequest

abbrev pub path_of : KeyRequest → Text
path_of (create org_id body) = codes "/api/v1/organizations/" ++ (org_id ++ codes "/api-keys")
path_of (list org_id) = codes "/api/v1/organizations/" ++ (org_id ++ codes "/api-keys")
path_of (delete key_id) = codes "/api/v1/api-keys/" ++ key_id

module _ (h : Host) where
  -- `id` is the primary key, and `slug` is unique; the conflict on `id` alone is no error. An error is
  -- logged, so both ways the tables are what is left.
  unfoldable pub ensure_organization : Text → Tables → Tables
  ensure_organization organization w =
      let known = exists (λ o. o.id == organization) w.organizations in
      let taken = exists (λ o. o.slug == codes "demo") w.organizations in
      if h.fault w.calls || known || taken then called w else record (called w) {
        organizations =
            w.organizations
            ++ (record { id = organization; name = codes "Demo Organization"; slug = codes "demo" }
                ∷ []);
      }

  abbrev stored_time : Option ℕ → Option ℕ
  stored_time none = none
  stored_time (some t) = some (h.stored t)

  -- The row as the table has it.
  abbrev pub stored_row : ApiKey → ApiKey
  stored_row row = record row {
    expires_at = stored_time row.expires_at;
    created_at = h.stored row.created_at;
  }

  -- `id` is the primary key, and `organization_id` a foreign key: whether the row was inserted.
  unfoldable pub insert_key : ApiKey → Tables → Bool × Tables
  insert_key row w =
      let duplicate = exists (λ k. k.id == row.id) w.api_keys in
      let known = exists (λ o. o.id == row.organization_id) w.organizations in
      if h.fault w.calls || duplicate || not known
      then (false, called w)
      else (true, record (called w) { api_keys = w.api_keys ++ (stored_row row ∷ []) })

  abbrev pub issued : Text → ApiKey → Bool × Tables → Option (Text × ApiKey) × Tables
  issued key row (false, w) = (none, w)
  issued key row (true, w) = (some (key, row), w)

  unfoldable pub new_key : List ℕ → Text → Text → List Text → Option ℕ → ℕ → ApiKey
  unfolding full_key hash_api_key
  new_key bytes organization name scopes expires call = record {
    id = h.new_uuid call;
    organization_id = organization;
    name = name;
    key_prefix = to_hex (take 4 bytes);
    key_hash = hash_api_key h (full_key bytes);
    scopes = scopes;
    expires_at = expires;
    last_used_at = none;
    created_at = h.clock call;
  }

  unfoldable pub generate_api_key :
      Text → Text → List Text → Option ℕ → Tables → Option (Text × ApiKey) × Tables
  unfolding new_key ensure_organization insert_key
  generate_api_key organization name scopes expires w = elim (h.random w.calls) [
    | none ↦ (none, called w)
    | some bytes ↦
        let row = new_key bytes organization name scopes expires w.calls in
        issued (full_key bytes) row (insert_key row (ensure_organization organization (called w)))
  ]

  -- When a key expires: `none` where the text is no duration.
  unfoldable pub expiry : Text → ℕ → Option (Option ℕ)
  expiry text now =
      if not (non_empty text)
      then some none
      else if text == codes "30d"
      then some (some (now + 30 * 24 * hour))
      else if text == codes "90d"
      then some (some (now + 90 * 24 * hour))
      else if text == codes "1y"
      then some (some (now + 365 * 24 * hour))
      else elim (h.add_duration text now) [ none ↦ none | some t ↦ some (some t) ]

  abbrev pub answer : Option (Text × ApiKey) × Tables → Answer × Tables
  answer (none, w) = (failure 500 (codes "failed to create API key"), w)
  answer (some (key, row), w) = (created key row, w)

  abbrev pub create_until :
      Text → CreateApiKeyRequest → Option (Option ℕ) → Tables → Answer × Tables
  create_until organization req none w = (failure 400 (codes "invalid expires_in format"), w)
  create_until organization req (some expires) w =
      answer (generate_api_key organization req.name (default_scopes req.scopes) expires w)

  -- The path's organization and the body that was read, `none` where it is no request.
  unfoldable pub create_api_key : Text → Option CreateApiKeyRequest → Tables → Answer × Tables
  unfolding expiry generate_api_key
  create_api_key org_id body w = elim (h.parse_uuid org_id) [
    | none ↦ (failure 400 (codes "invalid organization ID"), w)
    | some organization ↦ elim body [
      | none ↦ (failure 400 (codes "invalid request body"), w)
      | some req ↦
          if not (non_empty req.name)
          then (failure 400 (codes "name is required"), w)
          else create_until organization req (expiry req.expires_in (h.clock w.calls)) w
    ]
  ]

  unfoldable pub list_api_keys : Text → Tables → Answer × Tables
  unfolding newest_of
  list_api_keys org_id w = elim (h.parse_uuid org_id) [
    | none ↦ (failure 400 (codes "invalid organization ID"), w)
    | some organization ↦
        if h.fault w.calls
        then (failure 500 (codes "failed to list API keys"), called w)
        else (listed (newest_of organization w.api_keys), called w)
  ]

  unfoldable pub delete_api_key : Text → Tables → Answer × Tables
  unfolding without
  delete_api_key key_id w = elim (h.parse_uuid key_id) [
    | none ↦ (failure 400 (codes "invalid key ID"), w)
    | some id ↦
        if h.fault w.calls
        then (failure 500 (codes "failed to delete API key"), called w)
        else if exists (λ k. k.id == id) w.api_keys
        then (no_content, record (called w) { api_keys = without id w.api_keys })
        else (failure 404 (codes "API key not found"), called w)
  ]

  unfoldable pub handle : KeyRequest → Tables → Answer × Tables
  unfolding create_api_key list_api_keys delete_api_key
  handle (create org_id body) w = create_api_key org_id body w
  handle (list org_id) w = list_api_keys org_id w
  handle (delete key_id) w = delete_api_key key_id w

  abbrev pub pass : KeyRequest → Passage × Tables → Answer × Tables
  pass r (unauthorized message, w) = (failure 401 message, w)
  pass r (next organization, w) = handle r w

  -- The route, behind the middleware where that is enabled. The handlers do not read the organization
  -- of the key.
  unfoldable pub serve : Headers → KeyRequest → Tables → Answer × Tables
  unfolding authenticate handle auth_enabled
  serve headers r w =
      if auth_enabled h.enable_auth
      then pass r (authenticate h (path_of r) headers w)
      else handle r w
