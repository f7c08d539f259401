-- ===== src/Billing/Keys/Sound.antt =====
-- Who passes the middleware of billing-service/auth.go, and when the route is behind it.
use temporal_cloud_offering.Prelude.{
  ◌⊎◌, ℕ, suc, ◌≡◌, refl, sym, inl, inr, true, false, ◌&&◌, List, [], ◌∷◌, none, some, arith,
  Bool-cases, Option-cases, Any, subst,
}
use temporal_cloud_offering.Text.{Text, ◌==◌, or_else, non_empty}
use temporal_cloud_offering.Text.Laws.{==_iff}
use temporal_cloud_offering.Billing.Keys.Api.{KeyRequest, path_of, handle, pass, serve}
use temporal_cloud_offering.Billing.Keys.{
  auth_enabled, Host, ApiKey, Tables, Headers, Passage, next, unauthorized, key_prefix_of, expired,
  is_public, bearer, find_key, hash_api_key, validate_api_key, authenticate,
}

-- A row that a query finds is in the table, under the prefix and the hash.
find_key-Any :
    (P : ApiKey → Type 0) (prefix hash : Text) (rows : List ApiKey) (row : ApiKey)
    → find_key prefix hash rows ≡ some row
    → (row.key_prefix ≡ prefix → row.key_hash ≡ hash → P row)
    → Any P rows
unfolding find_key
find_key-Any P prefix hash [] row e k = cc
find_key-Any P prefix hash (r ∷ rows) row e k =
    elim (Bool-cases (r.key_prefix == prefix && r.key_hash == hash)) [
      | inl here ↦
          let same : r ≡ row = ground arith in
          inl (
            subst P (sym same) (
              k (ground (arith, ==_iff r.key_prefix prefix))
                (ground (arith, ==_iff r.key_hash hash))))
      | inr other ↦ inr (find_key-Any P prefix hash rows row (ground arith) k)
    ]

-- The key that a request shows.
abbrev pub shown_key : Headers → Text
shown_key headers = bearer (or_else headers.authorization headers.x_api_key)

module _ (h : Host) where
  -- A row that admits a key at a time.
  abbrev pub Admits : Text → ℕ → Text → ApiKey → Type 0
  Admits key now organization row =
      (key_prefix_of key ≡ some row.key_prefix)
      × (hash_api_key h key ≡ row.key_hash)
      × (row.organization_id ≡ organization)
      × (expired row.expires_at now ≡ false)

  validate_sound :
      (key : Text) (w v : Tables) (organization : Text)
      → validate_api_key h key w ≡ (some organization, v)
      → Any (Admits key (h.clock (suc w.calls)) organization) w.api_keys × (v.api_keys ≡ w.api_keys)
  unfolding validate_api_key
  validate_sound key w v organization e = elim (Option-cases (key_prefix_of key)) [
    | inl no_prefix ↦ absurd (ground arith)
    | inr (prefix, parsed) ↦ elim (Bool-cases (h.fault w.calls)) [
      | inl failed ↦ absurd (ground arith)
      | inr works ↦ elim (Option-cases (find_key prefix (hash_api_key h key) w.api_keys)) [
        | inl missing ↦ absurd (ground arith)
        | inr (row, found) ↦ elim (Bool-cases (expired row.expires_at (h.clock (suc w.calls)))) [
          | inl late ↦ absurd (ground arith)
          | inr valid ↦ (
            find_key-Any (Admits key (h.clock (suc w.calls)) organization) prefix
                (hash_api_key h key) w.api_keys row found
                λ p q. (ground arith, sym q, ground arith, valid),
            ground arith,
          )
        ]
      ]
    ]
  ]

  -- Passed on with no organization, passed on with one, or refused.
  abbrev pub Decides : Text → Headers → Tables → Passage × Tables → Type 0
  Decides path headers w (next none, v) = (is_public path ≡ true) × (v ≡ w)
  Decides path headers w (next (some organization), v) =
      Any (Admits (shown_key headers) (h.clock (suc w.calls)) organization) w.api_keys
      × (v.api_keys ≡ w.api_keys)
  Decides path headers w (unauthorized message, v) =
      (is_public path ≡ false) × (v.api_keys ≡ w.api_keys)

  validate-api_keys : (key : Text) (w : Tables) → (validate_api_key h key w).1.api_keys ≡ w.api_keys
  unfolding validate_api_key
  validate-api_keys key w = ground arith

  -- The middleware passes a request on with no organization on a public path only, and otherwise
  -- only with the organization of a stored row that has the prefix and the hash of the key shown and
  -- has not expired; it refuses on a path that is not public only; and it changes no key.
  pub authenticate-Decides :
      (path : Text) (headers : Headers) (w : Tables)
      → Decides path headers w (authenticate h path headers w)
  unfolding authenticate
  authenticate-Decides path headers w = elim (Bool-cases (is_public path)) [
    | inl free ↦ rw free (free, refl)
    | inr closed ↦ elim (Bool-cases (non_empty (or_else headers.authorization headers.x_api_key))) [
      | inr bare ↦ rw (closed, bare) (closed, refl)
      | inl shown ↦ elim (Option-cases (validate_api_key h (shown_key headers) w).0) [
        | inl refused ↦
            rw (closed, shown, refused) (closed, validate-api_keys (shown_key headers) w)
        | inr (organization, valid) ↦
            rw (closed, shown, valid)
              (validate_sound (shown_key headers) w (validate_api_key h (shown_key headers) w).1
                organization (ground arith))
      ]
    ]
  ]

  -- A request passes the middleware where that is enabled, and is handled at once where it is not.
  pub serve-enabled :
      (headers : Headers) (r : KeyRequest) (w : Tables)
      → auth_enabled h.enable_auth ≡ true
      → serve h headers r w ≡ pass h r (authenticate h (path_of r) headers w)
  unfolding serve
  serve-enabled headers r w enabled = rw (enabled, serve) refl

  pub serve-cases :
      (headers : Headers) (r : KeyRequest) (w : Tables)
      → (serve h headers r w ≡ pass h r (authenticate h (path_of r) headers w))
        ⊎ (serve h headers r w ≡ handle h r w)
  unfolding serve
  serve-cases headers r w = elim (Bool-cases (auth_enabled h.enable_auth)) [
    | inl enabled ↦ inl (serve-enabled headers r w enabled)
    | inr disabled ↦ inr (rw (disabled, serve) refl)
  ]
