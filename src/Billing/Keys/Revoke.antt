-- ===== src/Billing/Keys/Revoke.antt =====
-- `DeleteAPIKey` of billing-service/api_keys.go, and the middleware after it.
use temporal_cloud_offering.Prelude.{
  ℕ, suc, ◌≤◌, ◌≡◌, refl, sym, subst, ◌≢◌, ◌⊎◌, inl, inr, false, List, [], ◌∷◌, Option, some, none,
  arith, All, All-append, Any, Bool-cases, Option-cases,
}
use temporal_cloud_offering.Text.{Text, ◌==◌}
use temporal_cloud_offering.Text.Laws.{==_iff}
use temporal_cloud_offering.Billing.Keys.{
  Host, ApiKey, Tables, Headers, Passage, next, unauthorized, is_public, hash_api_key, called,
  exists, touch, touch_rows, validate_api_key, authenticate,
}
use temporal_cloud_offering.Billing.Keys.Api.{
  CreateApiKeyRequest, no_content, without, full_key, stored_row, new_key, ensure_organization,
  insert_key, create_api_key, list_api_keys, delete_api_key, KeyRequest, create, list, delete,
  path_of, handle, pass, serve,
}
use temporal_cloud_offering.Billing.Keys.Sound.{
  shown_key, Admits, Decides, authenticate-Decides, serve-cases,
}
use temporal_cloud_offering.Billing.Keys.Issue.{ensure-api_keys, insert_key-row, keep-create}
use temporal_cloud_offering.Billing.Keys.Lasting.{Event, used, requested, run_events}

-- What is deleted is the only row with a hash.
abbrev pub OnlyRow : Text → Text → ApiKey → Type 0
OnlyRow id hash row = (row.id ≡ id) ⊎ (row.key_hash ≢ hash)

without-All :
    (id hash : Text) (rows : List ApiKey)
    → All (OnlyRow id hash) rows
    → All (λ r. r.key_hash ≢ hash) (without id rows)
unfolding without
without-All id hash [] h = tt
without-All id hash (row ∷ rows) (only, h) = elim (Bool-cases (row.id == id)) [
  | inl here ↦ rw here (without-All id hash rows h)
  | inr other ↦ rw other (elim only [
    | inl same ↦ absurd (ground (arith, ==_iff row.id id))
    | inr differs ↦ (differs, without-All id hash rows h)
  ])
]

Any-All :
    (P Q : ApiKey → Type 0) (rows : List ApiKey)
    → ((r : ApiKey) → P r → Q r → ⊥)
    → Any P rows
    → All Q rows
    → ⊥
Any-All P Q [] clash any all = any
Any-All P Q (row ∷ rows) clash (inl here) (q, all) = clash row here q
Any-All P Q (row ∷ rows) clash (inr later) (q, all) = Any-All P Q rows clash later all

module _ (h : Host) where
  delete_api_key-rows :
      (key_id id : Text) (w v : Tables)
      → h.parse_uuid key_id ≡ some id
      → delete_api_key h key_id w ≡ (no_content, v)
      → v.api_keys ≡ without id w.api_keys
  unfolding delete_api_key
  delete_api_key-rows key_id id w v parsed e = ground arith

  refused :
      (path : Text) (headers : Headers) (w : Tables) (result : Passage × Tables)
      → is_public path ≡ false
      → All (λ r. r.key_hash ≢ hash_api_key h (shown_key headers)) w.api_keys
      → Decides h path headers w result
      → (message : Text) × (result.0 ≡ unauthorized message)
  refused path headers w (next none, v) closed gone (free, _) = absurd (ground arith)
  refused path headers w (next (some organization), v) closed gone (any, _) = absurd (
      Any-All (Admits h (shown_key headers) (h.clock (suc w.calls)) organization)
        (λ r. r.key_hash ≢ hash_api_key h (shown_key headers)) w.api_keys
        (λ r (_, hash, _, _) differs. differs (sym hash)) any gone)
  refused path headers w (unauthorized message, v) closed gone d = (message, refl)

  -- The hash of a key is not in the table, from a call on, and no later random numbers give it.
  module _ (start : ℕ) (hash : Text)
      (fresh : (i : ℕ) (bytes : List ℕ)
        → start ≤ i
        → h.random i ≡ some bytes
        → hash_api_key h (full_key bytes) ≢ hash) where
    abbrev IsGone : Tables → Type 0
    IsGone w = (start ≤ w.calls) × All (λ r. r.key_hash ≢ hash) w.api_keys

    gone : (w v : Tables) → w.calls ≤ v.calls → v.api_keys ≡ w.api_keys → IsGone w → IsGone v
    gone w v later same (begun, none_there) =
        (omega arith, subst (All (λ r. r.key_hash ≢ hash)) (sym same) none_there)

    insert-IsGone :
        (row : ApiKey) (w : Tables) → row.key_hash ≢ hash → IsGone w → IsGone (insert_key h row w).1
    insert-IsGone row w differs (begun, none_there) = elim (Bool-cases (insert_key h row w).0) [
      | inl works ↦ (
        (unfold insert_key in ground arith),
        subst (All (λ r. r.key_hash ≢ hash))
            (sym (insert_key-row h row w (insert_key h row w).1 (ground arith)))
            (All-append (λ r. r.key_hash ≢ hash) w.api_keys (stored_row h row ∷ []) none_there
              (differs, tt)),
      )
      | inr fails ↦
          gone w (insert_key h row w).1 (unfold insert_key in ground arith)
            (unfold insert_key in ground arith) (begun, none_there)
    ]

    ensure-IsGone :
        (organization : Text) (w : Tables)
        → IsGone w
        → IsGone (ensure_organization h organization w)
    ensure-IsGone organization w g =
        gone w (ensure_organization h organization w) (unfold ensure_organization in ground arith)
          (ensure-api_keys h organization w) g

    create-IsGone :
        (org_id : Text) (body : Option CreateApiKeyRequest) (w : Tables)
        → IsGone w
        → IsGone (create_api_key h org_id body w).1
    create-IsGone org_id body w g =
        keep-create h IsGone (λ row. row.key_hash ≢ hash)
          (λ bytes organization name scopes expires u (begun, _) drawn.
            (unfold new_key in fresh u.calls bytes begun drawn))
          (λ u g. gone u (called u) (omega arith) refl g)
          (λ organization u g. ensure-IsGone organization u g)
          (λ row u differs g. insert-IsGone row u differs g) org_id body w g

    touch_rows-gone :
        (prefix : Text) (now : ℕ) (rows : List ApiKey)
        → All (λ r. r.key_hash ≢ hash) rows
        → All (λ r. r.key_hash ≢ hash) (touch_rows prefix now rows)
    touch_rows-gone prefix now [] g = tt
    touch_rows-gone prefix now (row ∷ rows) (differs, g) =
        elim (Bool-cases (row.key_prefix == prefix)) [
          | inl same ↦ rw same (differs, touch_rows-gone prefix now rows g)
          | inr other ↦ rw other (differs, touch_rows-gone prefix now rows g)
        ]

    without-gone :
        (id : Text) (rows : List ApiKey)
        → All (λ r. r.key_hash ≢ hash) rows
        → All (λ r. r.key_hash ≢ hash) (without id rows)
    unfolding without
    without-gone id [] g = tt
    without-gone id (row ∷ rows) (differs, g) = elim (Bool-cases (row.id == id)) [
      | inl here ↦ rw here (without-gone id rows g)
      | inr other ↦ rw other (differs, without-gone id rows g)
    ]

    touch-IsGone : (prefix : Text) (w : Tables) → IsGone w → IsGone (touch h prefix w)
    unfolding touch
    touch-IsGone prefix w (begun, g) = elim (Bool-cases (h.fault w.calls)) [
      | inl fails ↦ rw fails (omega arith, g)
      | inr works ↦
          rw works (omega arith, touch_rows-gone prefix (h.stored (h.clock w.calls)) w.api_keys g)
    ]

    delete-IsGone : (key_id : Text) (w : Tables) → IsGone w → IsGone (delete_api_key h key_id w).1
    unfolding delete_api_key
    delete-IsGone key_id w (begun, g) = elim (Option-cases (h.parse_uuid key_id)) [
      | inl no_id ↦ rw (no_id, delete_api_key) (begun, g)
      | inr (id, parsed) ↦ elim (Bool-cases (h.fault w.calls)) [
        | inl fails ↦ rw (parsed, fails, delete_api_key) (omega arith, g)
        | inr works ↦ elim (Bool-cases (exists (λ k. k.id == id) w.api_keys)) [
          | inl there ↦
              rw (parsed, works, there, delete_api_key) (omega arith, without-gone id w.api_keys g)
          | inr missing ↦ rw (parsed, works, missing, delete_api_key) (omega arith, g)
        ]
      ]
    ]

    handle-IsGone : (r : KeyRequest) (w : Tables) → IsGone w → IsGone (handle h r w).1
    unfolding handle
    handle-IsGone (create org_id body) w g = create-IsGone org_id body w g
    handle-IsGone (list org_id) w g =
        gone w (list_api_keys h org_id w).1 (unfold list_api_keys in ground arith)
          (unfold list_api_keys in ground arith) g
    handle-IsGone (delete key_id) w g = delete-IsGone key_id w g

    authenticate-IsGone :
        (path : Text) (headers : Headers) (w : Tables)
        → IsGone w
        → IsGone (authenticate h path headers w).1
    unfolding authenticate validate_api_key
    authenticate-IsGone path headers w g =
        gone w (authenticate h path headers w).1 (ground arith) (ground arith) g

    pass-IsGone :
        (r : KeyRequest) (result : Passage × Tables) → IsGone result.1 → IsGone (pass h r result).1
    pass-IsGone r (unauthorized message, v) g = g
    pass-IsGone r (next o, v) g = handle-IsGone r v g

    run_events-IsGone :
        (events : List Event) (w : Tables) → IsGone w → IsGone (run_events h events w)
    run_events-IsGone [] w g = g
    run_events-IsGone (used prefix ∷ events) w g =
        run_events-IsGone events (touch h prefix w) (touch-IsGone prefix w g)
    run_events-IsGone (requested headers r ∷ events) w g =
        run_events-IsGone events (serve h headers r w).1 (elim (serve-cases h headers r w) [
          | inl behind ↦
              subst (λ result. IsGone result.1) (sym behind)
                (pass-IsGone r (authenticate h (path_of r) headers w)
                  (authenticate-IsGone (path_of r) headers w g))
          | inr open_to_all ↦
              subst (λ result. IsGone result.1) (sym open_to_all) (handle-IsGone r w g)
        ])

  -- Once a key is deleted, with the answer 204, it is refused from then on: after any later requests
  -- and goroutines, every request that shows it is refused on every path that is not public. The
  -- deleted row was the only one with the hash of the key, and no random numbers drawn later give
  -- a key with this hash.
  pub delete_revokes :
      (key_id id path : Text) (headers : Headers) (w v : Tables) (events : List Event)
      → h.parse_uuid key_id ≡ some id
      → delete_api_key h key_id w ≡ (no_content, v)
      → All (OnlyRow id (hash_api_key h (shown_key headers))) w.api_keys
      → ((i : ℕ) (bytes : List ℕ)
          → v.calls ≤ i
          → h.random i ≡ some bytes
          → hash_api_key h (full_key bytes) ≢ hash_api_key h (shown_key headers))
      → is_public path ≡ false
      → (message : Text) × ((authenticate h path headers (run_events h events v)).0
          ≡ unauthorized message)
  delete_revokes key_id id path headers w v events parsed e only fresh closed =
      let hash = hash_api_key h (shown_key headers) in
      let deleted : All (λ r. r.key_hash ≢ hash) v.api_keys =
        subst (All (λ r. r.key_hash ≢ hash)) (sym (delete_api_key-rows key_id id w v parsed e))
          (without-All id hash w.api_keys only) in
      let u = run_events h events v in
      let still = run_events-IsGone v.calls hash fresh events v (omega arith, deleted) in
      refused path headers u (authenticate h path headers u) closed still.1
        (authenticate-Decides h path headers u)
