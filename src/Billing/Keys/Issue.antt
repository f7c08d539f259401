-- ===== src/Billing/Keys/Issue.antt =====
-- What `CreateAPIKey` of billing-service/api_keys.go stores where it answers with a key.
use temporal_cloud_offering.Prelude.{
  ℕ, ◌≡◌, refl, sym, subst, ap, ◌∙◌, inl, inr, Bool, true, false, List, [], ◌∷◌, ◌++◌, append-nil,
  append_assoc, Option, none, some, arith, Bool-cases, Option-cases,
}
use temporal_cloud_offering.Text.{Text, ◌==◌, non_empty}
use temporal_cloud_offering.Text.Hex.{to_hex}
use temporal_cloud_offering.Billing.Keys.{Host, ApiKey, Tables, called, take, exists, hash_api_key}
use temporal_cloud_offering.Billing.Keys.Api.{
  CreateApiKeyRequest, created, full_key, default_scopes, ensure_organization, insert_key,
  stored_row, issued, new_key, generate_api_key, expiry, answer, create_api_key,
}

module _ (h : Host) where
  -- A key and its row, made of random bytes, with one more row in the table.
  abbrev pub IsIssued : Text → Tables → Text → ApiKey → Tables → Type 0
  IsIssued organization w key row v =
      (bytes : List ℕ) × ((h.random w.calls ≡ some bytes)
        × (key ≡ full_key bytes)
        × (row.organization_id ≡ organization)
        × (row.key_prefix ≡ to_hex (take 4 bytes))
        × (row.key_hash ≡ hash_api_key h key)
        × (v.api_keys ≡ w.api_keys ++ (stored_row h row ∷ []))
        × (exists (λ o. o.id == organization) v.organizations ≡ true))

  pub ensure-api_keys :
      (organization : Text) (w : Tables)
      → (ensure_organization h organization w).api_keys ≡ w.api_keys
  unfolding ensure_organization
  ensure-api_keys organization w = ground arith

  pub insert_key-row :
      (row : ApiKey) (w v : Tables)
      → insert_key h row w ≡ (true, v)
      → v.api_keys ≡ w.api_keys ++ (stored_row h row ∷ [])
  unfolding insert_key
  insert_key-row row w v e = ground arith

  insert_key-known :
      (row : ApiKey) (w v : Tables)
      → insert_key h row w ≡ (true, v)
      → exists (λ o. o.id == row.organization_id) v.organizations ≡ true
  unfolding insert_key
  insert_key-known row w v e = ground arith

  issued_inv :
      (key k : Text) (row r : ApiKey) (result : Bool × Tables) (v : Tables)
      → issued h key row result ≡ (some (k, r), v)
      → (result ≡ (true, v)) × (key ≡ k) × (row ≡ r)
  issued_inv key k row r (false, w) v e = absurd cc
  issued_inv key k row r (true, w) v e = (cc, cc, cc)

  generate-IsIssued :
      (organization name key : Text) (scopes : List Text) (expires : Option ℕ) (w v : Tables)
      (row : ApiKey)
      → generate_api_key h organization name scopes expires w ≡ (some (key, row), v)
      → IsIssued organization w key row v
  unfolding generate_api_key new_key
  generate-IsIssued organization name key scopes expires w v row e =
      elim (Option-cases (h.random w.calls)) [
        | inl fails ↦ absurd (ground arith)
        | inr (bytes, drawn) ↦
            let made = new_key h bytes organization name scopes expires w.calls in
            let ready = ensure_organization h organization (called w) in
            let (inserted, same_key, same_row) =
              issued_inv (full_key bytes) key made row (insert_key h made ready) v (ground arith) in
            (
              bytes,
              (
                drawn,
                sym same_key,
                ap (λ r. r.organization_id) (sym same_row),
                ap (λ r. r.key_prefix) (sym same_row),
                ap (λ r. r.key_hash) (sym same_row) ∙ ap (hash_api_key h) same_key,
                insert_key-row made ready v inserted
                    ∙ ap (λ rows. rows ++ (stored_row h made ∷ []))
                        (ensure-api_keys organization (called w))
                    ∙ ap (λ r. w.api_keys ++ (stored_row h r ∷ [])) same_row,
                insert_key-known made ready v inserted,
              ),
            )
      ]

  answer_inv :
      (key : Text) (row : ApiKey) (result : Option (Text × ApiKey) × Tables) (v : Tables)
      → answer h result ≡ (created key row, v)
      → result ≡ (some (key, row), v)
  answer_inv key row (none, w) v e = absurd cc
  answer_inv key row (some (k, r), w) v e = ground arith

  pub create-IsIssued :
      (org_id key : Text) (body : Option CreateApiKeyRequest) (w v : Tables) (row : ApiKey)
      → create_api_key h org_id body w ≡ (created key row, v)
      → (h.parse_uuid org_id ≡ some row.organization_id) × IsIssued row.organization_id w key row v
  unfolding create_api_key
  create-IsIssued org_id key none w v row e = absurd (ground arith)
  create-IsIssued org_id key (some req) w v row e = elim (Option-cases (h.parse_uuid org_id)) [
    | inl no_id ↦ absurd (ground arith)
    | inr (organization, parsed) ↦ elim (Bool-cases (non_empty req.name)) [
      | inr unnamed ↦ absurd (ground arith)
      | inl named ↦ elim (Option-cases (expiry h req.expires_in (h.clock w.calls))) [
        | inl no_time ↦ absurd (ground arith)
        | inr (expires, timed) ↦
            let scopes = default_scopes req.scopes in
            let result = generate_api_key h organization req.name scopes expires w in
            let (bytes, (drawn, key_eq, owner, prefix, hash, rows, known)) =
              generate-IsIssued organization req.name key scopes expires w v row
                (answer_inv key row result v (ground arith)) in
            (
              parsed ∙ ap some (sym owner),
              (
                bytes,
                (
                  drawn,
                  key_eq,
                  refl,
                  prefix,
                  hash,
                  rows,
                  subst (λ o. exists (λ k. k.id == o) v.organizations ≡ true) (sym owner) known,
                ),
              ),
            )
      ]
    ]
  ]

  -- What each of the statements of a creation keeps, the creation keeps, whatever its answer. The
  -- rows that are inserted are new keys, of which `Q` holds.
  module _ (P : Tables → Type 0) (Q : ApiKey → Type 0)
      (make : (bytes : List ℕ) (organization name : Text) (scopes : List Text) (expires : Option ℕ)
          (w : Tables)
        → P w
        → h.random w.calls ≡ some bytes
        → Q (new_key h bytes organization name scopes expires w.calls))
      (call : (w : Tables) → P w → P (called w))
      (ensure : (organization : Text) (w : Tables) → P w → P (ensure_organization h organization w))
      (insert : (row : ApiKey) (w : Tables) → Q row → P w → P (insert_key h row w).1) where
    keep-issued :
        (key : Text) (row : ApiKey) (result : Bool × Tables)
        → P result.1
        → P (issued h key row result).1
    keep-issued key row (true, v) kept = kept
    keep-issued key row (false, v) kept = kept

    keep-generate :
        (organization name : Text) (scopes : List Text) (expires : Option ℕ) (w : Tables)
        → P w
        → P (generate_api_key h organization name scopes expires w).1
    unfolding generate_api_key
    keep-generate organization name scopes expires w kept = elim (Option-cases (h.random w.calls)) [
      | inl fails ↦ rw (fails, generate_api_key) (call w kept)
      | inr (bytes, drawn) ↦
          let made = new_key h bytes organization name scopes expires w.calls in
          let ready = ensure_organization h organization (called w) in
          rw (drawn, generate_api_key)
            (keep-issued (full_key bytes) made (insert_key h made ready) (
              insert made ready (make bytes organization name scopes expires w kept drawn)
                (ensure organization (called w) (call w kept))))
    ]

    keep-answer : (result : Option (Text × ApiKey) × Tables) → P result.1 → P (answer h result).1
    keep-answer (none, v) kept = kept
    keep-answer (some (key, row), v) kept = kept

    pub keep-create :
        (org_id : Text) (body : Option CreateApiKeyRequest) (w : Tables)
        → P w
        → P (create_api_key h org_id body w).1
    unfolding create_api_key
    keep-create org_id none w kept = elim (Option-cases (h.parse_uuid org_id)) [
      | inl no_id ↦ rw (no_id, create_api_key) kept
      | inr (organization, parsed) ↦ rw (parsed, create_api_key) kept
    ]
    keep-create org_id (some req) w kept = elim (Option-cases (h.parse_uuid org_id)) [
      | inl no_id ↦ rw (no_id, create_api_key) kept
      | inr (organization, parsed) ↦ elim (Bool-cases (non_empty req.name)) [
        | inr unnamed ↦ rw (parsed, unnamed, create_api_key) kept
        | inl named ↦ elim (Option-cases (expiry h req.expires_in (h.clock w.calls))) [
          | inl no_time ↦ rw (parsed, named, no_time, create_api_key) kept
          | inr (expires, timed) ↦
              let scopes = default_scopes req.scopes in
              rw (parsed, named, timed, create_api_key)
                (keep-answer (generate_api_key h organization req.name scopes expires w)
                  (keep-generate organization req.name scopes expires w kept))
        ]
      ]
    ]

  -- One table has the rows of another, and then more.
  abbrev pub Grows : Tables → Tables → Type 0
  Grows w v = (later : List ApiKey) × (v.api_keys ≡ w.api_keys ++ later)

  insert_key-Grows : (row : ApiKey) (w v : Tables) → Grows w v → Grows w (insert_key h row v).1
  unfolding insert_key
  insert_key-Grows row w v (later, rows) = elim (Bool-cases (insert_key h row v).0) [
    | inl works ↦ (
      later ++ (stored_row h row ∷ []),
      insert_key-row row v (insert_key h row v).1 (ground arith)
          ∙ ap (λ t. t ++ (stored_row h row ∷ [])) rows
          ∙ append_assoc w.api_keys later (stored_row h row ∷ []),
    )
    | inr fails ↦ (later, ground arith)
  ]

  -- Whatever the answer, no row is changed or lost.
  pub create-Grows :
      (org_id : Text) (body : Option CreateApiKeyRequest) (w : Tables)
      → Grows w (create_api_key h org_id body w).1
  create-Grows org_id body w =
      keep-create (Grows w) (λ row. Unit) (λ b o n s e v k d. tt) (λ v grows. grows)
        (λ organization v (later, rows). (later, ensure-api_keys organization v ∙ rows))
        (λ row v _. insert_key-Grows row w v) org_id body w ([], sym (append-nil w.api_keys))
