-- ===== src/Billing/Keys/Answers.antt =====
-- All the answers of `CreateAPIKey` of billing-service/api_keys.go.
use temporal_cloud_offering.Prelude.{
  ℕ, ◌≡◌, refl, ◌∙◌, ◌⊎◌, inl, inr, Bool, true, false, List, Option, none, some, arith, Bool-cases,
  Option-cases,
}
use temporal_cloud_offering.Text.{Text, non_empty}
use temporal_cloud_offering.Billing.Keys.{Host, ApiKey, Tables, called}
use temporal_cloud_offering.Billing.Keys.Api.{
  CreateApiKeyRequest, Answer, created, listed, no_content, failure, full_key, default_scopes,
  ensure_organization, insert_key, issued, new_key, generate_api_key, expiry, answer,
  create_api_key,
}
use temporal_cloud_offering.Billing.Keys.Issue.{IsIssued, ensure-api_keys, create-IsIssued}

module _ (h : Host) where
  -- Why a request is bad: its organization, its body, the name in it, or the time.
  abbrev pub IsBad : Text → Option CreateApiKeyRequest → ℕ → Type 0
  IsBad org_id none now = Unit
  IsBad org_id (some req) now =
      (h.parse_uuid org_id ≡ none)
      ⊎ ((non_empty req.name ≡ false) ⊎ (expiry h req.expires_in now ≡ none))

  -- What an answer comes with.
  abbrev pub Outcome : Text → Option CreateApiKeyRequest → Tables → Answer × Tables → Type 0
  Outcome org_id body w (created key row, v) =
      (h.parse_uuid org_id ≡ some row.organization_id) × IsIssued h row.organization_id w key row v
  Outcome org_id body w (failure status message, v) =
      ((status ≡ 400) × (v ≡ w) × IsBad org_id body (h.clock w.calls))
      ⊎ ((status ≡ 500) × (v.api_keys ≡ w.api_keys))
  Outcome org_id body w (listed rows, v) = ⊥
  Outcome org_id body w (no_content, v) = ⊥

  insert_key-failed :
      (row : ApiKey) (w v : Tables) → insert_key h row w ≡ (false, v) → v.api_keys ≡ w.api_keys
  unfolding insert_key
  insert_key-failed row w v e = ground arith

  issued-failed :
      (key : Text) (row : ApiKey) (w v u : Tables) (result : Bool × Tables)
      → ((x : Tables) → result ≡ (false, x) → x.api_keys ≡ u.api_keys)
      → issued h key row result ≡ (none, v)
      → v.api_keys ≡ u.api_keys
  issued-failed key row w v u (true, x) failed e = absurd (ground arith)
  issued-failed key row w v u (false, x) failed e = failed v (ground arith)

  generate-failed :
      (organization name : Text) (scopes : List Text) (expires : Option ℕ) (w v : Tables)
      → generate_api_key h organization name scopes expires w ≡ (none, v)
      → v.api_keys ≡ w.api_keys
  unfolding generate_api_key
  generate-failed organization name scopes expires w v e = elim (Option-cases (h.random w.calls)) [
    | inl fails ↦ ground arith
    | inr (bytes, drawn) ↦
        let made = new_key h bytes organization name scopes expires w.calls in
        let ready = ensure_organization h organization (called w) in
        issued-failed (full_key bytes) made w v ready (insert_key h made ready)
          (λ x failed. insert_key-failed made ready x failed) (ground arith)
        ∙ ensure-api_keys h organization (called w)
  ]

  answer-Outcome :
      (org_id : Text) (req : CreateApiKeyRequest) (w : Tables)
      (result : Option (Text × ApiKey) × Tables)
      → ((u : Tables) → result ≡ (none, u) → u.api_keys ≡ w.api_keys)
      → create_api_key h org_id (some req) w ≡ answer h result
      → Outcome org_id (some req) w (answer h result)
  answer-Outcome org_id req w (none, u) failed e = inr (refl, failed u refl)
  answer-Outcome org_id req w (some (key, row), u) failed e =
      create-IsIssued h org_id key (some req) w u row e

  -- Whatever the request, an answer with a key comes with one new row, of that key and for the
  -- organization of the path; an answer 400 with a reason in the request, and nothing done; and
  -- any other answer is 500, with no row added.
  pub create_api_key-Outcome :
      (org_id : Text) (body : Option CreateApiKeyRequest) (w : Tables)
      → Outcome org_id body w (create_api_key h org_id body w)
  unfolding create_api_key
  create_api_key-Outcome org_id none w = elim (Option-cases (h.parse_uuid org_id)) [
    | inl no_id ↦ rw (no_id, create_api_key) (inl (refl, refl, tt))
    | inr (organization, parsed) ↦ rw (parsed, create_api_key) (inl (refl, refl, tt))
  ]
  create_api_key-Outcome org_id (some req) w = elim (Option-cases (h.parse_uuid org_id)) [
    | inl no_id ↦ rw (no_id, create_api_key) (inl (refl, refl, inl no_id))
    | inr (organization, parsed) ↦ elim (Bool-cases (non_empty req.name)) [
      | inr unnamed ↦ rw (parsed, unnamed, create_api_key) (inl (refl, refl, inr (inl unnamed)))
      | inl named ↦ elim (Option-cases (expiry h req.expires_in (h.clock w.calls))) [
        | inl no_time ↦
            rw (parsed, named, no_time, create_api_key) (inl (refl, refl, inr (inr no_time)))
        | inr (expires, timed) ↦
            let scopes = default_scopes req.scopes in
            let result = generate_api_key h organization req.name scopes expires w in
            let ran : create_api_key h org_id (some req) w ≡ answer h result =
              rw (parsed, named, timed, create_api_key) refl in
            rw ran (
              answer-Outcome org_id req w result
                (λ u. generate-failed organization req.name scopes expires w u) ran)
      ]
    ]
  ]
