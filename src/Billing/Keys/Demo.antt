-- ===== src/Billing/Keys/Demo.antt =====
-- The demo organization of `GenerateAPIKey` of billing-service/auth.go: its slug is unique.
use temporal_cloud_offering.Prelude.{
  ◌≡◌, refl, ap, ◌∙◌, ◌≢◌, ◌⊎◌, inl, inr, Bool, true, false, ◌||◌, List, [], ◌∷◌, ◌++◌, Option,
  some, arith, Bool-cases, subst,
}
use temporal_cloud_offering.Text.{Text, codes, ◌==◌}
use temporal_cloud_offering.Billing.Keys.{
  Host, ApiKey, Organization, Tables, Headers, Passage, next, unauthorized, exists, authenticate,
  touch, validate_api_key,
}
use temporal_cloud_offering.Billing.Keys.Api.{
  CreateApiKeyRequest, created, ensure_organization, insert_key, create_api_key, list_api_keys,
  delete_api_key, KeyRequest, create, list, delete, path_of, handle, pass,
}
use temporal_cloud_offering.Billing.Keys.Sound.{serve-cases}
use temporal_cloud_offering.Billing.Keys.Issue.{create-IsIssued, keep-create}
use temporal_cloud_offering.Billing.Keys.Tenants.{knows}
use temporal_cloud_offering.Billing.Keys.Lasting.{Event, used, requested, perform, run_events}

abbrev pub demo_taken : Tables → Bool
demo_taken w = exists (λ o. o.slug == codes "demo") w.organizations

exists-append :
    (test : Organization → Bool) (xs ys : List Organization)
    → exists test (xs ++ ys) ≡ (exists test xs || exists test ys)
exists-append test [] ys = refl
exists-append test (x ∷ xs) ys = ground (arith, exists-append test xs ys)

module _ (h : Host) where
  -- The organizations of one table are those of another.
  abbrev SameOrganizations : Tables → Tables → Type 0
  SameOrganizations w v = v.organizations ≡ w.organizations

  ensure-taken :
      (organization : Text) (w : Tables)
      → demo_taken w ≡ true
      → SameOrganizations w (ensure_organization h organization w)
  unfolding ensure_organization
  ensure-taken organization w taken = ground arith

  create-taken :
      (org_id : Text) (body : Option CreateApiKeyRequest) (w : Tables)
      → demo_taken w ≡ true
      → SameOrganizations w (create_api_key h org_id body w).1
  create-taken org_id body w taken =
      keep-create h (SameOrganizations w) (λ row. Unit) (λ b o n s e v k d. tt) (λ v same. same)
        (λ organization v same.
          ensure-taken organization v
            (ap (λ os. exists (λ o. o.slug == codes "demo") os) same ∙ taken)
          ∙ same)
        (λ row v _ same. (unfold insert_key in ground arith)) org_id body w refl

  authenticate-organizations :
      (path : Text) (headers : Headers) (w : Tables)
      → SameOrganizations w (authenticate h path headers w).1
  unfolding authenticate validate_api_key
  authenticate-organizations path headers w = ground arith

  handle-taken :
      (r : KeyRequest) (w : Tables) → demo_taken w ≡ true → SameOrganizations w (handle h r w).1
  unfolding handle list_api_keys delete_api_key
  handle-taken (create org_id body) w taken = create-taken org_id body w taken
  handle-taken (list org_id) w taken = ground arith
  handle-taken (delete key_id) w taken = ground arith

  pass-taken :
      (r : KeyRequest) (w : Tables) (result : Passage × Tables)
      → demo_taken w ≡ true
      → SameOrganizations w result.1
      → SameOrganizations w (pass h r result).1
  pass-taken r w (unauthorized message, v) taken same = same
  pass-taken r w (next o, v) taken same =
      handle-taken r v (ap (exists (λ o. o.slug == codes "demo")) same ∙ taken) ∙ same

  perform-taken :
      (event : Event) (w : Tables) → demo_taken w ≡ true → SameOrganizations w (perform h event w)
  unfolding touch
  perform-taken (used prefix) w taken = ground arith
  perform-taken (requested headers r) w taken =
      let passed = authenticate h (path_of r) headers w in
      let same = authenticate-organizations (path_of r) headers w in
      elim (serve-cases h headers r w) [
        | inl behind ↦
            ap (λ result. result.1.organizations) behind ∙ pass-taken r w passed taken same
        | inr open_to_all ↦
            ap (λ result. result.1.organizations) open_to_all ∙ handle-taken r w taken
      ]

  run_events-taken :
      (events : List Event) (w : Tables)
      → demo_taken w ≡ true
      → SameOrganizations w (run_events h events w)
  run_events-taken [] w taken = refl
  run_events-taken (event ∷ events) w taken =
      let same = perform-taken event w taken in
      run_events-taken events (perform h event w)
        (ap (exists (λ o. o.slug == codes "demo")) same ∙ taken)
      ∙ same

  -- The organizations are those of before, or there is a demo organization.
  abbrev Demo : Tables → Tables → Type 0
  Demo w v = SameOrganizations w v ⊎ (demo_taken v ≡ true)

  ensure-Demo :
      (organization : Text) (w v : Tables)
      → Demo w v
      → Demo w (ensure_organization h organization v)
  unfolding ensure_organization ◌==◌
  ensure-Demo organization w v demo =
      let known = exists (λ o. o.id == organization) v.organizations in
      elim (Bool-cases (h.fault v.calls || known || demo_taken v)) [
        | inl left ↦ rw left demo
        | inr added ↦
            rw added
              (inr (exists-append (λ o. o.slug == codes "demo") v.organizations _ ∙ ground arith))
      ]

  insert-Demo : (row : ApiKey) (w v : Tables) → Demo w v → Demo w (insert_key h row v).1
  insert-Demo row w v (inl same) = inl ((unfold insert_key in ground arith))
  insert-Demo row w v (inr taken) = inr (unfold insert_key in ground arith)

  create-Demo :
      (org_id : Text) (body : Option CreateApiKeyRequest) (w : Tables)
      → Demo w (create_api_key h org_id body w).1
  create-Demo org_id body w =
      keep-create h (Demo w) (λ row. Unit) (λ b o n s e v k d. tt) (λ v demo. demo)
        (λ organization v demo. ensure-Demo organization w v demo)
        (λ row v _ demo. insert-Demo row w v demo) org_id body w (inl refl)

  -- A key for an organization that has no row makes the demo organization.
  first-takes_demo :
      (org_id key : Text) (body : Option CreateApiKeyRequest) (w v : Tables) (row : ApiKey)
      → create_api_key h org_id body w ≡ (created key row, v)
      → knows row.organization_id w ≡ false
      → demo_taken v ≡ true
  first-takes_demo org_id key body w v row e unknown =
      let (_, (_, (_, _, _, _, _, _, known))) = create-IsIssued h org_id key body w v row e in
      let left : Demo w v = subst (λ result. Demo w result.1) e (create-Demo org_id body w) in
      elim left [
        | inr taken ↦ taken
        | inl same ↦ absurd (ground (arith, ap (exists (λ o. o.id == row.organization_id)) same))
      ]

  -- Once a key was made for an organization that had no row, no key is made for another one that has
  -- no row: whatever requests and goroutines come between, and whatever the body, the answer is never a key.
  pub one_demo_organization :
      (org_a org_b key other_key : Text) (body other_body : Option CreateApiKeyRequest)
      (w v : Tables) (row other_row : ApiKey) (second : Text) (events : List Event)
      → create_api_key h org_a body w ≡ (created key row, v)
      → knows row.organization_id w ≡ false
      → h.parse_uuid org_b ≡ some second
      → knows second v ≡ false
      → (create_api_key h org_b other_body (run_events h events v)).0 ≢ created other_key other_row
  one_demo_organization org_a org_b key other_key body other_body w v row other_row second events e
        unknown parsed absent made =
      let taken = first-takes_demo org_a key body w v row e unknown in
      let u = run_events h events v in
      let same = run_events-taken events v taken in
      let result = create_api_key h org_b other_body u in
      let still =
        create-taken org_b other_body u (ap (exists (λ o. o.slug == codes "demo")) same ∙ taken) in
      let (owner, (_, (_, _, _, _, _, _, known))) =
        create-IsIssued h org_b other_key other_body u result.1 other_row (ground arith) in
      let known_before = ap (exists (λ o. o.id == other_row.organization_id)) (still ∙ same) in
      ground arith
