-- ===== src/Tests/Organizations.antt =====
-- A request for an organization, of a name with other symbols.
use temporal_cloud_offering.Prelude.{◌≡◌, refl, [], ◌∷◌, some}
use temporal_cloud_offering.Text.{codes}
use temporal_cloud_offering.Billing.Organizations.{
  Registrar, Registry, CreateOrganizationRequest, create_organization, generate_slug,
}
use temporal_cloud_offering.Billing.Organizations.Laws.{Outcome, create_organization-Outcome}
use temporal_cloud_offering.Tests.{no_fault}

abbrev registrar : Registrar
registrar = record {
  fault = no_fault;
  new_customer = λ i. b'c' ∷ i ∷ [];
  new_uuid = λ i. b'o' ∷ i ∷ [];
}

abbrev empty : Registry
empty = record { calls = 0; customers = []; organizations = []; free = [] }

abbrev request : CreateOrganizationRequest
request = record { name = codes "My Org! 2"; email = codes "a@b" }

slug_made : generate_slug request.name ≡ codes "my-org-2"
unfolding generate_slug
slug_made = refl

create_organization-Outcome_example :
    Outcome registrar (some request) empty (create_organization registrar (some request) empty)
create_organization-Outcome_example = create_organization-Outcome registrar (some request) empty
