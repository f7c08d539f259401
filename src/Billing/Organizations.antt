-- ===== src/Billing/Organizations.antt =====
-- `CreateOrganization` and `generateSlug` of billing-service/service.go. Stripe and the tables are
-- state; a call has a number, at which `fault` says whether it fails. The slug is unique.
pub mod Laws
use temporal_cloud_offering.Prelude.{
  ℕ, suc, ◌+◌, Bool, true, false, ◌&&◌, ◌||◌, List, [], ◌∷◌, Option, none, some, leb, eqb,
  if◌then◌else◌,
}
use temporal_cloud_offering.Text.{Text, codes, ◌==◌}

abbrev pub is_lower : ℕ → Bool
is_lower c = (leb b'a' c && leb c b'z') || (leb b'0' c && leb c b'9')

abbrev pub is_upper : ℕ → Bool
is_upper c = leb b'A' c && leb c b'Z'

abbrev pub is_gap : ℕ → Bool
is_gap c = eqb c b' ' || eqb c b'-'

unfoldable pub generate_slug : Text → Text
generate_slug [] = []
generate_slug (c ∷ name) =
    let slug = generate_slug name in
    if is_lower c
    then c ∷ slug
    else if is_upper c
    then (c + 32) ∷ slug
    else if is_gap c
    then b'-' ∷ slug
    else slug

-- Libraries and the machine: the id of a new customer, a new UUID, and whether a call fails.
pub record Registrar : Type 0 where
  pub fault : ℕ → Bool
  pub new_customer : ℕ → Text
  pub new_uuid : ℕ → Text

pub record NewOrganization : Type 0 where
  pub id : Text
  pub name : Text
  pub slug : Text
  pub stripe_customer_id : Text

pub record StripeCustomer : Type 0 where
  pub id : Text
  pub name : Text
  pub email : Text

-- `customers` are those of Stripe; `free` has the organizations with a subscription, all on the free
-- plan at first.
pub record Registry : Type 0 where
  pub calls : ℕ
  pub customers : List StripeCustomer
  pub organizations : List NewOrganization
  pub free : List Text

pub record CreateOrganizationRequest : Type 0 where
  pub name : Text
  pub email : Text

abbrev pub slug_taken : Text → List NewOrganization → Bool
slug_taken slug [] = false
slug_taken slug (o ∷ organizations) = o.slug == slug || slug_taken slug organizations

abbrev pub id_taken : Text → List NewOrganization → Bool
id_taken id [] = false
id_taken id (o ∷ organizations) = o.id == id || id_taken id organizations

-- The status, with the organization where it was made.
abbrev pub Reply : Type 0
Reply = ℕ × Option NewOrganization

module _ (h : Registrar) where
  abbrev pub called : Registry → Registry
  called w = record w { calls = suc w.calls }

  unfoldable pub add_subscription : NewOrganization → Registry → Reply × Registry
  add_subscription o w =
      if h.fault w.calls
      then ((500, none), called w)
      else ((200, some o), record (called w) { free = o.id ∷ w.free })

  unfoldable pub add_organization : NewOrganization → Registry → Reply × Registry
  unfolding add_subscription
  add_organization o w =
      if h.fault w.calls || id_taken o.id w.organizations || slug_taken o.slug w.organizations
      then ((500, none), called w)
      else add_subscription o (record (called w) { organizations = o ∷ w.organizations })

  unfoldable pub create_organization :
      Option CreateOrganizationRequest → Registry → Reply × Registry
  unfolding generate_slug add_organization
  create_organization none w = ((400, none), w)
  create_organization (some req) w =
      let customer = h.new_customer w.calls in
      if h.fault w.calls
      then ((500, none), called w)
      else add_organization
          (record {
            id = h.new_uuid w.calls;
            name = req.name;
            slug = generate_slug req.name;
            stripe_customer_id = customer;
          })
          (record (called w) {
            customers = record { id = customer; name = req.name; email = req.email } ∷ w.customers;
          })
