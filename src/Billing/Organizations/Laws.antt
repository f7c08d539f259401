-- ===== src/Billing/Organizations/Laws.antt =====
-- Slugs, and what a request for an organization leaves.
use temporal_cloud_offering.Prelude.{
  Option, ℕ, suc, ◌+◌, ◌≤◌, ◌≡◌, refl, ap, ◌⊎◌, inl, inr, true, false, ◌||◌, [], ◌∷◌, none, some,
  arith, All, Bool-cases,
}
use temporal_cloud_offering.Text.{Text}
use temporal_cloud_offering.Billing.Organizations.{
  Registrar, NewOrganization, StripeCustomer, Registry, CreateOrganizationRequest, Reply, is_lower,
  is_upper, is_gap, generate_slug, slug_taken, id_taken, add_subscription, add_organization,
  create_organization,
}

-- A small letter, a digit or a dash.
abbrev pub IsSlugUnit : ℕ → Type 0
IsSlugUnit c = ((b'a' ≤ c) × (c ≤ b'z')) ⊎ (((b'0' ≤ c) × (c ≤ b'9')) ⊎ (c ≡ b'-'))

-- Every slug has only small letters, digits and dashes, and is its own slug.
generate_slug_lem :
    (name : Text)
    → All IsSlugUnit (generate_slug name)
      × (generate_slug (generate_slug name) ≡ generate_slug name)
unfolding generate_slug
generate_slug_lem [] = (tt, refl)
generate_slug_lem (c ∷ name) =
    let (units, again) = generate_slug_lem name in
    elim (Bool-cases (is_lower c)) [
      | inl lower ↦ rw lower ((ground arith, units), rw lower (ap (λ t. c ∷ t) again))
      | inr other ↦ elim (Bool-cases (is_upper c)) [
        | inl upper ↦
            let small : is_lower (c + 32) ≡ true = ground arith in
            rw (other, upper) ((ground arith, units), rw small (ap (λ t. (c + 32) ∷ t) again))
        | inr symbol ↦ elim (Bool-cases (is_gap c)) [
          | inl gap ↦ rw (other, symbol, gap) ((inr (inr refl), units), ap (λ t. b'-' ∷ t) again)
          | inr dropped ↦ rw (other, symbol, dropped) (units, again)
        ]
      ]
    ]

module _ (h : Registrar) where
  -- How a request ends: with a subscribed organization, undecoded, or in one of three partial ways.
  abbrev pub Outcome : Option CreateOrganizationRequest → Registry → Reply × Registry → Type 0
  Outcome none w ((status, o), v) = (status ≡ 400) × (o ≡ none) × (v ≡ w)
  Outcome (some req) w ((status, some o), v) =
      (status ≡ 200)
      × (o.name ≡ req.name)
      × (o.slug ≡ generate_slug req.name)
      × (slug_taken o.slug w.organizations ≡ false)
      × (v.customers
          ≡ record { id = o.stripe_customer_id; name = req.name; email = req.email } ∷ w.customers)
      × (v.organizations ≡ o ∷ w.organizations)
      × (v.free ≡ o.id ∷ w.free)
  Outcome (some req) w ((status, none), v) =
      (status ≡ 500)
      × (v.free ≡ w.free)
      × (((v.customers ≡ w.customers) × (v.organizations ≡ w.organizations))
          ⊎ ((customer : StripeCustomer) × ((v.customers ≡ customer ∷ w.customers)
                × (customer.name ≡ req.name)
                × (customer.email ≡ req.email)
                × ((v.organizations ≡ w.organizations)
                    ⊎ ((o : NewOrganization) × ((v.organizations ≡ o ∷ w.organizations)
                          × (o.name ≡ req.name)
                          × (o.slug ≡ generate_slug req.name)
                          × (o.stripe_customer_id ≡ customer.id)))))))

  -- Every request for an organization ends in one of five ways. A body that does not decode: 400,
  -- and nothing is done. With 200, there are one Stripe customer, with the name and the email of the
  -- request, one organization with that name and its slug, which was free, and one subscription
  -- more; the request may lack its name or its email. With 500, there is no further subscription,
  -- and nothing was made, or such a customer alone, or the customer and the organization.
  pub create_organization-Outcome :
      (body : Option CreateOrganizationRequest) (w : Registry)
      → Outcome body w (create_organization h body w)
  unfolding create_organization add_organization add_subscription
  create_organization-Outcome none w = (refl, refl, refl)
  create_organization-Outcome (some req) w =
      let customer : StripeCustomer = record {
        id = h.new_customer w.calls;
        name = req.name;
        email = req.email;
      } in
      let o : NewOrganization = record {
        id = h.new_uuid w.calls;
        name = req.name;
        slug = generate_slug req.name;
        stripe_customer_id = customer.id;
      } in
      let taken = slug_taken (generate_slug req.name) w.organizations in
      elim (Bool-cases (h.fault w.calls)) [
        | inl fails ↦ rw (fails, create_organization) (refl, refl, inl (refl, refl))
        | inr works ↦
            elim (Bool-cases (h.fault (suc w.calls) || id_taken o.id w.organizations || taken)) [
              | inl refused ↦
                  rw (works, refused, create_organization, add_organization)
                    (refl, refl, inr (customer, (refl, refl, refl, inl refl)))
              | inr added ↦
                  let free : taken ≡ false = ground arith in
                  elim (Bool-cases (h.fault (suc (suc w.calls)))) [
                    | inl unpaid ↦
                        rw
                          (
                            works, added, unpaid, create_organization, add_organization,
                            add_subscription,
                          )
                          (
                            refl,
                            refl,
                            inr (customer, (refl, refl, refl, inr (o, (refl, refl, refl, refl)))),
                          )
                    | inr done ↦
                        rw
                          (
                            works, added, done, create_organization, add_organization,
                            add_subscription,
                          )
                          (refl, refl, refl, free, refl, refl, refl)
                  ]
            ]
      ]
