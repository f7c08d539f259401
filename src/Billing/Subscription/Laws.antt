-- ===== src/Billing/Subscription/Laws.antt =====
-- What a change of plan and the events of Stripe leave at Stripe and in the tables.
use temporal_cloud_offering.Prelude.{
  ℕ, suc, ◌≡◌, refl, true, sym, subst, ◌≢◌, ◌⊎◌, inl, inr, List, [], ◌∷◌, Option, none, some, arith,
  All, Bool-cases, Option-cases,
}
use temporal_cloud_offering.Text.{Text, codes, ◌==◌, non_empty, lookup}
use temporal_cloud_offering.Text.Laws.{==_iff}
use temporal_cloud_offering.Billing.Pricing.{Decimals}
use temporal_cloud_offering.Billing.Plans.{PlanLimits, get_plan_limits}
use temporal_cloud_offering.Billing.Subscription.{
  Services, StripeSubscription, Subscription, State, called, get_plan_price_id, set_plan, Answer,
  store_plan, subscribe, change_plan, update_subscription, StripeEvent, invoice_paid,
  payment_failed, subscription_updated, unhandled, handle_stripe_webhook,
}

module _ (s : Services) (d : Decimals) (decimal : Text → d.Decimal) where
  -- A row of an organization has a plan with its limits.
  abbrev pub HasPlan : Text → Text → Text → Subscription (PlanLimits d decimal) → Type 0
  HasPlan organization plan stripe_id row =
      (row.organization_id ≢ organization)
      ⊎ ((row.plan ≡ plan)
          × (row.stripe_subscription_id ≡ stripe_id)
          × (row.limits ≡ get_plan_limits d decimal plan))

  set_plan-HasPlan :
      (organization plan stripe_id : Text) (rows : List (Subscription (PlanLimits d decimal)))
      → All
          (HasPlan organization plan stripe_id)
          (set_plan s d decimal organization plan stripe_id rows)
  set_plan-HasPlan organization plan stripe_id [] = tt
  set_plan-HasPlan organization plan stripe_id (row ∷ rows) =
      elim (Bool-cases (row.organization_id == organization)) [
        | inl same ↦
            rw same (inr (refl, refl, refl), set_plan-HasPlan organization plan stripe_id rows)
        | inr other ↦ rw other (
          inl (λ e. ground (arith, ==_iff row.organization_id organization)),
          set_plan-HasPlan organization plan stripe_id rows,
        )
      ]

  -- The rows of a table before and after a change: those of the organization have the plan, its
  -- limits and the Stripe subscription, and nothing else of them or of any other row is changed.
  abbrev pub IsRewritten :
      Text
      → Text
      → Text
      → List (Subscription (PlanLimits d decimal))
      → List (Subscription (PlanLimits d decimal))
      → Type 0
  IsRewritten organization plan stripe_id [] [] = Unit
  IsRewritten organization plan stripe_id (row ∷ rows) (new ∷ others) =
      (((row.organization_id ≢ organization) × (new ≡ row))
        ⊎ ((row.organization_id ≡ organization)
            × (new ≡ record row {
              plan = plan;
              stripe_subscription_id = stripe_id;
              limits = get_plan_limits d decimal plan;
            })))
      × IsRewritten organization plan stripe_id rows others
  IsRewritten organization plan stripe_id _ _ = ⊥

  set_plan-IsRewritten :
      (organization plan stripe_id : Text) (rows : List (Subscription (PlanLimits d decimal)))
      → IsRewritten organization plan stripe_id rows
          (set_plan s d decimal organization plan stripe_id rows)
  set_plan-IsRewritten organization plan stripe_id [] = tt
  set_plan-IsRewritten organization plan stripe_id (row ∷ rows) =
      let rest = set_plan-IsRewritten organization plan stripe_id rows in
      let named = ==_iff row.organization_id organization in
      elim (Bool-cases (row.organization_id == organization)) [
        | inl same ↦ rw same (inr (named.0 same, refl), rest)
        | inr other ↦ rw other (inl ((λ e. ground arith), refl), rest)
      ]

  -- What Stripe charges for after a change of plan: as before, or one subscription more, of the
  -- customer of the organization and at the price of the plan.
  abbrev pub Charges : Text → Text → Text → State s d decimal → State s d decimal → Type 0
  Charges organization plan id w v =
      ((v.stripe ≡ w.stripe) × (id ≡ []))
      ⊎ ((new : StripeSubscription) × ((v.stripe ≡ new ∷ w.stripe)
            × (new.id ≡ id)
            × (lookup organization w.customers ≡ some new.customer)
            × (new.price ≡ get_plan_price_id s d decimal plan)))

  abbrev pub Changed :
      Text → Text → State s d decimal → Answer s d decimal × State s d decimal → Type 0
  Changed organization plan w ((status, message), v) =
      (id : Text) × (Charges organization plan id w v
        × (v.customers ≡ w.customers)
        × (v.invoices ≡ w.invoices)
        × (((status ≡ 200) × IsRewritten organization plan id w.subscriptions v.subscriptions)
            ⊎ ((status ≢ 200) × (v.subscriptions ≡ w.subscriptions))))

  abbrev Unchanged : State s d decimal → State s d decimal → Type 0
  Unchanged w v =
      (v.customers ≡ w.customers) × (v.invoices ≡ w.invoices) × (v.subscriptions ≡ w.subscriptions)

  store_plan-Changed :
      (organization plan id : Text) (w v : State s d decimal)
      → Charges organization plan id w v
      → Unchanged w v
      → Changed organization plan w (store_plan s d decimal organization plan id v)
  unfolding store_plan
  store_plan-Changed organization plan id w v charges (customers, invoices, same) =
      elim (Bool-cases (s.fault v.calls)) [
        | inl fails ↦ rw fails (id, (charges, customers, invoices, inr ((λ e. omega arith), same)))
        | inr works ↦
            let rewritten = set_plan-IsRewritten organization plan id v.subscriptions in
            rw works (
              id,
              (
                charges,
                customers,
                invoices,
                inl (
                  refl,
                  subst
                      (λ t.
                        IsRewritten organization plan id t
                          (set_plan s d decimal organization plan id v.subscriptions))
                      same rewritten,
                ),
              ),
            )
      ]

  refused :
      (organization plan message : Text) (status : ℕ) (w v : State s d decimal)
      → status ≢ 200
      → v.stripe ≡ w.stripe
      → Unchanged w v
      → Changed organization plan w ((status, message), v)
  refused organization plan message status w v bad same (customers, invoices, rows) =
      ([], (inl (same, refl), customers, invoices, inr (bad, rows)))

  change_plan-Changed :
      (organization plan : Text) (customer : Option Text) (w : State s d decimal)
      → lookup organization w.customers ≡ customer
      → Changed organization plan w (change_plan s d decimal organization plan customer w)
  unfolding subscribe
  change_plan-Changed organization plan none w known =
      refused organization plan (codes "Organization not found") 404 w w (λ e. omega arith) refl
        (refl, refl, refl)
  change_plan-Changed organization plan (some customer) w known =
      elim (Bool-cases (plan == codes "free")) [
        | inl free ↦
            rw free
              (store_plan-Changed organization plan [] w w (inl (refl, refl)) (refl, refl, refl))
        | inr paid ↦ elim (Bool-cases (non_empty (get_plan_price_id s d decimal plan))) [
          | inr unpriced ↦
              rw (paid, unpriced, subscribe)
                (refused organization plan (codes "Stripe price not configured for plan") 400 w w
                  (λ e. omega arith) refl (refl, refl, refl))
          | inl priced ↦ elim (Bool-cases (s.fault w.calls)) [
            | inl fails ↦
                rw (paid, priced, fails, subscribe)
                  (refused organization plan (codes "Failed to create Stripe subscription") 500 w
                    (called s d decimal w) (λ e. omega arith) refl (refl, refl, refl))
            | inr works ↦
                rw (paid, priced, works, subscribe)
                  (store_plan-Changed organization plan (s.new_id w.calls) w _
                    (inr (_, (refl, refl, known, refl))) (refl, refl, refl))
          ]
        ]
      ]

  -- Whatever Stripe and the database do: a change of plan that is answered with 200 gives every row
  -- of the organization the plan, its limits and the new Stripe subscription, if there is one, and
  -- leaves all else of these rows, and every other row, as it was; any other answer leaves all the
  -- rows as they were. Stripe has at most one subscription more, of the organization's customer and
  -- at the price of the plan, and none is ended, also where the answer is an error.
  pub update_subscription-Changed :
      (org_id organization plan : Text) (w : State s d decimal)
      → s.parse_uuid org_id ≡ some organization
      → Changed organization plan w (update_subscription s d decimal org_id (some plan) w)
  unfolding update_subscription
  update_subscription-Changed org_id organization plan w parsed =
      elim (Bool-cases (s.fault w.calls)) [
        | inl fails ↦
            rw (parsed, fails, update_subscription)
              (refused organization plan (codes "Organization not found") 404 w
                (called s d decimal w) (λ e. omega arith) refl (refl, refl, refl))
        | inr works ↦
            let customer = lookup organization w.customers in
            let ran : update_subscription s d decimal org_id (some plan) w
                ≡ change_plan s d decimal organization plan customer (called s d decimal w) =
              rw (parsed, works, update_subscription) refl in
            rw ran (change_plan-Changed organization plan customer (called s d decimal w) refl)
      ]

  -- A change to the free plan that is answered with 200 gives every row of the organization the free
  -- plan and no Stripe subscription, while Stripe goes on to charge for what it charged before.
  pub downgrade_keeps_charging :
      (org_id organization message : Text) (w v : State s d decimal)
      → s.parse_uuid org_id ≡ some organization
      → update_subscription s d decimal org_id (some (codes "free")) w ≡ ((200, message), v)
      → (v.stripe ≡ w.stripe) × All (HasPlan organization (codes "free") []) v.subscriptions
  unfolding update_subscription store_plan ◌==◌
  downgrade_keeps_charging org_id organization message w v parsed e =
      elim (Bool-cases (s.fault w.calls)) [
        | inl fails ↦ absurd (ground arith)
        | inr works ↦ elim (Option-cases (lookup organization w.customers)) [
          | inl unknown ↦ absurd (ground arith)
          | inr (customer, known) ↦ elim (Bool-cases (s.fault (suc w.calls))) [
            | inl refused ↦ absurd (ground arith)
            | inr stored ↦
                let rows : v.subscriptions
                    ≡ set_plan s d decimal organization (codes "free") [] w.subscriptions =
                  ground arith in
                (
                  ground arith,
                  subst (All (HasPlan organization (codes "free") [])) (sym rows)
                      (set_plan-HasPlan organization (codes "free") [] w.subscriptions),
                )
          ]
        ]
      ]

  -- An event with the right signature is answered with 200 also where its statement fails, and then
  -- no row has changed.
  event_lost :
      (c : ℕ) (secret : Text) (event : StripeEvent) (w : State s d decimal)
      → s.fault w.calls ≡ true
      → let (status, v) = handle_stripe_webhook s d decimal true (c ∷ secret) (some event) w in
        (status ≡ 200) × (v.invoices ≡ w.invoices) × (v.subscriptions ≡ w.subscriptions)
  unfolding handle_stripe_webhook
  event_lost c secret (unhandled type) w fails = (refl, refl, refl)
  event_lost c secret (invoice_paid id) w fails = rw fails (refl, refl, refl)
  event_lost c secret (payment_failed id) w fails = rw fails (refl, refl, refl)
  event_lost c secret (subscription_updated id status period) w fails = rw fails (refl, refl, refl)
