-- ===== src/Billing/Subscription.antt =====
-- The change of a plan, `UpdateSubscription` of billing-service/service.go, and the events of Stripe,
-- `HandleStripeWebhook`. Stripe and the tables are state; a call has a number, at which `fault` says
-- whether it fails; the text of an error of the database or of Stripe is left out.
pub mod Laws
use temporal_cloud_offering.Prelude.{
  ℕ, suc, Bool, true, false, not, List, [], ◌∷◌, Option, none, some, if◌then◌else◌,
}
use temporal_cloud_offering.Text.{Text, codes, ◌==◌, non_empty, lookup, or_else}
use temporal_cloud_offering.Billing.Pricing.{Decimals}
use temporal_cloud_offering.Billing.Plans.{PlanLimits, get_plan_limits}

-- `env_price` is the price that the environment has for a plan, or the empty text; `new_id` the id
-- that Stripe gives.
pub record Services : Type 0 where
  pub fault : ℕ → Bool
  pub parse_uuid : Text → Option Text
  pub env_price : Text → Text
  pub new_id : ℕ → Text

pub record StripeSubscription : Type 0 where
  pub id : Text
  pub customer : Text
  pub price : Text

pub record Subscription (Limits : Type 0) : Type 0 where
  pub organization_id : Text
  pub stripe_subscription_id : Text
  pub plan : Text
  pub limits : Limits
  pub status : Text
  pub current_period : ℕ × ℕ

pub record StoredInvoice : Type 0 where
  pub stripe_invoice_id : Text
  pub status : Text

-- `customers` has the organizations with their Stripe customers; `stripe` what Stripe charges for.
pub record Accounts (Limits : Type 0) : Type 0 where
  pub calls : ℕ
  pub customers : List (Text × Text)
  pub subscriptions : List (Subscription Limits)
  pub invoices : List StoredInvoice
  pub stripe : List StripeSubscription

-- An event of Stripe whose signature is right.
pub data StripeEvent : Type 0 where
  invoice_paid : Text → StripeEvent
  payment_failed : Text → StripeEvent
  subscription_updated : Text → Text → ℕ × ℕ → StripeEvent
  unhandled : Text → StripeEvent

abbrev prices : List (Text × Text)
prices =
    (codes "essential", codes "price_essential_monthly")
    ∷ (codes "business", codes "price_business_monthly")
    ∷ (codes "enterprise", codes "price_enterprise_monthly")
    ∷ []

abbrev or_empty : Option Text → Text
or_empty none = []
or_empty (some t) = t

module _ (s : Services) (d : Decimals) (decimal : Text → d.Decimal) where
  abbrev pub State : Type 0
  State = Accounts (PlanLimits d decimal)

  abbrev pub called : State → State
  called w = record w { calls = suc w.calls }

  unfoldable pub get_plan_price_id : Text → Text
  unfolding lookup
  get_plan_price_id plan = or_else (s.env_price plan) (or_empty (lookup plan prices))

  -- The `UPDATE` of the rows of an organization.
  abbrev pub set_plan :
      Text
      → Text
      → Text
      → List (Subscription (PlanLimits d decimal))
      → List (Subscription (PlanLimits d decimal))
  set_plan organization plan stripe_id [] = []
  set_plan organization plan stripe_id (row ∷ rows) =
      let others = set_plan organization plan stripe_id rows in
      if row.organization_id == organization
      then record row {
        plan = plan;
        stripe_subscription_id = stripe_id;
        limits = get_plan_limits d decimal plan;
      }
        ∷ others
      else row ∷ others

  abbrev pub Answer : Type 0
  Answer = ℕ × Text

  -- The last statement of the handler.
  unfoldable pub store_plan : Text → Text → Text → State → Answer × State
  store_plan organization plan stripe_id w =
      if s.fault w.calls then ((500, codes "failed to update"), called w) else (
        (200, codes "updated"),
        record (called w) { subscriptions = set_plan organization plan stripe_id w.subscriptions },
      )

  -- A paid plan makes a subscription at Stripe.
  unfoldable pub subscribe : Text → Text → Text → State → Answer × State
  unfolding get_plan_price_id store_plan
  subscribe organization customer plan w =
      let price = get_plan_price_id plan in
      let id = s.new_id w.calls in
      if not (non_empty price)
      then ((400, codes "Stripe price not configured for plan"), w)
      else if s.fault w.calls
      then ((500, codes "Failed to create Stripe subscription"), called w)
      else store_plan organization plan id (record (called w) {
        stripe = record { id = id; customer = customer; price = price } ∷ w.stripe;
      })

  abbrev pub change_plan : Text → Text → Option Text → State → Answer × State
  change_plan organization plan none w = ((404, codes "Organization not found"), w)
  change_plan organization plan (some customer) w =
      if plan == codes "free"
      then store_plan organization plan [] w
      else subscribe organization customer plan w

  -- The path's organization and the plan of the body, `none` where it does not decode.
  unfoldable pub update_subscription : Text → Option Text → State → Answer × State
  unfolding store_plan subscribe lookup
  update_subscription org_id body w = elim (s.parse_uuid org_id) [
    | none ↦ ((400, codes "Invalid organization ID"), w)
    | some organization ↦ elim body [
      | none ↦ ((400, codes "invalid body"), w)
      | some plan ↦
          if s.fault w.calls
          then ((404, codes "Organization not found"), called w)
          else change_plan organization plan (lookup organization w.customers) (called w)
    ]
  ]

  abbrev pub set_invoice : Text → Text → List StoredInvoice → List StoredInvoice
  set_invoice id status [] = []
  set_invoice id status (row ∷ rows) =
      (if row.stripe_invoice_id == id then record row { status = status } else row)
      ∷ set_invoice id status rows

  abbrev pub set_status :
      Text
      → Text
      → ℕ × ℕ
      → List (Subscription (PlanLimits d decimal))
      → List (Subscription (PlanLimits d decimal))
  set_status id status period [] = []
  set_status id status period (row ∷ rows) =
      (if row.stripe_subscription_id == id
        then record row { status = status; current_period = period }
        else row)
      ∷ set_status id status period rows

  -- One statement for each event; its error is dropped.
  unfoldable pub apply_event : StripeEvent → State → State
  apply_event (unhandled type) w = w
  apply_event (invoice_paid id) w =
      if s.fault w.calls
      then called w
      else record (called w) { invoices = set_invoice id (codes "paid") w.invoices }
  apply_event (payment_failed id) w =
      if s.fault w.calls
      then called w
      else record (called w) { invoices = set_invoice id (codes "payment_failed") w.invoices }
  apply_event (subscription_updated id status period) w =
      if s.fault w.calls
      then called w
      else record (called w) { subscriptions = set_status id status period w.subscriptions }

  -- Whether the body was read, the secret of the environment, and the event, `none` where its
  -- signature is bad.
  unfoldable pub handle_stripe_webhook : Bool → Text → Option StripeEvent → State → ℕ × State
  unfolding apply_event
  handle_stripe_webhook false secret event w = (400, w)
  handle_stripe_webhook true [] event w = (500, w)
  handle_stripe_webhook true (c ∷ secret) none w = (400, w)
  handle_stripe_webhook true (c ∷ secret) (some event) w = (200, apply_event event w)
