-- ===== src/Tests/Subscription.antt =====
-- A change to a paid plan and back to the free one.
use temporal_cloud_offering.Prelude.{ℕ, ◌≡◌, refl, [], ◌∷◌, some, All}
use temporal_cloud_offering.Text.{Text, codes, ◌==◌}
use temporal_cloud_offering.Billing.Plans.{get_plan_limits}
use temporal_cloud_offering.Billing.Pricing.{Decimals}
use temporal_cloud_offering.Billing.Subscription.{
  Services, State, called, set_plan, update_subscription,
}
use temporal_cloud_offering.Billing.Subscription.Laws.{
  HasPlan, Changed, update_subscription-Changed, downgrade_keeps_charging,
}
use temporal_cloud_offering.Tests.{no_fault}

abbrev services : Services
services = record {
  fault = no_fault;
  parse_uuid = λ t. some t;
  env_price = λ plan. [];
  new_id = λ i. b's' ∷ i ∷ [];
}

abbrev whole : Decimals
whole = record {
  Decimal = ℕ;
  mul = λ a b. a;
  price_per_active_storage_gbh = 4;
  price_per_retained_storage_gbh = 1;
  int_part = λ a. a;
}

abbrev literal : Text → ℕ
literal t = 0

abbrev acme : Text
acme = codes "acme"

abbrev business : Text
business = codes "business"

-- On the plan `business`, with its subscription at Stripe.
abbrev paying : State services whole literal
paying = record {
  calls = 0;
  customers = (acme, codes "cus_1") ∷ [];
  subscriptions =
      record {
        organization_id = acme;
        stripe_subscription_id = codes "sub_1";
        plan = business;
        limits = get_plan_limits whole literal business;
        status = codes "active";
        current_period = (0, 1);
      }
      ∷ [];
  invoices = [];
  stripe = record { id = codes "sub_1"; customer = codes "cus_1"; price = codes "p" } ∷ [];
}

update_subscription-Changed_example :
    Changed services whole literal acme
      (codes "essential")
      paying
      (update_subscription services whole literal acme (some (codes "essential")) paying)
update_subscription-Changed_example =
    update_subscription-Changed services whole literal acme acme (codes "essential") paying refl

abbrev downgraded : State services whole literal
downgraded = record (called services whole literal (called services whole literal paying)) {
  subscriptions = set_plan services whole literal acme (codes "free") [] paying.subscriptions;
}

made_free :
    update_subscription services whole literal acme (some (codes "free")) paying
    ≡ ((200, codes "updated"), downgraded)
unfolding update_subscription ◌==◌
made_free = refl

downgrade_keeps_charging_example :
    (downgraded.stripe ≡ paying.stripe)
    × All (HasPlan services whole literal acme (codes "free") []) downgraded.subscriptions
downgrade_keeps_charging_example =
    downgrade_keeps_charging services whole literal acme acme (codes "updated") paying downgraded
      refl made_free
