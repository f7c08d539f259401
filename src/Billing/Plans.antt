-- ===== src/Billing/Plans.antt =====
-- The limits of a plan and the estimated cost of a usage: `getPlanLimits` and `calculateCost` of
-- billing-service/service.go, which stand beside the plans and the bill of pricing.go.
pub mod Laws
use temporal_cloud_offering.Prelude.{ℕ, List, [], ◌∷◌, Option, none, some}
use temporal_cloud_offering.Text.{Text, codes, lookup}
use temporal_cloud_offering.Billing.Int64.{add64, mul64, div64}
use temporal_cloud_offering.Billing.Pricing.{Decimals, Usage}

-- `decimal` is `decimal.NewFromFloat` and `decimal.NewFromInt` of a literal.
module _ (d : Decimals) (decimal : Text → d.Decimal) where
  pub record PlanLimits : Type 0 where
    pub actions_included : ℕ
    pub active_storage_gb : d.Decimal
    pub retained_storage_gb : d.Decimal
    pub base_price_cents : ℕ

  abbrev free_limits : PlanLimits
  free_limits = record {
    actions_included = 100000;
    active_storage_gb = decimal (codes "0.1");
    retained_storage_gb = decimal (codes "4");
    base_price_cents = 0;
  }

  abbrev limits : List (Text × PlanLimits)
  limits =
      (codes "free", free_limits)
      ∷ (
        codes "essential",
        record {
          actions_included = 1000000;
          active_storage_gb = decimal (codes "1");
          retained_storage_gb = decimal (codes "40");
          base_price_cents = 10000;
        },
      )
      ∷ (
        codes "business",
        record {
          actions_included = 2500000;
          active_storage_gb = decimal (codes "2.5");
          retained_storage_gb = decimal (codes "100");
          base_price_cents = 50000;
        },
      )
      ∷ (
        codes "enterprise",
        record {
          actions_included = 10000000;
          active_storage_gb = decimal (codes "10");
          retained_storage_gb = decimal (codes "400");
          base_price_cents = 0;
        },
      )
      ∷ []

  abbrev or_free_limits : Option PlanLimits → PlanLimits
  or_free_limits none = free_limits
  or_free_limits (some found) = found

  unfoldable pub get_plan_limits : Text → PlanLimits
  unfolding lookup
  get_plan_limits plan = or_free_limits (lookup plan limits)

module _ (d : Decimals) where
  -- The estimate that `GetUsage` and `GetCurrentUsage` show.
  unfoldable pub calculate_cost : Usage d → ℕ
  calculate_cost usage =
      let actions = mul64 (div64 usage.total_actions 1000000) 2500 in
      let active = d.int_part (d.mul usage.active_storage_gbh d.price_per_active_storage_gbh) in
      let retained =
        d.int_part (d.mul usage.retained_storage_gbh d.price_per_retained_storage_gbh) in
      add64 (add64 (add64 0 actions) active) retained
