-- ===== src/Billing/Pricing.antt =====
-- The plans, and `CalculateMonthlyBill` of billing-service/pricing.go. The two rows that it reads
-- are arguments; the decimal numbers are a parameter.
pub mod Laws
use temporal_cloud_offering.Prelude.{ℕ, ◌+◌, List, [], ◌∷◌, Option, none, some, if◌then◌else◌}
use temporal_cloud_offering.Text.{Text, codes, lookup}
use temporal_cloud_offering.Billing.{Checked, ok, err}
use temporal_cloud_offering.Billing.Int64.{add64, sub64, mul64, lt64, div64, mod64}

-- `github.com/shopspring/decimal`, with the two prices of storage; `int_part` is an `int64`.
pub record Decimals : Type 1 where
  pub Decimal : Type 0
  pub mul : Decimal → Decimal → Decimal
  pub price_per_active_storage_gbh : Decimal
  pub price_per_retained_storage_gbh : Decimal
  pub int_part : Decimal → ℕ

-- The fields of a plan that the bill reads.
pub record Plan : Type 0 where
  pub name : Text
  pub base_price_cents : ℕ
  pub actions_included : ℕ

abbrev pub free_plan : Plan
free_plan = record { name = codes "Free"; base_price_cents = 0; actions_included = 100000 }

abbrev pub plans : List (Text × Plan)
plans =
    (codes "free", free_plan)
    ∷ (
      codes "essential",
      record { name = codes "Essential"; base_price_cents = 10000; actions_included = 1000000 },
    )
    ∷ (
      codes "business",
      record { name = codes "Business"; base_price_cents = 50000; actions_included = 2500000 },
    )
    ∷ (
      codes "enterprise",
      record { name = codes "Enterprise"; base_price_cents = 0; actions_included = 10000000 },
    )
    ∷ []

abbrev pub or_free : Option Plan → Plan
or_free none = free_plan
or_free (some plan) = plan

unfoldable pub plan_of : Text → Plan
unfolding lookup
plan_of name = or_free (lookup name plans)

abbrev pub price_per_million_actions : ℕ
price_per_million_actions = 2500

-- The cents for the actions beyond those included, by started millions.
unfoldable pub overage_cents : ℕ → ℕ → ℕ
overage_cents total included =
    let overage_actions = sub64 total included in
    let overage_millions = div64 overage_actions 1000000 in
    let started =
      if lt64 0 (mod64 overage_actions 1000000)
      then add64 overage_millions 1
      else overage_millions in
    if lt64 included total then mul64 started price_per_million_actions else 0

module _ (d : Decimals) where
  pub record Usage : Type 0 where
    pub total_actions : ℕ
    pub active_storage_gbh : d.Decimal
    pub retained_storage_gbh : d.Decimal

  pub record MonthlyBill : Type 0 where
    pub organization_id : Text
    pub plan : Text
    pub base_cost_cents : ℕ
    pub actions_used : ℕ
    pub actions_included : ℕ
    pub action_overage_cents : ℕ
    pub active_storage_gbh : d.Decimal
    pub active_storage_cents : ℕ
    pub retained_storage_gbh : d.Decimal
    pub retained_storage_cents : ℕ
    pub total_cents : ℕ

  -- The bill of a plan; `ActionsUsed` and `ActionsIncluded` are set where there is overage.
  unfoldable pub bill_of : Text → Plan → Usage → MonthlyBill
  unfolding overage_cents
  bill_of organization plan usage =
      let over = lt64 plan.actions_included usage.total_actions in
      let overage = overage_cents usage.total_actions plan.actions_included in
      let active = d.int_part (d.mul usage.active_storage_gbh d.price_per_active_storage_gbh) in
      let retained =
        d.int_part (d.mul usage.retained_storage_gbh d.price_per_retained_storage_gbh) in
      record {
        organization_id = organization;
        plan = plan.name;
        base_cost_cents = plan.base_price_cents;
        actions_used = if over then usage.total_actions else 0;
        actions_included = if over then plan.actions_included else 0;
        action_overage_cents = overage;
        active_storage_gbh = usage.active_storage_gbh;
        active_storage_cents = active;
        retained_storage_gbh = usage.retained_storage_gbh;
        retained_storage_cents = retained;
        total_cents = add64 (add64 (add64 plan.base_price_cents overage) active) retained;
      }

  abbrev with_usage : Text → Plan → Option Usage → Checked MonthlyBill
  with_usage organization plan none = err (codes "failed to get usage")
  with_usage organization plan (some usage) = ok (bill_of organization plan usage)

  -- The row of the subscription and the row of the usage; `none` is an error of the query.
  unfoldable pub calculate_monthly_bill : Text → Option Text → Option Usage → Checked MonthlyBill
  unfolding plan_of
  calculate_monthly_bill organization none usage = err (codes "failed to get subscription")
  calculate_monthly_bill organization (some plan_name) usage =
      with_usage organization (plan_of plan_name) usage
