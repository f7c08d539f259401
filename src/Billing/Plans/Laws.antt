-- ===== src/Billing/Plans/Laws.antt =====
-- The two tables of plans agree, and how far the estimate is from the bill.
use temporal_cloud_offering.Prelude.{
  ◌+◌, ◌*◌, ◌/◌, ◌≤◌, ◌<◌, ◌≡◌, refl, ap, ◌∙◌, inl, inr, some, arith, Bool-cases,
}
use temporal_cloud_offering.Text.{Text, codes, lookup, ◌==◌}
use temporal_cloud_offering.Billing.{Checked, ok}
use temporal_cloud_offering.Billing.Int64.{half, add64}
use temporal_cloud_offering.Billing.Int64.Laws.{add64-eq, mul64-eq, div64-eq}
use temporal_cloud_offering.Billing.Pricing.{
  Decimals, Usage, MonthlyBill, plan_of, bill_of, calculate_monthly_bill,
}
use temporal_cloud_offering.Billing.Pricing.Laws.{bill_exact}
use temporal_cloud_offering.Billing.Plans.{get_plan_limits, calculate_cost}

-- For every name of a plan, known or not, `getPlanLimits` and `Plans` have one base price and one
-- number of included actions.
pub plans_agree :
    (d : Decimals) (decimal : Text → d.Decimal) (name : Text)
    → ((get_plan_limits d decimal name).base_price_cents ≡ (plan_of name).base_price_cents)
      × ((get_plan_limits d decimal name).actions_included ≡ (plan_of name).actions_included)
unfolding get_plan_limits plan_of lookup
plans_agree d decimal name = elim (Bool-cases (codes "free" == name)) [
  | inl free ↦ rw free (refl, refl)
  | inr not_free ↦ elim (Bool-cases (codes "essential" == name)) [
    | inl essential ↦ rw (not_free, essential) (refl, refl)
    | inr not_essential ↦ elim (Bool-cases (codes "business" == name)) [
      | inl business ↦ rw (not_free, not_essential, business) (refl, refl)
      | inr not_business ↦ elim (Bool-cases (codes "enterprise" == name)) [
        | inl enterprise ↦ rw (not_free, not_essential, not_business, enterprise) (refl, refl)
        | inr unknown ↦ rw (not_free, not_essential, not_business, unknown) (refl, refl)
      ]
    ]
  ]
]

ok_injective : {A : Type 0} {a b : A} → Checked.ok a ≡ Checked.ok b → a ≡ b
ok_injective e = cc

cost-exact :
    (d : Decimals) (usage : Usage d)
    → usage.total_actions < half
    → d.int_part (d.mul usage.active_storage_gbh d.price_per_active_storage_gbh)
      ≤ 0x2000000000000000
    → d.int_part (d.mul usage.retained_storage_gbh d.price_per_retained_storage_gbh)
      ≤ 0x2000000000000000
    → calculate_cost d usage
      ≡ usage.total_actions / 1000000 * 2500
        + d.int_part (d.mul usage.active_storage_gbh d.price_per_active_storage_gbh)
        + d.int_part (d.mul usage.retained_storage_gbh d.price_per_retained_storage_gbh)
unfolding calculate_cost
cost-exact d usage h ha hr =
    let millions = usage.total_actions / 1000000 in
    let active = d.int_part (d.mul usage.active_storage_gbh d.price_per_active_storage_gbh) in
    let retained = d.int_part (d.mul usage.retained_storage_gbh d.price_per_retained_storage_gbh) in
    let none_yet : add64 0 (millions * 2500) ≡ millions * 2500 =
      add64-eq 0 (millions * 2500) (omega arith) ∙ omega arith in
    rw (div64-eq usage.total_actions 1000000 h, mul64-eq millions 2500 (omega arith), none_yet)
      (rw (add64-eq (millions * 2500) active (omega arith))
        (add64-eq (millions * 2500 + active) retained (omega arith)))

-- The estimate that a customer is shown and the bill of the month, for the plan of the bill, up to
-- the most actions that an `int64` holds and at most 2 ^ 61 cents of storage of each kind: the bill
-- is at most the base price and one million of actions over the estimate, and the estimate, which
-- does not know the plan, is at most the price of the included whole millions over the actions
-- and storage of the bill.
pub estimate_bounds :
    (d : Decimals) (organization plan_name : Text) (usage : Usage d)
    → usage.total_actions < half
    → d.int_part (d.mul usage.active_storage_gbh d.price_per_active_storage_gbh)
      ≤ 0x2000000000000000
    → d.int_part (d.mul usage.retained_storage_gbh d.price_per_retained_storage_gbh)
      ≤ 0x2000000000000000
    → let plan = plan_of plan_name in
      (bill : MonthlyBill d) × ((calculate_monthly_bill d organization (some plan_name) (some usage)
          ≡ ok bill)
        × (bill.total_cents ≤ calculate_cost d usage + plan.base_price_cents + 2500)
        × (calculate_cost d usage + plan.base_price_cents
            ≤ bill.total_cents + plan.actions_included / 1000000 * 2500))
unfolding calculate_monthly_bill bill_of
estimate_bounds d organization plan_name usage h ha hr =
    let plan = plan_of plan_name in
    let (bill, millions, (ran, (covers, least), cents, exact, small)) =
      bill_exact d organization plan_name usage h ha hr in
    let cost = cost-exact d usage h ha hr in
    let made : bill_of d organization plan usage ≡ bill = ok_injective ran in
    let base = ap (λ b. b.base_cost_cents) made in
    let active = ap (λ b. b.active_storage_cents) made in
    let retained = ap (λ b. b.retained_storage_cents) made in
    (bill, (ran, omega arith, omega arith))
