-- ===== src/Tests/Billing.antt =====
-- A month of the plan `essential`, its invoice, and a run over three rows.
use temporal_cloud_offering.Prelude.{false, ℕ, ◌+◌, ◌*◌, ◌/◌, ◌≡◌, ◌≤◌, ◌<◌, [], some, arith}
use temporal_cloud_offering.Text.{Text, codes}
use temporal_cloud_offering.Billing.{ok}
use temporal_cloud_offering.Billing.Int64.{half}
use temporal_cloud_offering.Billing.Pricing.{
  Decimals, Usage, MonthlyBill, plan_of, calculate_monthly_bill,
}
use temporal_cloud_offering.Billing.Pricing.Laws.{IsCover, bill_exact}
use temporal_cloud_offering.Billing.Invoice.{Ledger, Run, generate_stripe_invoice}
use temporal_cloud_offering.Billing.Invoice.Laws.{Ends, billed_in_full}
use temporal_cloud_offering.Billing.Plans.{get_plan_limits, calculate_cost}
use temporal_cloud_offering.Billing.Plans.Laws.{plans_agree, estimate_bounds}
use temporal_cloud_offering.Tests.{no_fault}

-- Thousandths.
abbrev thousandths : Decimals
thousandths = record {
  Decimal = ℕ;
  mul = λ a b. a * b / 1000;
  price_per_active_storage_gbh = 4200;
  price_per_retained_storage_gbh = 105;
  int_part = λ a. a / 1000;
}

abbrev month : Usage thousandths
month = record {
  total_actions = 3500001;
  active_storage_gbh = 10500;
  retained_storage_gbh = 100000;
}

abbrev essential : Text
essential = codes "essential"

abbrev acme : Text
acme = codes "acme"

abbrev new_ledger : Ledger
new_ledger = record { includes_pending = false; calls = 0; items = []; invoices = []; rows = [] }

bill_exact_example :
    let plan = plan_of essential in
    (bill : MonthlyBill thousandths) × (millions : ℕ) × ((calculate_monthly_bill thousandths acme
          (some essential)
          (some month)
        ≡ ok bill)
      × IsCover 3500001 plan.actions_included millions
      × (bill.action_overage_cents ≡ millions * 2500)
      × (bill.total_cents
          ≡ bill.base_cost_cents + bill.action_overage_cents + bill.active_storage_cents
            + bill.retained_storage_cents)
      × (bill.total_cents < half))
bill_exact_example =
    bill_exact thousandths acme essential month (omega arith) (omega arith) (omega arith)

billed_in_full_example :
    (bill : MonthlyBill thousandths) × (calculate_monthly_bill thousandths acme
        (some essential)
        (some month)
      ≡ ok bill)
    × Ends
        (codes "cus_1")
        bill.total_cents
        new_ledger
        (generate_stripe_invoice no_fault thousandths (some (codes "cus_1")) bill new_ledger)
billed_in_full_example =
    billed_in_full no_fault thousandths acme essential (codes "us_1") b'c' month new_ledger
      (omega arith) (omega arith) (omega arith)

abbrev new_run : Run no_fault thousandths
new_run = record { processed = 0; failed = 0; ledger = new_ledger }

-- The same decimal numbers, with a literal for each.
plans_agree_example :
    ((get_plan_limits thousandths (λ t. 0) essential).base_price_cents
      ≡ (plan_of essential).base_price_cents)
    × ((get_plan_limits thousandths (λ t. 0) essential).actions_included
        ≡ (plan_of essential).actions_included)
plans_agree_example = plans_agree thousandths (λ t. 0) essential

estimate_bounds_example :
    let plan = plan_of essential in
    (bill : MonthlyBill thousandths) × ((calculate_monthly_bill thousandths acme
          (some essential)
          (some month)
        ≡ ok bill)
      × (bill.total_cents ≤ calculate_cost thousandths month + plan.base_price_cents + 2500)
      × (calculate_cost thousandths month + plan.base_price_cents
          ≤ bill.total_cents + plan.actions_included / 1000000 * 2500))
estimate_bounds_example =
    estimate_bounds thousandths acme essential month (omega arith) (omega arith) (omega arith)
