-- ===== src/Billing/Invoice.antt =====
-- `GenerateStripeInvoice` and `RunMonthlyBilling` of billing-service/pricing.go. Stripe and the
-- database are state: the pending items, the invoices that were made, and the number of the next call, at
-- which `fault` says whether it fails. The text of an item and of the stored row is left out.
pub mod Laws
use temporal_cloud_offering.Prelude.{
  ℕ, suc, ◌+◌, Bool, true, false, List, [], ◌∷◌, Option, none, some, if◌then◌else◌,
}
use temporal_cloud_offering.Text.{Text, codes, ◌==◌}
use temporal_cloud_offering.Billing.{Checked, ok, err}
use temporal_cloud_offering.Billing.Int64.{lt64}
use temporal_cloud_offering.Billing.Pricing.{Decimals, Usage, MonthlyBill, calculate_monthly_bill}

pub record Item : Type 0 where
  pub customer : Text
  pub amount : ℕ
  pub currency : Text

-- An invoice, with the items that it charges.
pub record Invoice : Type 0 where
  pub customer : Text
  pub items : List Item

-- Newest first: the pending items, the invoices, the totals of the stored rows. Whether a new
-- invoice takes the pending items of its customer is what Stripe does where the request does not
-- say, as this one does not; the version of Stripe behind stripe-go v76 leaves them out.
pub record Ledger : Type 0 where
  pub includes_pending : Bool
  pub calls : ℕ
  pub items : List Item
  pub invoices : List Invoice
  pub rows : List ℕ

unfoldable pub items_of : Text → List Item → List Item
items_of customer [] = []
items_of customer (item ∷ items) =
    let rest = items_of customer items in if item.customer == customer then item ∷ rest else rest

unfoldable pub items_without : Text → List Item → List Item
items_without customer [] = []
items_without customer (item ∷ items) =
    let rest = items_without customer items in
    if item.customer == customer then rest else item ∷ rest

-- The error that is returned, and what was done until then.
abbrev pub Result : Type 0
Result = Option Text × Ledger

abbrev pub after : Text → Bool × Ledger → (Ledger → Result) → Result
after message (true, w) rest = rest w
after message (false, w) rest = (some message, w)

module _ (fault : ℕ → Bool) where
  -- An item, where there is something to charge: whether no call failed.
  unfoldable pub charge : Text → ℕ → Ledger → Bool × Ledger
  charge customer amount w =
      if lt64 0 amount
      then (if fault w.calls then (false, record w { calls = suc w.calls }) else (
        true,
        record w {
          calls = suc w.calls;
          items = record { customer = customer; amount = amount; currency = codes "usd" } ∷ w.items;
        },
      ))
      else (true, w)

  -- The invoice, and its row; where the row fails, that is logged.
  unfoldable pub create_invoice : Text → ℕ → Ledger → Result
  unfolding items_of items_without
  create_invoice customer total w =
      if fault w.calls
      then (some (codes "failed to create invoice"), record w { calls = suc w.calls })
      else (
        none,
        record w {
          calls = suc (suc w.calls);
          items = if w.includes_pending then items_without customer w.items else w.items;
          invoices =
              record {
                customer = customer;
                items = if w.includes_pending then items_of customer w.items else [];
              }
              ∷ w.invoices;
          rows = if fault (suc w.calls) then w.rows else total ∷ w.rows;
        },
      )

  module _ (d : Decimals) where
    -- The items of a bill and the invoice.
    unfoldable pub invoice_customer : Text → MonthlyBill d → Ledger → Result
    unfolding charge create_invoice
    invoice_customer customer bill w =
        after (codes "failed to create base invoice item") (charge customer bill.base_cost_cents w)
          λ w1.
            after (codes "failed to create action overage item")
              (charge customer bill.action_overage_cents w1)
              λ w2.
                after (codes "failed to create active storage item")
                  (charge customer bill.active_storage_cents w2)
                  λ w3.
                    after (codes "failed to create retained storage item")
                      (charge customer bill.retained_storage_cents w3)
                      λ w4. create_invoice customer bill.total_cents w4

    -- `none` is an error of the query for the customer.
    unfoldable pub generate_stripe_invoice : Option Text → MonthlyBill d → Ledger → Result
    generate_stripe_invoice none bill w = (some (codes "failed to get Stripe customer"), w)
    generate_stripe_invoice (some []) bill w =
        (some (codes "organization has no Stripe customer ID"), w)
    generate_stripe_invoice (some (c ∷ customer)) bill w = invoice_customer (c ∷ customer) bill w

    pub record Run : Type 0 where
      pub processed : ℕ
      pub failed : ℕ
      pub ledger : Ledger

    abbrev pub count : Run → Result → Run
    count run (none, w) = record run { processed = suc run.processed; ledger = w }
    count run (some _, w) = record run { failed = suc run.failed; ledger = w }

    -- One organization: the bill, and an invoice where the total is positive.
    abbrev pub bill_organization : Option Text → Checked (MonthlyBill d) → Run → Run
    bill_organization customer (err _) run = record run { failed = suc run.failed }
    bill_organization customer (ok bill) run =
        if lt64 0 bill.total_cents
        then count run (generate_stripe_invoice customer bill run.ledger)
        else record run { processed = suc run.processed }

    -- The loop over the rows; a row that does not scan is skipped. The last three arguments are what
    -- the database holds of an organization.
    module _ (plan : Text → Option Text) (usage : Text → Option (Usage d))
        (customer : Text → Option Text) where
      unfoldable pub run_monthly_billing : List (Option Text) → Run → Run
      run_monthly_billing [] run = run
      run_monthly_billing (none ∷ rows) run = run_monthly_billing rows run
      run_monthly_billing (some organization ∷ rows) run = run_monthly_billing rows (
          bill_organization (customer organization)
            (calculate_monthly_bill d organization (plan organization) (usage organization)) run)
