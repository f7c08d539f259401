-- ===== src/Billing/Invoice/Laws.antt =====
-- What an invoice charges, and what a failure leaves.
use temporal_cloud_offering.Prelude.{
  ℕ, suc, ◌+◌, ◌≤◌, ◌<◌, ◌≡◌, refl, ◌∙◌, sym, ap, subst, ◌⊎◌, inl, inr, Bool, true, false, List, [],
  All, All-append, if◌then◌else◌, ◌∷◌, ◌++◌, append_assoc, Option, none, some, arith, Bool-cases,
}
use temporal_cloud_offering.Text.{Text, codes}
use temporal_cloud_offering.Text.Laws.{==_iff}
use temporal_cloud_offering.Billing.{Checked, ok, err}
use temporal_cloud_offering.Billing.Int64.{half, lt64}
use temporal_cloud_offering.Billing.Int64.Laws.{lt64-eq}
use temporal_cloud_offering.Billing.Pricing.{Decimals, Usage, MonthlyBill, calculate_monthly_bill}
use temporal_cloud_offering.Billing.Pricing.Laws.{bill_exact}
use temporal_cloud_offering.Billing.Invoice.{
  Item, Ledger, Result, items_of, items_without, Run, after, charge, create_invoice,
  invoice_customer, run_monthly_billing, bill_organization, generate_stripe_invoice, count,
}

abbrev pub amount_of : List Item → ℕ
amount_of [] = 0
amount_of (item ∷ items) = item.amount + amount_of items

amount_of-append : (xs ys : List Item) → amount_of (xs ++ ys) ≡ amount_of xs + amount_of ys
amount_of-append [] ys = omega arith
amount_of-append (x ∷ xs) ys = omega (arith, amount_of-append xs ys)

abbrev pub IsItemOf : Text → Item → Type 0
IsItemOf customer item = item.customer ≡ customer

-- From one state to a later one: items of a customer that amount to so much, and no invoice.
abbrev pub Charged : Text → ℕ → Ledger → Ledger → Type 0
Charged customer amount w v =
    (new : List Item) × ((v.items ≡ new ++ w.items)
      × (amount_of new ≡ amount)
      × All (IsItemOf customer) new
      × (v.includes_pending ≡ w.includes_pending)
      × (v.invoices ≡ w.invoices)
      × (v.rows ≡ w.rows))

-- What an invoice takes of new items and of those that were pending, and what it leaves.
abbrev pub taken : Bool → Text → List Item → List Item → List Item
taken includes customer new items = if includes then new ++ items_of customer items else []

abbrev pub left : Bool → Text → List Item → List Item → List Item
left includes customer new items = if includes then items_without customer items else new ++ items

items_of-append :
    (customer : Text) (xs ys : List Item)
    → All (IsItemOf customer) xs
    → items_of customer (xs ++ ys) ≡ xs ++ items_of customer ys
unfolding items_of
items_of-append customer [] ys h = refl
items_of-append customer (x ∷ xs) ys (own, h) =
    ground (arith, items_of-append customer xs ys h, ==_iff x.customer customer)

items_without-append :
    (customer : Text) (xs ys : List Item)
    → All (IsItemOf customer) xs
    → items_without customer (xs ++ ys) ≡ items_without customer ys
unfolding items_without
items_without-append customer [] ys h = refl
items_without-append customer (x ∷ xs) ys (own, h) =
    ground (arith, items_without-append customer xs ys h, ==_iff x.customer customer)

taken-append :
    (includes : Bool) (customer : Text) (ys xs items : List Item)
    → All (IsItemOf customer) xs
    → taken includes customer ys (xs ++ items) ≡ taken includes customer (ys ++ xs) items
taken-append false customer ys xs items h = refl
taken-append true customer ys xs items h =
    ap (λ t. ys ++ t) (items_of-append customer xs items h)
    ∙ sym (append_assoc ys xs (items_of customer items))

left-append :
    (includes : Bool) (customer : Text) (ys xs items : List Item)
    → All (IsItemOf customer) xs
    → left includes customer ys (xs ++ items) ≡ left includes customer (ys ++ xs) items
left-append false customer ys xs items h = sym (append_assoc ys xs items)
left-append true customer ys xs items h = items_without-append customer xs items h

module _ (fault : ℕ → Bool) where
  -- An item is made in full, or the call failed and nothing was made.
  charge_lem :
      (customer : Text) (amount : ℕ) (w : Ledger)
      → amount < half
      → ((v : Ledger) × (charge fault customer amount w ≡ (true, v)) × Charged customer amount w v)
        ⊎ ((v : Ledger) × (charge fault customer amount w ≡ (false, v)) × Charged customer 0 w v)
  unfolding charge
  charge_lem customer amount w h = elim (Bool-cases (lt64 0 amount)) [
    | inr free ↦
        let zero_amount : 0 ≡ amount = ground (arith, lt64-eq 0 amount (omega arith) h) in
        inl (w, rw free refl, ([], (refl, zero_amount, tt, refl, refl, refl)))
    | inl due ↦ elim (Bool-cases (fault w.calls)) [
      | inl failed ↦ inr (
        record w { calls = suc w.calls },
        rw (due, failed) refl,
        ([], (refl, refl, tt, refl, refl, refl)),
      )
      | inr works ↦
          let item : Item = record {
            customer = customer;
            amount = amount;
            currency = codes "usd";
          } in
          inl (
            record w { calls = suc w.calls; items = item ∷ w.items },
            rw (due, works) refl,
            (item ∷ [], (refl, omega arith, (refl, tt), refl, refl, refl)),
          )
    ]
  ]

-- How an invoice ends: it is made, over new items that amount to so much, with what it takes; or
-- there is an error, and neither an invoice nor a row was made.
abbrev pub Ends : Text → ℕ → Ledger → Result → Type 0
Ends customer amount w (none, v) =
    (new : List Item) × ((amount_of new ≡ amount)
      × All (IsItemOf customer) new
      × (v.invoices
          ≡ record { customer = customer; items = taken w.includes_pending customer new w.items }
            ∷ w.invoices)
      × (v.items ≡ left w.includes_pending customer new w.items))
Ends customer amount w (some _, v) =
    (new : List Item) × ((v.items ≡ new ++ w.items) × (v.invoices ≡ w.invoices) × (v.rows ≡ w.rows))

extend-Ends :
    (customer : Text) (a rest : ℕ) (w v : Ledger) (result : Result)
    → Charged customer a w v
    → Ends customer rest v result
    → Ends customer (a + rest) w result
extend-Ends customer a rest w v (none, u) (xs, (i, s, own, same, n, r)) (ys, (s', own', n', i')) =
    let kept : (f : Bool → List Item → List Item)
        → f v.includes_pending v.items ≡ f w.includes_pending (xs ++ w.items) =
      λ f. ap (λ b. f b v.items) same ∙ ap (f w.includes_pending) i in
    (
      ys ++ xs,
      (
        omega (arith, amount_of-append ys xs, s, s'),
        All-append (IsItemOf customer) ys xs own' own,
        n'
            ∙ ap (λ t. record { customer = customer; items = t } ∷ v.invoices)
                (kept (λ b t. taken b customer ys t)
                  ∙ taken-append w.includes_pending customer ys xs w.items own)
            ∙ ap
                (λ t.
                  record {
                    customer = customer;
                    items = taken w.includes_pending customer (ys ++ xs) w.items;
                  }
                  ∷ t)
                n,
        i'
            ∙ kept (λ b t. left b customer ys t)
            ∙ left-append w.includes_pending customer ys xs w.items own,
      ),
    )
extend-Ends customer a rest w v (some m, u) (xs, (i, s, own, same, n, r)) (ys, (i', n', r')) =
    (ys ++ xs, (i' ∙ ap (λ t. ys ++ t) i ∙ sym (append_assoc ys xs w.items), n' ∙ n, r' ∙ r))

module _ (fault : ℕ → Bool) where
  after-Ends :
      (customer message : Text) (amount rest : ℕ) (w : Ledger) (next : Ledger → Result)
      → amount < half
      → ((v : Ledger) → Ends customer rest v (next v))
      → Ends customer (amount + rest) w (after message (charge fault customer amount w) next)
  after-Ends customer message amount rest w next h ends =
      elim (charge_lem fault customer amount w h) [
        | inl (v, ran, charged) ↦
            rw ran (extend-Ends customer amount rest w v (next v) charged (ends v))
        | inr (v, ran, (new, (i, _, _, _, n, r))) ↦ rw ran (new, (i, n, r))
      ]

  create_invoice-Ends :
      (customer : Text) (total : ℕ) (w : Ledger)
      → Ends customer 0 w (create_invoice fault customer total w)
  unfolding create_invoice
  create_invoice-Ends customer total w = elim (Bool-cases (fault w.calls)) [
    | inl failed ↦ rw failed ([], (refl, refl, refl))
    | inr works ↦ rw works ([], (refl, tt, refl, refl))
  ]

  module _ (d : Decimals) where
    invoice_adds_up :
        (customer : Text) (bill : MonthlyBill d) (w : Ledger)
        → bill.base_cost_cents < half
        → bill.action_overage_cents < half
        → bill.active_storage_cents < half
        → bill.retained_storage_cents < half
        → Ends customer
            (bill.base_cost_cents
              + (bill.action_overage_cents
                  + (bill.active_storage_cents + (bill.retained_storage_cents + 0))))
            w
            (invoice_customer fault d customer bill w)
    unfolding invoice_customer
    invoice_adds_up customer bill w h0 h1 h2 h3 =
        after-Ends customer _ bill.base_cost_cents _ w _ h0 λ w1.
          after-Ends customer _ bill.action_overage_cents _ w1 _ h1 λ w2.
            after-Ends customer _ bill.active_storage_cents _ w2 _ h2 λ w3.
              after-Ends customer _ bill.retained_storage_cents 0 w3 _ h3
                λ w4. create_invoice-Ends customer bill.total_cents w4

    -- A month's bill, for at most 2 ^ 61 cents of storage of each kind and a count of actions that
    -- is not negative, is invoiced to a Stripe customer, whichever calls of Stripe and of the
    -- database fail. Either there is an error, with no further invoice and no further row. Or there
    -- are new items of the customer that amount to exactly the total of the bill, and one more
    -- invoice: where Stripe takes pending items by default, the invoice charges the new items and
    -- all that were pending for the customer, which are then no longer pending; where it does
    -- not, the invoice charges nothing, and the new items stay pending with those of before.
    pub billed_in_full :
        (organization plan_name customer : Text) (c : ℕ) (usage : Usage d) (w : Ledger)
        → usage.total_actions < half
        → d.int_part (d.mul usage.active_storage_gbh d.price_per_active_storage_gbh)
          ≤ 0x2000000000000000
        → d.int_part (d.mul usage.retained_storage_gbh d.price_per_retained_storage_gbh)
          ≤ 0x2000000000000000
        → (bill : MonthlyBill d) × (calculate_monthly_bill d organization
              (some plan_name)
              (some usage)
            ≡ ok bill)
          × Ends
              (c ∷ customer)
              bill.total_cents
              w
              (generate_stripe_invoice fault d (some (c ∷ customer)) bill w)
    unfolding generate_stripe_invoice
    billed_in_full organization plan_name customer c usage w h ha hr =
        let (bill, millions, (ran, _, _, exact, small)) =
          bill_exact d organization plan_name usage h ha hr in
        let ends =
          invoice_adds_up (c ∷ customer) bill w (omega arith) (omega arith) (omega arith)
            (omega arith) in
        (
          bill,
          ran,
          subst (λ n. Ends (c ∷ customer) n w (invoice_customer fault d (c ∷ customer) bill w))
              (omega arith) ends,
        )

    abbrev pub scanned : List (Option Text) → ℕ
    scanned [] = 0
    scanned (none ∷ rows) = scanned rows
    scanned (some _ ∷ rows) = suc (scanned rows)

    abbrev pub counted : Run fault d → ℕ
    counted run = run.processed + run.failed

    counted-count :
        (run : Run fault d) (result : Result)
        → counted (count fault d run result) ≡ suc (counted run)
    counted-count run (none, w) = omega arith
    counted-count run (some _, w) = omega arith

    counted-bill_organization :
        (customer : Option Text) (bill : Checked (MonthlyBill d)) (run : Run fault d)
        → counted (bill_organization fault d customer bill run) ≡ suc (counted run)
    counted-bill_organization customer (err _) run = omega arith
    counted-bill_organization customer (ok bill) run = elim (Bool-cases (lt64 0 bill.total_cents)) [
      | inl due ↦
          rw due (counted-count run (generate_stripe_invoice fault d customer bill run.ledger))
      | inr free ↦ rw free (omega arith)
    ]

    -- The monthly run comes to an end for every organization of its rows: each row that scans is
    -- counted once, as processed or as failed, whichever queries and calls fail.
    run_counts :
        (plan : Text → Option Text) (usage : Text → Option (Usage d))
        (customer : Text → Option Text) (rows : List (Option Text)) (run : Run fault d)
        → counted (run_monthly_billing fault d plan usage customer rows run)
          ≡ counted run + scanned rows
    unfolding run_monthly_billing
    run_counts plan usage customer [] run = omega arith
    run_counts plan usage customer (none ∷ rows) run = run_counts plan usage customer rows run
    run_counts plan usage customer (some organization ∷ rows) run =
        let bill = calculate_monthly_bill d organization (plan organization) (usage organization) in
        let run' = bill_organization fault d (customer organization) bill run in
        omega (
          arith,
          run_counts plan usage customer rows run',
          counted-bill_organization (customer organization) bill run,
        )
