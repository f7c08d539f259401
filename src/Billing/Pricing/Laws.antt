-- ===== src/Billing/Pricing/Laws.antt =====
-- The amounts of a bill: what is charged for actions, and that the total does not overflow.
use temporal_cloud_offering.Prelude.{
  ℕ, ◌+◌, ◌-◌, ◌*◌, ◌/◌, ◌%◌, ◌≤◌, ◌<◌, ◌≡◌, refl, ◌∙◌, ◌⊎◌, inl, inr, List, [], ◌∷◌, All, true,
  false, some, ltb, arith, Bool-cases, if◌then◌else◌,
}
use temporal_cloud_offering.Text.{Text, lookup, ◌==◌}
use temporal_cloud_offering.Billing.{ok}
use temporal_cloud_offering.Billing.Int64.{word, half, add64, mul64, lt64}
use temporal_cloud_offering.Billing.Int64.Laws.{
  add64-eq, sub64-eq, lt64-eq, lt64-negative, div64-eq, mod64-eq, mul64-eq,
}
use temporal_cloud_offering.Billing.Pricing.{
  Decimals, Plan, Usage, MonthlyBill, plans, plan_of, or_free, overage_cents, bill_of,
  calculate_monthly_bill,
}

-- The least number of millions that covers the actions beyond those included.
abbrev pub IsCover : ℕ → ℕ → ℕ → Type 0
IsCover total included millions =
    (total ≤ included + millions * 1000000)
    × ((millions ≡ 0) ⊎ (included + (millions - 1) * 1000000 < total))

-- What is computed where there is overage, without wrap-around.
overage-eq :
    (total included : ℕ)
    → total < half
    → included < total
    → let o = total - included in
      overage_cents total included
      ≡ mul64 (if ltb 0 (o % 1000000) then add64 (o / 1000000) 1 else o / 1000000) 2500
unfolding overage_cents
overage-eq total included h k =
    let o = total - included in
    let over : lt64 included total ≡ true = lt64-eq included total (omega arith) h ∙ ground arith in
    rw
      (
        over,
        sub64-eq total included (omega arith) (omega arith),
        div64-eq o 1000000 (omega arith),
        mod64-eq o 1000000 (omega arith),
        lt64-eq 0 (o % 1000000) (omega arith) (omega arith),
      )
      refl

overage-none :
    (total included : ℕ)
    → total < half
    → included < half
    → total ≤ included
    → overage_cents total included ≡ 0
unfolding overage_cents
overage-none total included h k le =
    let under : lt64 included total ≡ false = lt64-eq included total k h ∙ ground arith in
    rw under refl

overage_covers :
    (total included : ℕ)
    → total < half
    → included < half
    → (millions : ℕ) × IsCover total included millions
      × (overage_cents total included ≡ millions * 2500)
      × (millions ≤ 9223372036855)
overage_covers total included h k = elim (Bool-cases (ltb included total)) [
  | inr under ↦
      (0, (ground arith, inl refl), overage-none total included h k (ground arith), omega arith)
  | inl over ↦
      let more : included < total = ground arith in
      let o = total - included in
      elim (Bool-cases (ltb 0 (o % 1000000))) [
        | inl rest ↦
            let left : 0 < o % 1000000 = ground arith in
            (
              o / 1000000 + 1,
              (omega arith, inr (omega arith)),
              overage-eq total included h more
                  ∙ rw (rest, add64-eq (o / 1000000) 1 (omega arith))
                      (mul64-eq (o / 1000000 + 1) 2500 (omega arith)),
              omega arith,
            )
        | inr whole ↦
            let left : o % 1000000 ≡ 0 = ground arith in
            (
              o / 1000000,
              (omega arith, inr (omega arith)),
              overage-eq total included h more
                  ∙ rw whole (mul64-eq (o / 1000000) 2500 (omega arith)),
              omega arith,
            )
      ]
]

-- A count with the sign bit set is negative, and not charged.
overage-negative :
    (total included : ℕ)
    → half ≤ total
    → total < word
    → included < half
    → overage_cents total included ≡ 0
unfolding overage_cents
overage-negative total included h l k = rw (lt64-negative included total k h l) refl

abbrev IsSmall : Plan → Type 0
IsSmall plan = (plan.base_price_cents ≤ 50000) × (plan.actions_included ≤ 10000000)

found-IsSmall :
    (name : Text) (entries : List (Text × Plan))
    → All (λ e. IsSmall e.1) entries
    → IsSmall (or_free (lookup name entries))
unfolding lookup
found-IsSmall name [] h = omega arith
found-IsSmall name (e ∷ entries) (h, hs) = elim (Bool-cases (e.0 == name)) [
  | inl here ↦ rw here h
  | inr other ↦ rw other (found-IsSmall name entries hs)
]

plan_of-IsSmall : (name : Text) → IsSmall (plan_of name)
unfolding plan_of
plan_of-IsSmall name = found-IsSmall name plans (omega arith)

-- Whatever the plan and the actions used, up to the most that an `int64` holds, and with at most
-- 2 ^ 61 cents of storage of each kind: the bill charges $25 for each started million of actions
-- beyond those that the plan includes in the code, also on enterprise and on free, and its
-- total is the exact sum of its four amounts, without overflow.
pub bill_exact :
    (d : Decimals) (organization plan_name : Text) (usage : Usage d)
    → usage.total_actions < half
    → d.int_part (d.mul usage.active_storage_gbh d.price_per_active_storage_gbh)
      ≤ 0x2000000000000000
    → d.int_part (d.mul usage.retained_storage_gbh d.price_per_retained_storage_gbh)
      ≤ 0x2000000000000000
    → let plan = plan_of plan_name in
      (bill : MonthlyBill d) × (millions : ℕ) × ((calculate_monthly_bill d organization
            (some plan_name)
            (some usage)
          ≡ ok bill)
        × IsCover usage.total_actions plan.actions_included millions
        × (bill.action_overage_cents ≡ millions * 2500)
        × (bill.total_cents
            ≡ bill.base_cost_cents + bill.action_overage_cents + bill.active_storage_cents
              + bill.retained_storage_cents)
        × (bill.total_cents < half))
unfolding calculate_monthly_bill bill_of
bill_exact d organization plan_name usage h ha hr =
    let plan = plan_of plan_name in
    let active = d.int_part (d.mul usage.active_storage_gbh d.price_per_active_storage_gbh) in
    let retained = d.int_part (d.mul usage.retained_storage_gbh d.price_per_retained_storage_gbh) in
    let overage = overage_cents usage.total_actions plan.actions_included in
    let (base_small, included_small) = plan_of-IsSmall plan_name in
    let (millions, cover, cents, few) =
      overage_covers usage.total_actions plan.actions_included h (omega arith) in
    let small : overage ≤ 23058430092137500 = omega arith in
    let exact : add64 (add64 (add64 plan.base_price_cents overage) active) retained
        ≡ plan.base_price_cents + overage + active + retained =
      rw
        (
          add64-eq plan.base_price_cents overage (omega arith),
          add64-eq (plan.base_price_cents + overage) active (omega arith),
        )
        (add64-eq (plan.base_price_cents + overage + active) retained (omega arith)) in
    (
      bill_of d organization plan usage,
      millions,
      (refl, cover, cents, exact, rw exact (omega arith)),
    )
