-- ===== src/Collector/Groups.antt =====
-- The aggregates of a period: they keep the actions of each organization.
use temporal_cloud_offering.Prelude.{
  ℕ, ◌+◌, ◌≡◌, refl, ap, ◌∙◌, ◌&&◌, List, [], ◌∷◌, arith, if◌then◌else◌,
}
use temporal_cloud_offering.Text.{Text, ◌==◌}
use temporal_cloud_offering.Text.Laws.{==_iff}
use temporal_cloud_offering.Collector.{
  Metrics, UsageRecord, UsageAggregate, Group, in_period, add_record, group_period, billed_actions,
  aggregates_of,
}

-- The actions that were recorded for an organization within a period.
unfoldable pub recorded_actions : Text → ℕ → ℕ → List UsageRecord → ℕ
recorded_actions organization start stop [] = 0
recorded_actions organization start stop (r ∷ records) =
    let rest = recorded_actions organization start stop records in
    if r.organization_id == organization && in_period start stop r
    then r.usage.action_count + rest
    else rest

abbrev grouped_actions : Text → List Group → ℕ
grouped_actions organization [] = 0
grouped_actions organization (g ∷ groups) =
    if g.organization_id == organization
    then g.actions + grouped_actions organization groups
    else grouped_actions organization groups

grouped-add_record :
    (organization : Text) (r : UsageRecord) (groups : List Group)
    → grouped_actions organization (add_record r groups) ≡ (
        if r.organization_id == organization
        then r.usage.action_count + grouped_actions organization groups
        else grouped_actions organization groups)
grouped-add_record organization r [] = refl
grouped-add_record organization r (g ∷ groups) = ground (
  arith,
  grouped-add_record organization r groups,
  ==_iff g.organization_id r.organization_id,
  ==_iff g.organization_id organization,
  ==_iff r.organization_id organization,
)

grouped-group_period :
    (organization : Text) (start stop : ℕ) (records : List UsageRecord)
    → grouped_actions organization (group_period start stop records)
      ≡ recorded_actions organization start stop records
unfolding group_period recorded_actions
grouped-group_period organization start stop [] = refl
grouped-group_period organization start stop (r ∷ records) = ground (
  arith,
  grouped-group_period organization start stop records,
  grouped-add_record organization r (group_period start stop records),
)

module _ (m : Metrics) where
  billed-aggregates_of :
      (organization : Text) (start stop : ℕ) (groups : List Group)
      (aggregates : List (UsageAggregate m.Decimal))
      → billed_actions organization start stop (aggregates_of m start stop groups aggregates)
        ≡ grouped_actions organization groups + billed_actions organization start stop aggregates
  unfolding billed_actions
  billed-aggregates_of organization start stop [] aggregates = omega arith
  billed-aggregates_of organization start stop (g ∷ groups) aggregates =
      ground (arith, billed-aggregates_of organization start stop groups aggregates)

  -- What the aggregates of a period add to what is billed is what was recorded in it.
  pub billed-group_period :
      (organization : Text) (start stop : ℕ) (records : List UsageRecord)
      (aggregates : List (UsageAggregate m.Decimal))
      → billed_actions organization start stop
          (aggregates_of m start stop (group_period start stop records) aggregates)
        ≡ recorded_actions organization start stop records
          + billed_actions organization start stop aggregates
  billed-group_period organization start stop records aggregates =
      billed-aggregates_of organization start stop (group_period start stop records) aggregates
      ∙ ap (λ n. n + billed_actions organization start stop aggregates)
          (grouped-group_period organization start stop records)
