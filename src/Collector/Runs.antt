-- ===== src/Collector/Runs.antt =====
-- How often an hour is aggregated: once for each collection of the hour after it.
use temporal_cloud_offering.Prelude.{
  ℕ, zero, suc, ◌+◌, ◌-◌, ◌*◌, ◌/◌, ◌≡◌, refl, ap, ◌∙◌, inl, inr, false, List, [], ◌∷◌, arith, ltb,
  Bool-cases,
}
use temporal_cloud_offering.Text.{Text, codes, ◌==◌}
use temporal_cloud_offering.Collector.{
  Metrics, TrackedNamespace, UsageTables, hour, called, billed_actions, store_usage, collect_one,
  collect_all, aggregate_hourly, collect, collections,
}
use temporal_cloud_offering.Collector.Groups.{recorded_actions, billed-group_period}

module _ (m : Metrics) (k : ℕ) where
  -- What the hour before holds of an organization, as records and as aggregates.
  abbrev pub recorded : Text → UsageTables m.Decimal → ℕ
  recorded organization w = recorded_actions organization (k * hour) (suc k * hour) w.usage_records

  abbrev pub billed : Text → UsageTables m.Decimal → ℕ
  billed organization w = billed_actions organization (k * hour) (suc k * hour) w.usage_aggregates

module _ (m : Metrics) (k : ℕ) (works : (i : ℕ) → m.fault i ≡ false)
    (during : (i : ℕ) → m.clock i / hour ≡ suc k)
    (kept : (i : ℕ) → m.stored (m.clock i) / hour ≡ suc k) where
  abbrev Same : Text → UsageTables m.Decimal → UsageTables m.Decimal → Type 0
  Same organization w v =
      (recorded m k organization v ≡ recorded m k organization w)
      × (billed m k organization v ≡ billed m k organization w)

  collect_one-Same :
      (organization : Text) (ns : TrackedNamespace) (w : UsageTables m.Decimal)
      → Same organization w (collect_one m ns w)
  unfolding store_usage recorded_actions
  collect_one-Same organization ns w =
      let now = m.stored (m.clock (7 + w.calls)) in
      let late : ltb now (suc k * hour) ≡ false = ground (arith, kept (7 + w.calls)) in
      rw (works (7 + w.calls)) (ground arith, refl)

  collect_all-Same :
      (organization : Text) (namespaces : List TrackedNamespace) (w : UsageTables m.Decimal)
      → Same organization w (collect_all m namespaces w)
  unfolding collect_all
  collect_all-Same organization [] w = (refl, refl)
  collect_all-Same organization (ns ∷ namespaces) w =
      let (r, b) = collect_all-Same organization namespaces w in
      let one = collect_one-Same organization ns w in
      let (r', b') = collect_all-Same organization namespaces (collect_one m ns w) in
      elim (Bool-cases (ns.status == codes "active")) [
        | inl active ↦ rw active (r' ∙ one.0, b' ∙ one.1)
        | inr other ↦ rw other (r, b)
      ]

  aggregate_hourly-billed :
      (organization : Text) (w : UsageTables m.Decimal)
      → (recorded m k organization (aggregate_hourly m w) ≡ recorded m k organization w)
        × (billed m k organization (aggregate_hourly m w)
            ≡ recorded m k organization w + billed m k organization w)
  unfolding aggregate_hourly
  aggregate_hourly-billed organization w =
      let start : m.clock w.calls / hour * hour - hour ≡ k * hour = omega (arith, during w.calls) in
      let stop : k * hour + hour ≡ suc k * hour = omega arith in
      rw (works w.calls, start, stop)
        (
          refl,
          billed-group_period m organization (k * hour) (suc k * hour) w.usage_records
              w.usage_aggregates,
        )

  collect-billed :
      (organization : Text) (w : UsageTables m.Decimal)
      → (recorded m k organization (collect m w) ≡ recorded m k organization w)
        × (billed m k organization (collect m w)
            ≡ recorded m k organization w + billed m k organization w)
  unfolding collect
  collect-billed organization w =
      let ready = collect_all m w.namespaces (called m w) in
      let (r, b) = collect_all-Same organization w.namespaces (called m w) in
      let (r', b') = aggregate_hourly-billed organization ready in
      rw (works w.calls) (r' ∙ r, omega (arith, b', r, b))

  -- Each collection during one hour, whichever samples it gets, aggregates the hour before again:
  -- after `n` collections, the actions of that hour that are billed to an organization have grown
  -- by `n` times those that were recorded for it. So they are billed exactly once when there is
  -- exactly one collection in an hour. The conditions: the database does not fail, and the clock
  -- and the times that are stored stay within the hour.
  pub aggregated_each_run :
      (organization : Text) (n : ℕ) (w : UsageTables m.Decimal)
      → billed m k organization (collections m n w)
        ≡ billed m k organization w + n * recorded m k organization w
  unfolding collections
  aggregated_each_run organization zero w = omega arith
  aggregated_each_run organization (suc n) w =
      let (r, b) = collect-billed organization w in
      aggregated_each_run organization n (collect m w)
      ∙ ap (λ x. billed m k organization (collect m w) + n * x) r
      ∙ omega (arith, b)
