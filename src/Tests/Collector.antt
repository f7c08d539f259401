-- ===== src/Tests/Collector.antt =====
-- Two collections in one hour, after an hour with two records.
use temporal_cloud_offering.Prelude.{ℕ, ◌+◌, ◌*◌, ◌/◌, ◌≡◌, refl, true, [], ◌∷◌, some, arith}
use temporal_cloud_offering.Text.{Text, codes}
use temporal_cloud_offering.Collector.{
  Metrics, NamespaceUsage, UsageRecord, UsageTables, hour, collections,
}
use temporal_cloud_offering.Collector.Runs.{recorded, billed, aggregated_each_run}
use temporal_cloud_offering.Tests.{no_fault}

-- Every sample is 5, and the sixth hour has begun.
abbrev metrics : Metrics
metrics = record {
  fault = no_fault;
  clock = λ i. 6 * hour;
  stored = λ t. t;
  Float = ℕ;
  zero_float = 0;
  is_positive = λ x. true;
  to_int64 = λ x. x;
  fetch = λ i query. some (record { status = codes "success"; values = 5 ∷ [] });
  prometheus_url = codes "http://prometheus";
  Decimal = ℕ;
  gigabytes = λ b. b / 1073741824;
}

abbrev acme : Text
acme = codes "acme"

abbrev usage : NamespaceUsage
usage = record {
  action_count = 100;
  active_storage_bytes = 7;
  retained_storage_bytes = 0;
  workflow_started = 40;
  activity_started = 30;
  timer_started = 20;
  signal_sent = 10;
}

abbrev at : ℕ → UsageRecord
at t = record { organization_id = acme; namespace_id = acme; recorded_at = t; usage = usage }

abbrev tables : UsageTables ℕ
tables = record {
  calls = 0;
  namespaces =
      record { organization_id = acme; temporal_namespace = acme; status = codes "active" } ∷ [];
  usage_records = at (5 * hour) ∷ at (5 * hour + 60) ∷ [];
  usage_aggregates = [];
}

in_hour : (i : ℕ) → metrics.clock i / hour ≡ 6
in_hour i = omega arith

aggregated_each_run_example :
    billed metrics 5 acme (collections metrics 2 tables)
    ≡ billed metrics 5 acme tables + 2 * recorded metrics 5 acme tables
aggregated_each_run_example =
    aggregated_each_run metrics 5 (λ i. refl) in_hour in_hour acme 2 tables
