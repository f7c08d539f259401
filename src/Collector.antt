-- ===== src/Collector.antt =====
-- The usage collector, usage-collector/main.go (Go): the samples of a namespace, the records that it
-- stores and the hourly aggregates, which `CalculateMonthlyBill` of billing-service/pricing.go reads.
-- Prometheus and the database are a parameter and state. A call has a number. Times are in
-- nanoseconds from the start of some hour, more than an hour ago.

pub mod Groups
pub mod Runs
use temporal_cloud_offering.Prelude.{
  ℕ, zero, suc, ◌+◌, ◌-◌, ◌*◌, ◌/◌, Bool, true, false, ◌&&◌, List, [], ◌∷◌, ◌++◌, Option, none,
  some, ltb, leb, if◌then◌else◌,
}
use temporal_cloud_offering.Text.{Text, codes, ◌==◌}
use temporal_cloud_offering.Billing.Int64.{add64}

-- The reply of Prometheus: its status and the values of its result.
pub record Reply (Float : Type 0) : Type 0 where
  pub status : Text
  pub values : List Float

-- `fault` says whether the database fails at a call, which includes a value that its column refuses;
-- `stored` is what a column of times gives back. `fetch` is a request and the reply as it was
-- decoded, `none` for any error; `to_int64` the conversion of a sample, and `gigabytes` a sum of
-- bytes over 1073741824.0, as its column has it.
pub record Metrics : Type 1 where
  pub fault : ℕ → Bool
  pub clock : ℕ → ℕ
  pub stored : ℕ → ℕ
  pub Float : Type 0
  pub zero_float : Float
  pub is_positive : Float → Bool
  pub to_int64 : Float → ℕ
  pub fetch : ℕ → Text → Option (Reply Float)
  pub prometheus_url : Text
  pub Decimal : Type 0
  pub gigabytes : ℕ → Decimal

pub record TrackedNamespace : Type 0 where
  pub organization_id : Text
  pub temporal_namespace : Text
  pub status : Text

pub record NamespaceUsage : Type 0 where
  pub action_count : ℕ
  pub active_storage_bytes : ℕ
  pub retained_storage_bytes : ℕ
  pub workflow_started : ℕ
  pub activity_started : ℕ
  pub timer_started : ℕ
  pub signal_sent : ℕ

pub record UsageRecord : Type 0 where
  pub organization_id : Text
  pub namespace_id : Text
  pub recorded_at : ℕ
  pub usage : NamespaceUsage

-- One row of the `GROUP BY`: its key and its three sums.
pub record Group : Type 0 where
  pub organization_id : Text
  pub namespace_id : Text
  pub actions : ℕ
  pub active_bytes : ℕ
  pub retained_bytes : ℕ

pub record UsageAggregate (Decimal : Type 0) : Type 0 where
  pub organization_id : Text
  pub namespace_id : Text
  pub period_start : ℕ
  pub period_end : ℕ
  pub total_actions : ℕ
  pub active_storage_gbh : Decimal
  pub retained_storage_gbh : Decimal

pub record UsageTables (Decimal : Type 0) : Type 0 where
  pub calls : ℕ
  pub namespaces : List TrackedNamespace
  pub usage_records : List UsageRecord
  pub usage_aggregates : List (UsageAggregate Decimal)

abbrev pub hour : ℕ
hour = 3600000000000

-- `recorded_at >= $1 AND recorded_at < $2`
abbrev pub in_period : ℕ → ℕ → UsageRecord → Bool
in_period start stop r = leb start r.recorded_at && ltb r.recorded_at stop

-- The counts are not negative, so that `SUM` adds them as they stand.
abbrev pub add_record : UsageRecord → List Group → List Group
add_record r [] =
    record {
      organization_id = r.organization_id;
      namespace_id = r.namespace_id;
      actions = r.usage.action_count;
      active_bytes = r.usage.active_storage_bytes;
      retained_bytes = r.usage.retained_storage_bytes;
    }
    ∷ []
add_record r (g ∷ groups) =
    let others = add_record r groups in
    if g.organization_id == r.organization_id && g.namespace_id == r.namespace_id
    then record g {
      actions = r.usage.action_count + g.actions;
      active_bytes = r.usage.active_storage_bytes + g.active_bytes;
      retained_bytes = r.usage.retained_storage_bytes + g.retained_bytes;
    }
      ∷ groups
    else g ∷ others

-- The records of a period, grouped by organization and namespace.
unfoldable pub group_period : ℕ → ℕ → List UsageRecord → List Group
group_period start stop [] = []
group_period start stop (r ∷ records) =
    let groups = group_period start stop records in
    if in_period start stop r then add_record r groups else groups

-- `SUM(total_actions)` of an organization over the aggregates within a period, as the bill reads it.
unfoldable pub billed_actions :
    {Decimal : Type 0} → Text → ℕ → ℕ → List (UsageAggregate Decimal) → ℕ
billed_actions organization start stop [] = 0
billed_actions organization start stop (a ∷ aggregates) =
    let rest = billed_actions organization start stop aggregates in
    if a.organization_id == organization && leb start a.period_start && leb a.period_end stop
    then a.total_actions + rest
    else rest

module _ (m : Metrics) where
  abbrev pub called : UsageTables m.Decimal → UsageTables m.Decimal
  called w = record w { calls = suc w.calls }

  abbrev first_value : List m.Float → m.Float
  first_value [] = m.zero_float
  first_value (v ∷ values) = v

  abbrev value_of : Option (Reply m.Float) → Option m.Float
  value_of none = none
  value_of (some reply) =
      if reply.status == codes "success" then some (first_value reply.values) else some m.zero_float

  -- One query, at a call; the query stands in the address as it is.
  unfoldable pub query_prometheus : ℕ → Text → Option m.Float
  query_prometheus call query =
      value_of (m.fetch call (m.prometheus_url ++ (codes "/api/v1/query?query=" ++ query)))

  abbrev query_text : Text → Text → Text → Text
  query_text before namespace after =
      codes "sum(" ++ (before ++ (codes "{namespace=\"" ++ (namespace ++ (codes "\"}" ++ after))))

  abbrev pub plus : ℕ → Option m.Float → ℕ
  plus count none = count
  plus count (some value) = add64 count (m.to_int64 value)

  abbrev pub counted : Option m.Float → ℕ
  counted none = 0
  counted (some value) = m.to_int64 value

  abbrev pub positive_only : Option m.Float → Option m.Float
  positive_only none = none
  positive_only (some value) = if m.is_positive value then some value else none

  -- The seven queries of a namespace, from a call on; one that fails leaves its fields as they are.
  unfoldable pub collect_namespace_usage : ℕ → Text → NamespaceUsage
  unfolding query_prometheus
  collect_namespace_usage call namespace =
      let increase = λ (metric : Text) (i : ℕ).
        query_prometheus (i + call)
          (query_text (codes "increase(" ++ metric) namespace (codes "[1h]))")) in
      let workflow_tasks = increase (codes "workflow_task_completed_total") 0 in
      let activity_tasks = increase (codes "activity_task_completed_total") 1 in
      let workflow_started = increase (codes "workflow_started_total") 2 in
      let timer_started = increase (codes "timer_started_total") 3 in
      let signal_sent = increase (codes "signal_sent_total") 4 in
      let history_size =
        query_prometheus (5 + call)
          (query_text (codes "history_size_bytes") namespace (codes ")")) in
      let retained_size =
        query_prometheus (6 + call)
          (query_text (codes "history_size_retained_bytes") namespace (codes ")")) in
      record {
        action_count =
            plus (plus (plus (plus 0 workflow_tasks) activity_tasks) timer_started) signal_sent;
        active_storage_bytes = counted history_size;
        retained_storage_bytes = counted (positive_only retained_size);
        workflow_started = counted workflow_started;
        activity_started = counted activity_tasks;
        timer_started = counted timer_started;
        signal_sent = counted signal_sent;
      }

  -- One record; an error is logged.
  unfoldable pub store_usage :
      Text → Text → NamespaceUsage → UsageTables m.Decimal → UsageTables m.Decimal
  store_usage organization namespace usage w =
      if m.fault w.calls then called w else record (called w) {
        usage_records =
            record {
              organization_id = organization;
              namespace_id = namespace;
              recorded_at = m.stored (m.clock w.calls);
              usage = usage;
            }
            ∷ w.usage_records;
      }

  abbrev pub collect_one : TrackedNamespace → UsageTables m.Decimal → UsageTables m.Decimal
  collect_one ns w =
      store_usage ns.organization_id ns.temporal_namespace
        (collect_namespace_usage w.calls ns.temporal_namespace) (record w { calls = 7 + w.calls })

  -- The loop over the namespaces whose status is `active`.
  unfoldable pub collect_all : List TrackedNamespace → UsageTables m.Decimal → UsageTables m.Decimal
  unfolding store_usage
  collect_all [] w = w
  collect_all (ns ∷ namespaces) w =
      if ns.status == codes "active"
      then collect_all namespaces (collect_one ns w)
      else collect_all namespaces w

  abbrev pub aggregate_of : ℕ → ℕ → Group → UsageAggregate m.Decimal
  aggregate_of start stop g = record {
    organization_id = g.organization_id;
    namespace_id = g.namespace_id;
    period_start = start;
    period_end = stop;
    total_actions = g.actions;
    active_storage_gbh = m.gigabytes g.active_bytes;
    retained_storage_gbh = m.gigabytes g.retained_bytes;
  }

  abbrev pub aggregates_of :
      ℕ → ℕ → List Group → List (UsageAggregate m.Decimal) → List (UsageAggregate m.Decimal)
  aggregates_of start stop [] aggregates = aggregates
  aggregates_of start stop (g ∷ groups) aggregates =
      aggregate_of start stop g ∷ aggregates_of start stop groups aggregates

  -- The hour before the one that has begun. The only unique column is `id`, which is new, so that
  -- `ON CONFLICT DO NOTHING` lets every row in.
  unfoldable pub aggregate_hourly : UsageTables m.Decimal → UsageTables m.Decimal
  unfolding group_period
  aggregate_hourly w =
      let start = m.clock w.calls / hour * hour - hour in
      let stop = start + hour in
      if m.fault w.calls then called w else record (called w) {
        usage_aggregates =
            aggregates_of start stop (group_period start stop w.usage_records) w.usage_aggregates;
      }

  -- One collection: where the namespaces cannot be read, nothing is done.
  unfoldable pub collect : UsageTables m.Decimal → UsageTables m.Decimal
  unfolding collect_all aggregate_hourly
  collect w =
      if m.fault w.calls then called w else aggregate_hourly (collect_all w.namespaces (called w))

  -- The first collection and those of the ticks.
  unfoldable pub collections : ℕ → UsageTables m.Decimal → UsageTables m.Decimal
  unfolding collect
  collections zero w = w
  collections (suc n) w = collections n (collect w)
