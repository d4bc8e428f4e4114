-- ===== src/Metrics.antt =====
-- metrics.rs: the sink of samples. The mutex is the flag `poisoned`; a value is an `f64`, of any
-- type.
use nomad_rs.Base.{Bool, true, false, String, List, [], ◌∷◌, ◌++◌}
use nomad_rs.Error.{runtime, Result, ok, err, metrics_poisoned}

pub data MetricKind : Type 0 where
  counter gauge timer : MetricKind

module _ (F : Type 0) where
  pub record Metric : Type 0 where
    pub key : String
    pub value : F
    pub kind : MetricKind

  pub record InMemorySink : Type 0 where
    pub samples : List Metric
    pub poisoned : Bool

  unfoldable pub emit : Metric → InMemorySink → InMemorySink × Result (Unit {0})
  emit m s = elim s.poisoned [
    | true ↦ (s, err (runtime metrics_poisoned))
    | false ↦ (record s { samples = s.samples ++ m ∷ [] }, ok tt)
  ]

  unfoldable pub drain : InMemorySink → InMemorySink × List Metric
  drain s = elim s.poisoned [ true ↦ (s, []) | false ↦ (record s { samples = [] }, s.samples) ]
