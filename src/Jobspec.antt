-- ===== src/Jobspec.antt =====
-- jobspec.rs: the job specification and its validation. A `HashMap` of `serde_json` values holds
-- each value by its JSON text.
use nomad_rs.Base.{
  Bool, true, false, not, ◌||◌, String, List, [], ◌∷◌, str_eq, is_empty, if◌then◌else◌,
}
use nomad_rs.Base.Int.{ℤ, pos, leb_ℤ, ltb_ℤ}
use nomad_rs.Base.HashMap.{HashMap}
use nomad_rs.Constraint.{Constraint, Affinity, Spread}
use nomad_rs.Error.{
  validation, Result, ok, ◌>>◌, refuse, each, job_name_empty, priority_out_of_range, no_datacenters,
  datacenter_name_empty, group_name_empty, group_count_negative, group_without_tasks,
  duplicate_task_name, task_name_empty, task_driver_empty, cpu_negative, memory_negative,
  network_negative,
}

abbrev pub job_default_priority : ℤ
job_default_priority = pos 50

abbrev pub job_min_priority : ℤ
job_min_priority = pos 1

abbrev pub job_max_priority : ℤ
job_max_priority = pos 100

pub record Resources : Type 0 where
  pub cpu_mhz : ℤ
  pub memory_mb : ℤ
  pub network_mbps : ℤ

pub record Task : Type 0 where
  pub name : String
  pub driver : String
  pub config : HashMap String
  pub resources : Resources

pub record TaskGroup : Type 0 where
  pub name : String
  pub count : ℤ
  pub tasks : List Task
  pub constraints : List Constraint
  pub affinities : List Affinity
  pub spreads : List Spread

pub record Job : Type 0 where
  pub name : String
  pub meta : HashMap String
  pub datacenters : List String
  pub task_groups : List TaskGroup
  pub priority : ℤ

-- `Job::default`, `Resources::default`.
abbrev pub default_job : Job
default_job = record {
  name = "";
  meta = [];
  datacenters = "dc1" ∷ [];
  task_groups = [];
  priority = job_default_priority;
}

abbrev pub default_resources : Resources
default_resources = record { cpu_mhz = pos 100; memory_mb = pos 256; network_mbps = pos 0 }

-- Membership in a set of texts: `HashSet::contains`, `Vec::contains`.
unfoldable pub contains : String → List String → Bool
contains s [] = false
contains s (t ∷ ts) = str_eq t s || contains s ts

-- `iter().any(String::is_empty)`.
unfoldable pub any_empty : List String → Bool
any_empty [] = false
any_empty (s ∷ ss) = is_empty s || any_empty ss

abbrev pub no_entries {ℓ} : {A : Type ℓ} → List A → Bool
no_entries [] = true
no_entries (x ∷ xs) = false

abbrev pub in_priority_range : ℤ → Bool
in_priority_range p = if leb_ℤ job_min_priority p then leb_ℤ p job_max_priority else false

abbrev negative : ℤ → Bool
negative z = ltb_ℤ z (pos 0)

-- `Resources::validate`, `Task::validate`, `TaskGroup::validate` with its loop, `Job::validate`.
unfoldable pub validate_resources : Resources → Result (Unit {0})
validate_resources r = do
  refuse (negative r.cpu_mhz) (validation (cpu_negative r.cpu_mhz))
  refuse (negative r.memory_mb) (validation (memory_negative r.memory_mb))
  refuse (negative r.network_mbps) (validation (network_negative r.network_mbps))

unfoldable pub validate_task : Task → Result (Unit {0})
validate_task t = do
  refuse (is_empty t.name) (validation task_name_empty)
  refuse (is_empty t.driver) (validation (task_driver_empty t.name))
  validate_resources t.resources

unfoldable pub validate_tasks : String → List String → List Task → Result (Unit {0})
validate_tasks group seen [] = ok tt
validate_tasks group seen (t ∷ ts) = do
  refuse (contains t.name seen) (validation (duplicate_task_name t.name group))
  validate_task t
  validate_tasks group (t.name ∷ seen) ts

unfoldable pub validate_group : TaskGroup → Result (Unit {0})
validate_group g = do
  refuse (is_empty g.name) (validation group_name_empty)
  refuse (negative g.count) (validation (group_count_negative g.name g.count))
  refuse (no_entries g.tasks) (validation (group_without_tasks g.name))
  validate_tasks g.name [] g.tasks

unfoldable pub validate_job : Job → Result (Unit {0})
validate_job j = do
  refuse (is_empty j.name) (validation job_name_empty)
  refuse (not (in_priority_range j.priority)) (validation (priority_out_of_range j.priority))
  refuse (no_entries j.datacenters) (validation no_datacenters)
  refuse (any_empty j.datacenters) (validation datacenter_name_empty)
  each validate_group j.task_groups
