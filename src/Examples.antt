-- ===== src/Examples.antt =====
-- Concrete stores, queues and logs, and runs of the definitions on them.
mod Placement
pub mod Stores
pub mod Queues
pub mod Logs
pub mod Cluster
mod Connections
mod Gossip
mod Tasks
mod Access
mod Clients
mod Startup
use nomad_rs.Base.{Bool, true, false, String, Option, none, some, List, [], ◌∷◌, str_eq, compare}
use nomad_rs.Base.Int.{ℤ, pos, negsuc, ◌+ℤ◌, ◌-ℤ◌, compare_ℤ, ltb_ℤ}
use nomad_rs.Constraint.{Constraint, Affinity, Matchers}
use nomad_rs.Jobspec.{Resources, Task, TaskGroup, Job, default_job}
use nomad_rs.Alloc
use nomad_rs.Alloc.{Allocation}
use nomad_rs.Eval
use nomad_rs.Eval.{Evaluation}
use nomad_rs.Node.{Node, ready, eligible}
use nomad_rs.State.{StateStore}
use nomad_rs.Scheduler.Float.{F64}

-- Texts for patterns and versions, which match when they are the same.
abbrev pub matchers : Matchers
matchers = record {
  Regex = String;
  Version = String;
  VersionReq = String;
  new_regex = λ s. some s;
  is_match = λ r s. str_eq r s;
  parse_version = λ s. some s;
  parse_req = λ cs. none;
  matches_req = λ r v. str_eq r v;
}

-- Integers for `f64`; a quotient is its numerator.
abbrev pub integers : F64
integers = record {
  F = ℤ;
  of_ℕ = λ n. pos n;
  of_int = λ z. z;
  add = λ x y. x +ℤ y;
  sub = λ x y. x -ℤ y;
  mul = λ x y. x;
  div = λ x y. x;
  sum_start = pos 0;
  is_positive = λ x. ltb_ℤ (pos 0) x;
  total_cmp = λ x y. compare_ℤ x y;
}

abbrev pub small : Resources
small = record { cpu_mhz = pos 100; memory_mb = pos 128; network_mbps = pos 0 }

abbrev pub large : Resources
large = record { cpu_mhz = pos 500; memory_mb = pos 512; network_mbps = pos 10 }

abbrev pub server : Task
server = record { name = "server"; driver = "exec"; config = []; resources = small }

abbrev pub web_group : TaskGroup
web_group = record {
  name = "web";
  count = pos 2;
  tasks = server ∷ [];
  constraints = record { left = "os"; right = "linux"; operand = "=" } ∷ [];
  affinities = [];
  spreads = [];
}

abbrev pub db_group : TaskGroup
db_group = record {
  name = "db";
  count = pos 1;
  tasks = server ∷ [];
  constraints = [];
  affinities = record { left = "os"; right = "linux"; operand = "="; weight = pos 50 } ∷ [];
  spreads = [];
}

abbrev pub shop : Job
shop = record default_job { name = "shop"; task_groups = web_group ∷ db_group ∷ [] }

abbrev pub node_1 : Node
node_1 = record {
  id = "n1";
  name = "first";
  datacenter = "dc1";
  node_class = "";
  resources = large;
  status = ready;
  eligibility = eligible;
  draining = false;
  attributes = ("os", "linux") ∷ [];
  drivers = [];
}

abbrev pub node_2 : Node
node_2 = record node_1 { id = "n2"; name = "second"; draining = true }

abbrev pub old_alloc : Allocation
old_alloc = record {
  id = "old-0";
  eval_id = "old";
  node_id = "n1";
  job_id = "shop";
  task_group = "web";
  desired_status = Alloc.run;
  client_status = Alloc.running;
  resources = small;
}

abbrev pub eval_1 : Evaluation
eval_1 = record {
  id = "e1";
  job_id = "shop";
  priority = pos 50;
  trigger = Eval.job_register;
  status = Eval.pending;
}

abbrev pub urgent : Evaluation
urgent = record eval_1 { id = "e2"; priority = pos 80 }

abbrev pub store : StateStore
store = record {
  jobs = ("shop", shop) ∷ [];
  nodes = ("n1", node_1) ∷ ("n2", node_2) ∷ [];
  allocs = ("old-0", old_alloc) ∷ [];
  evals = [];
}
