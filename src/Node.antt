-- ===== src/Node.antt =====
-- node.rs: the client nodes and their eligibility.
use nomad_rs.Base.{Bool, true, false, not, ◌&&◌, String, none, some, is_empty}
use nomad_rs.Base.HashMap.{HashMap, get}
use nomad_rs.Error.{
  validation, Result, ◌>>◌, refuse, node_id_empty, node_name_empty, node_datacenter_empty,
}
use nomad_rs.Jobspec.{Resources}
use nomad_rs.Alloc.{NodeId}

pub data NodeStatus : Type 0 where
  init ready down disconnected : NodeStatus

-- `NodeStatus::as_str`.
pub status_str : NodeStatus → String
status_str init = "initializing"
status_str ready = "ready"
status_str down = "down"
status_str disconnected = "disconnected"

pub data SchedulingEligibility : Type 0 where
  eligible ineligible : SchedulingEligibility

pub record Node : Type 0 where
  pub id : NodeId
  pub name : String
  pub datacenter : String
  pub node_class : String
  pub resources : Resources
  pub status : NodeStatus
  pub eligibility : SchedulingEligibility
  pub draining : Bool
  pub attributes : HashMap String
  pub drivers : HashMap Bool

-- `Node::validate`.
unfoldable pub validate_node : Node → Result (Unit {0})
validate_node n = do
  refuse (is_empty n.id) (validation node_id_empty)
  refuse (is_empty n.name) (validation node_name_empty)
  refuse (is_empty n.datacenter) (validation node_datacenter_empty)

-- `==` of the two enums with one of their constants.
abbrev pub is_ready_status : NodeStatus → Bool
is_ready_status init = false
is_ready_status ready = true
is_ready_status down = false
is_ready_status disconnected = false

abbrev pub is_eligible : SchedulingEligibility → Bool
is_eligible eligible = true
is_eligible ineligible = false

-- `Node::is_ready`.
pub is_ready : Node → Bool
is_ready n = is_ready_status n.status && (is_eligible n.eligibility && not n.draining)

-- `Node::has_healthy_driver`.
pub has_healthy_driver : Node → String → Bool
has_healthy_driver n driver = elim (get driver n.drivers) [ none ↦ false | some healthy ↦ healthy ]
