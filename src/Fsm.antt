-- ===== src/Fsm.antt =====
-- fsm.rs: the commands, and the state machine that applies them.
pub mod Keeps
pub mod Refines
pub mod Order
pub mod Machine
use nomad_rs.Base.{String}
use nomad_rs.Error.{Result, ok, err}
use nomad_rs.Jobspec.{Job}
use nomad_rs.Alloc.{Allocation}
use nomad_rs.Eval.{Evaluation}
use nomad_rs.Node.{Node}
use nomad_rs.State
use nomad_rs.State.{StateStore}

pub data Command : Type 0 where
  upsert_job : Job → Command
  deregister_job : String → Command
  upsert_node : Node → Command
  upsert_alloc : Allocation → Command
  upsert_eval : Evaluation → Command

pub record Fsm : Type 0 where
  pub state : StateStore

unfoldable pub new : Fsm
unfolding State.new
new = record { state = State.new }

-- The state machine around the store that an operation leaves.
abbrev around : StateStore × Result (Unit {0}) → Fsm × Result (Unit {0})
around r = (record { state = r.0 }, r.1)

unfoldable pub apply : Command → Fsm → Fsm × Result (Unit {0})
apply (upsert_job j) f = around (State.upsert_job j f.state)
apply (deregister_job name) f = around (State.delete_job name f.state)
apply (upsert_node n) f = around (State.upsert_node n f.state)
apply (upsert_alloc a) f = around (State.upsert_alloc a f.state)
apply (upsert_eval e) f = around (State.upsert_eval e f.state)
