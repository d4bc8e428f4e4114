-- ===== src/Server/Interleaved.antt =====
-- server.rs and rpc.rs: the accesses of the handlers of requests, the worker's steps and the server's
-- own methods, in any order.
use nomad_rs.Base.{◌≡◌, Option, none, some, All}
use nomad_rs.Raft.{leader}
use nomad_rs.Fsm
use nomad_rs.EvalQueue.Reached.{Reached}
use nomad_rs.Rpc.Sound.{Sound}
use nomad_rs.Config.{Config}
use nomad_rs.Server.{Server, Phase}
use nomad_rs.Server.World.{World}
use nomad_rs.Server.Worker.{OnCourse}

-- The worker's task, if any, is on course.
abbrev pub WorkerOnCourse : Option Phase → Type 0
WorkerOnCourse none = Unit
WorkerOnCourse (some p) = OnCourse p

-- The node leads, its log replays to its valid store, the queue's counts are in order and it is one
-- that calls on a new queue lead to, and no task holds a plan that its commit would refuse, or was
-- refused one.
pub record Healthy (s : Server) : Type 0 where
  pub leads : s.shared.raft.role ≡ leader
  pub sound : Sound s.shared
  pub reached : Reached s.shared.eval_queue.inner
  pub worker : WorkerOnCourse s.worker
  pub aborted : All OnCourse s.aborted
