-- ===== src/Server/World.antt =====
-- server.rs and rpc.rs: the accesses of the handlers of requests, the worker's steps and the server's
-- own methods, one at a time.
use nomad_rs.Base.{
  ℕ, zero, suc, Bool, true, false, Option, none, some, List, [], ◌∷◌, if◌then◌else◌,
}
use nomad_rs.Constraint.{Matchers}
use nomad_rs.Scheduler.Float.{F64}
use nomad_rs.Rpc.{RpcEndpoint, Clock, Request}
use nomad_rs.Rpc.Stages.{answered, queueing, arrive, proceed}
use nomad_rs.Server.{Server, Phase, sleeping, worker_step, run, stop}

-- A server, and the handlers of its endpoints that committed their request and did not access the
-- queue yet, the latest first.
pub record World : Type 0 where
  pub server : Server
  pub handlers : List Request

-- What happens next: a request comes in and is handled up to the end of its commit, the handler at
-- an index goes on to the queue, a step of the worker at a time, a step of the aborted task at an
-- index, or a call of `run` or `stop`.
pub data Event : Type 0 where
  requests : Request → Event
  proceeds : Clock → ℕ → Event
  works : ℕ → Event
  winds_down : ℕ → ℕ → Event
  runs stops : Event

-- At its await.
abbrev pub is_sleeping : Phase → Bool
is_sleeping p = elim p [ sleeping ↦ true | _ ↦ false ]

module _ (lib : Matchers) (fl : F64) where
  -- The worker's task, if there is one.
  unfoldable pub step_worker : ℕ → Bool → Option Phase → RpcEndpoint → Option Phase × RpcEndpoint
  step_worker now shutdown none s = (none, s)
  step_worker now shutdown (some p) s =
      let r = worker_step lib fl now shutdown p s in (some r.0, r.1)

  -- The aborted task at the index: at its await it ends.
  unfoldable pub step_aborted : ℕ → Bool → ℕ → List Phase → RpcEndpoint → List Phase × RpcEndpoint
  step_aborted now shutdown i [] s = ([], s)
  step_aborted now shutdown zero (p ∷ ps) s =
      let r = worker_step lib fl now shutdown p s in
      if is_sleeping p then (ps, s) else (r.0 ∷ ps, r.1)
  step_aborted now shutdown (suc i) (p ∷ ps) s =
      let r = step_aborted now shutdown i ps s in (p ∷ r.0, r.1)

  -- The handler at the index accesses the queue and answers.
  unfoldable pub step_handler : Clock → ℕ → List Request → RpcEndpoint → List Request × RpcEndpoint
  step_handler c i [] s = ([], s)
  step_handler c zero (r ∷ rs) s = (rs, (proceed c r s).0)
  step_handler c (suc i) (r ∷ rs) s = let k = step_handler c i rs s in (r ∷ k.0, k.1)

  unfoldable pub step : Event → World → World
  unfolding step_worker step_aborted step_handler
  step (requests r) w =
      let a = arrive r w.server.shared in
      record {
        server = record w.server { shared = a.0 };
        handlers = elim a.1 [ answered _ ↦ w.handlers | queueing ↦ r ∷ w.handlers ];
      }
  step (proceeds c i) w =
      let k = step_handler c i w.handlers w.server.shared in
      record { server = record w.server { shared = k.1 }; handlers = k.0 }
  step (works now) w =
      let r = step_worker now w.server.shutdown w.server.worker w.server.shared in
      record w { server = record w.server { worker = r.0; shared = r.1 } }
  step (winds_down now i) w =
      let r = step_aborted now w.server.shutdown i w.server.aborted w.server.shared in
      record w { server = record w.server { aborted = r.0; shared = r.1 } }
  step runs w = record w { server = run w.server }
  step stops w = record w { server = stop w.server }

  unfoldable pub steps : List Event → World → World
  steps [] s = s
  steps (e ∷ es) s = steps es (step e s)
