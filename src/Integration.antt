-- ===== src/Integration.antt =====
-- integration.rs: a cluster in one process. The queue of the handle is the one that its endpoint
-- shares; the endpoint has a node of its own.
pub mod EndToEnd
use nomad_rs.Base.{String, Option, none, some}
use nomad_rs.Base.Int.{ℤ}
use nomad_rs.Error.{Error, runtime, Result, ok, err, ◌>>=◌, ◌>>◌, and_then, unexpected_response}
use nomad_rs.Jobspec.{Job, default_job}
use nomad_rs.Eval.{Evaluation}
use nomad_rs.EvalQueue
use nomad_rs.EvalQueue.{EvalQueue, dequeue}
use nomad_rs.Config.{Config, Env, TextOps, default_config, validate_config, unwrap_or}
use nomad_rs.Client
use nomad_rs.Client.{Client}
use nomad_rs.Server
use nomad_rs.Server.{Server}
use nomad_rs.Rpc
use nomad_rs.Rpc.{RpcEndpoint, Request, job_register, Response, job_registered, Clock, handle}

pub record ClusterHandle : Type 0 where
  pub server : Server
  pub client : Client
  pub rpc_endpoint : RpcEndpoint

pub record ClusterBuilder : Type 0 where
  pub server_config : Config
  pub client_config : Config
  pub eval_queue : Option EvalQueue

-- The match on the response in `register_job`.
abbrev pub eval_id_of : Response → Result String
eval_id_of r = elim r [ job_registered id ↦ ok id | _ ↦ err (runtime unexpected_response) ]

-- The job that `register_job` sends.
abbrev pub named_job : String → ℤ → Job
named_job name priority = record default_job { name = name; priority = priority }

unfoldable pub register_job : Clock → String → ℤ → ClusterHandle → ClusterHandle × Result String
unfolding handle
register_job c name priority h =
    let r = handle c (job_register (named_job name priority)) h.rpc_endpoint in
    (record h { rpc_endpoint = r.0 }, r.1 >>= eval_id_of)

-- `ok()?` makes `None` of an error.
abbrev pub ok_or_none : Result (Option Evaluation) → Option Evaluation
ok_or_none (err x) = none
ok_or_none (ok e) = e

unfoldable pub dequeue_eval : Clock → ClusterHandle → ClusterHandle × Option Evaluation
unfolding dequeue
dequeue_eval c h =
    let r = dequeue c.instant h.rpc_endpoint.eval_queue in
    (record h { rpc_endpoint = record h.rpc_endpoint { eval_queue = r.0 } }, ok_or_none r.1)

unfoldable pub shutdown : ClusterHandle → ClusterHandle
unfolding Server.stop
shutdown h = record h { server = Server.stop h.server }

-- `ClusterBuilder::new`, and the methods that set a part of it.
unfoldable pub new_builder : Env → ClusterBuilder
unfolding default_config
new_builder env = record {
  server_config = default_config env;
  client_config = default_config env;
  eval_queue = none;
}

unfoldable pub with_server_config : Config → ClusterBuilder → ClusterBuilder
with_server_config c b = record b { server_config = c }

unfoldable pub with_client_config : Config → ClusterBuilder → ClusterBuilder
with_client_config c b = record b { client_config = c }

unfoldable pub with_eval_queue : EvalQueue → ClusterBuilder → ClusterBuilder
with_eval_queue q b = record b { eval_queue = some q }

unfoldable pub build : TextOps → ClusterBuilder → Result ClusterHandle
unfolding validate_config EvalQueue.new Rpc.new Client.new Server.new Server.run
build ops b = do
  validate_config ops b.server_config
  validate_config ops b.client_config
  ok (record {
    server = Server.run (Server.new b.server_config);
    client = Client.new b.client_config;
    rpc_endpoint = Rpc.new (unwrap_or b.eval_queue EvalQueue.new);
  })
