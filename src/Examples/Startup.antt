-- ===== src/Examples/Startup.antt =====
-- A cluster in one process, and a start of the binary.
use nomad_rs.Base.{◌≡◌, refl, none, some, if◌then◌else◌, str_eq, String_discrete}
use nomad_rs.Base.Int.{pos}
use nomad_rs.Error.{ok, err, io, each}
use nomad_rs.Jobspec.{validate_job, any_empty}
use nomad_rs.Eval
use nomad_rs.EvalQueue
use nomad_rs.State.{get_job}
use nomad_rs.Config.{TextOps, Env, default_config, validate_config}
use nomad_rs.Client
use nomad_rs.Server
use nomad_rs.Rpc
use nomad_rs.Rpc.{Clock, eval_for}
use nomad_rs.Integration.{
  ClusterHandle, ClusterBuilder, named_job, register_job, dequeue_eval, build,
}
use nomad_rs.Integration.EndToEnd.{register_job-dequeue_eval}
use nomad_rs.Main.{Cli, main}
use nomad_rs.Main.Precedence.{Ends, main-Ends}

abbrev ops : TextOps
ops = record { to_lowercase = λ s. s; trim = λ s. s }

abbrev env : Env
env v = if str_eq v "NOMAD_REGION" then some "west" else none

abbrev builder : ClusterBuilder
builder = record {
  server_config = default_config env;
  client_config = default_config env;
  eval_queue = none;
}

abbrev cluster : ClusterHandle
cluster = record {
  server = Server.run (Server.new (default_config env));
  client = Client.new (default_config env);
  rpc_endpoint = Rpc.new EvalQueue.new;
}

built : build ops builder ≡ ok cluster
unfolding build default_config validate_config String_discrete
built = refl

valid : validate_job (named_job "shop" (pos 70)) ≡ ok tt
unfolding validate_job any_empty each String_discrete
valid = refl

abbrev clock : Clock
clock = record { system = 900; instant = 7 }

abbrev later : Clock
later = record { system = 990; instant = 8 }

register_job-dequeue_eval_example :
    let e = eval_for clock "shop" (pos 70) Eval.job_register in
    let r = register_job clock "shop" (pos 70) cluster in
    let d = dequeue_eval later r.0 in
    (r.1 ≡ ok e.id)
    × (d.1 ≡ some e)
    × (e.job_id ≡ "shop")
    × (e.priority ≡ pos 70)
    × (get_job "shop" d.0.rpc_endpoint.raft.fsm.state ≡ some (named_job "shop" (pos 70)))
register_job-dequeue_eval_example =
    register_job-dequeue_eval ops builder cluster clock later "shop" (pos 70) refl built valid

-- The flag's region, and the variable's for lack of a flag.
abbrev flags : Cli
flags = record {
  config_file = none;
  data_dir = some "/srv";
  log_dir = none;
  log_level = none;
  bind_addr = none;
  node_name = none;
  region = none;
}

main-Ends_example :
    Ends ops env
      (λ p. err io)
      (λ s. err io)
      (ok tt)
      flags
      (main ops env (λ p. err io) (λ s. err io) (ok tt) flags)
main-Ends_example = main-Ends ops env (λ p. err io) (λ s. err io) (ok tt) flags
