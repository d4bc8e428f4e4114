-- ===== src/Integration/EndToEnd.antt =====
-- integration.rs: from a registration to the worker's evaluation, in a new cluster.
use nomad_rs.Base.{◌≡◌, refl, sym, ap, ◌∙◌, true, false, String, none, some, arith}
use nomad_rs.Base.Int.{ℤ}
use nomad_rs.Error.{Result, ok, err, ◌>>=◌, ◌>>◌}
use nomad_rs.Jobspec.{validate_job}
use nomad_rs.Eval
use nomad_rs.Eval.{Evaluation}
use nomad_rs.EvalQueue
use nomad_rs.EvalQueue.{
  EvalQueue, enqueue, dequeue, enqueue_inner, dequeue_inner, locked, push_pending, pop,
}
use nomad_rs.State.{get_job}
use nomad_rs.Raft.{bootstrap, is_leader}
use nomad_rs.Config.{TextOps, validate_config, unwrap_or}
use nomad_rs.Client
use nomad_rs.Server
use nomad_rs.Rpc
use nomad_rs.Rpc.{
  RpcEndpoint, job_register, Response, job_registered, Clock, handle, eval_for, eval_id_for,
}
use nomad_rs.Rpc.Outcome.{Registers, invalid, forwarded, registered, half_done, register-Registers}
use nomad_rs.Integration.{
  ClusterHandle, ClusterBuilder, named_job, register_job, dequeue_eval, build, eval_id_of,
  ok_or_none,
}

-- The endpoint of a cluster that was built without a queue of the caller's.
built-new :
    (ops : TextOps) (b : ClusterBuilder) (h : ClusterHandle)
    → b.eval_queue ≡ none
    → build ops b ≡ ok h
    → h.rpc_endpoint ≡ Rpc.new EvalQueue.new
unfolding build
built-new ops b h n e = by_server (validate_config ops b.server_config) e
  where
    built : ClusterBuilder → ClusterHandle
    built b = record {
      server = Server.run (Server.new b.server_config);
      client = Client.new b.client_config;
      rpc_endpoint = Rpc.new (unwrap_or b.eval_queue EvalQueue.new);
    }

    by_client :
        (r : Result (Unit {0}))
        → (r >> ok (built b)) ≡ ok h
        → h.rpc_endpoint ≡ Rpc.new EvalQueue.new
    by_client (err x) q = absurd (ground (arith, q))
    by_client (ok u) q =
        let same : built b ≡ h = ground (arith, q) in
        sym (ap (λ x. x.rpc_endpoint) same) ∙ ap (λ o. Rpc.new (unwrap_or o EvalQueue.new)) n

    by_server :
        (r : Result (Unit {0}))
        → (r >> (validate_config ops b.client_config >> ok (built b))) ≡ ok h
        → h.rpc_endpoint ≡ Rpc.new EvalQueue.new
    by_server (err x) q = absurd (ground (arith, q))
    by_server (ok u) q = by_client (validate_config ops b.client_config) q

-- The one evaluation of a queue is the one that is served.
dequeue-enqueue :
    (e : Evaluation) (c : Clock)
    → ok_or_none (dequeue c.instant (enqueue e EvalQueue.new).0).1 ≡ some e
unfolding dequeue enqueue locked enqueue_inner dequeue_inner push_pending pop EvalQueue.new
dequeue-enqueue e c = refl

-- In a cluster that was built with the caller's configurations and a queue of its own, a job of the
-- given name and priority that passes its validation is registered: the call returns the id of an
-- evaluation for it, the next evaluation that is dequeued is that one, with the job's name and
-- priority, and the job is in the store of the cluster's endpoint.
pub register_job-dequeue_eval :
    (ops : TextOps) (b : ClusterBuilder) (h : ClusterHandle) (c later : Clock) (name : String)
    (priority : ℤ)
    → b.eval_queue ≡ none
    → build ops b ≡ ok h
    → validate_job (named_job name priority) ≡ ok tt
    → let e = eval_for c name priority Eval.job_register in
      let r = register_job c name priority h in
      let d = dequeue_eval later r.0 in
      (r.1 ≡ ok e.id)
      × (d.1 ≡ some e)
      × (e.job_id ≡ name)
      × (e.priority ≡ priority)
      × (get_job name d.0.rpc_endpoint.raft.fsm.state ≡ some (named_job name priority))
unfolding register_job dequeue_eval eval_for
register_job-dequeue_eval ops b h c later name priority own built v =
    by_outcome (handle c (job_register (named_job name priority)) h.rpc_endpoint)
      (register-Registers c (named_job name priority) h.rpc_endpoint)
  where
    e : Evaluation
    e = eval_for c name priority Eval.job_register

    new_endpoint : h.rpc_endpoint ≡ Rpc.new EvalQueue.new
    new_endpoint = built-new ops b h own built

    leads : is_leader h.rpc_endpoint.raft ≡ true
    leads =
        ap (λ (s : RpcEndpoint). is_leader s.raft) new_endpoint ∙ unfold Rpc.new bootstrap in refl

    sound : h.rpc_endpoint.eval_queue.poisoned ≡ false
    sound =
        ap (λ (s : RpcEndpoint). s.eval_queue.poisoned) new_endpoint
        ∙ unfold Rpc.new EvalQueue.new in refl

    queue_new : h.rpc_endpoint.eval_queue ≡ EvalQueue.new
    queue_new = ap (λ (s : RpcEndpoint). s.eval_queue) new_endpoint ∙ unfold Rpc.new in refl

    by_outcome :
        (r : RpcEndpoint × Result Response)
        → Registers c (named_job name priority) h.rpc_endpoint r
        → ((r.1 >>= eval_id_of) ≡ ok e.id)
          × (ok_or_none (dequeue later.instant r.0.eval_queue).1 ≡ some e)
          × (e.job_id ≡ name)
          × (e.priority ≡ priority)
          × (get_job name r.0.raft.fsm.state ≡ some (named_job name priority))
    by_outcome _ (invalid x i) = absurd (ground (arith, i, v))
    by_outcome _ (forwarded i l) = absurd (ground (arith, l, leads))
    by_outcome _ (registered t i l p stored log queue) = (
      refl,
      ap (λ q. ok_or_none (dequeue later.instant q).1) (queue ∙ ap (λ q. (enqueue e q).0) queue_new)
          ∙ dequeue-enqueue e later,
      refl,
      refl,
      stored,
    )
    by_outcome _ (half_done t i l p stored queue) = absurd (ground (arith, p, sound))
