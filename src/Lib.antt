-- ===== src/Lib.antt =====
-- A model of the core of nomad-rs, a workload orchestrator: jobs are registered in a replicated
-- store, evaluations wait in a queue, the scheduler places the instances of a job's task groups on
-- nodes, members gossip about each other, and runners start the tasks.
--
-- The parts and their files. Base holds what all share: Boolean tests (Base/Tests), lists
-- (Base/Lists), texts (Base/Text), integers and i32 (Base/Int), and HashMap as an association list
-- (Base/HashMap).
--   src/error.rs: Error. A message is a constructor with the values that it prints.
--   src/constraint.rs: Constraint, with `parse`, `split` and `trim` of texts in Constraint/Words.
--   The crates regex and semver are the parameter `Matchers`.
--   src/jobspec.rs, src/alloc.rs, src/eval.rs, src/node.rs: Jobspec, Alloc, Eval, Node, the data
--   and its validation (`Job::validate` is `validate_job`). The ids of src/id.rs are texts.
--   src/state.rs: State, the four tables; a method on `&mut self` returns the store it leaves.
--   `save` and `load` work on a `Disk`, over the parameter `Codec` for serde_json. State/Valid is
--   about the invariant, State/Persist about the saved file.
--   src/fsm.rs: Fsm, `Fsm::apply` as `apply`; Fsm/Keeps, Fsm/Refines, Fsm/Order and Fsm/Machine.
--   src/raft.rs: Raft, `RaftNode::propose` as `propose`; Raft/Replay.
--   src/raft_log.rs: RaftLog, over the two files of a store as the state `Files` and serde_json as
--   the parameter `Json`; RaftLog/Indexes, RaftLog/Mirror and RaftLog/Reopen.
--   src/eval_queue.rs: EvalQueue. A method is `locked` around a body on the inner state, and the
--   mutex is the flag `poisoned`; EvalQueue/Heap has the entries and their order, EvalQueue/Order
--   the delivery order, EvalQueue/Delivery the invariant, EvalQueue/HandedOut how often an id is
--   handed out, EvalQueue/Held, EvalQueue/Returned and EvalQueue/Kept where an evaluation is,
--   EvalQueue/Reaping and EvalQueue/Reaped `reap_expired`, EvalQueue/Methods and EvalQueue/Reached
--   the methods as calls.
--   src/scheduler.rs: Scheduler, the placement, with the demands, capacities and scores in
--   Scheduler/Score, `f64` as the parameter `F64` (Scheduler/Float), and `apply_plan`,
--   `process_and_apply` and `drain_queue` in Scheduler/Drain. The two placement loops are related
--   to runs of single placements in Scheduler/Lowering and Scheduler/Steps; Scheduler/Exact,
--   Scheduler/Capacity and Scheduler/Subscribed are about the books of a node,
--   Scheduler/Placements and Scheduler/Placed about what is placed, Scheduler/Ranking about the
--   node that the scoring loop takes, and Scheduler/Drain/Accepts and Scheduler/Drain/Finishes
--   about the drain.
--   src/rpc.rs: Rpc, `RpcEndpoint::handle` as `handle` on the endpoint's queue and node, with
--   Rpc/Sound, Rpc/Commits and Rpc/Outcome, and in its two accesses of what the endpoints share, the
--   node and then the queue, in Rpc/Stages; Rpc/Wire has the frames, `serve_conn` and
--   `RpcClient::call`, over a TCP stream (`Stream`) and serde_json (`Codec`) as parameters, with
--   Rpc/Wire/Frames, Rpc/Wire/Serves and Rpc/Wire/Calls. A stream without faults is the interface
--   `Pipe`.
--   src/server.rs: Server. `scheduler_worker` is `worker_step`, one step for each access of shared
--   state; Server/Worker is about a step, Server/World has the worker's steps and the accesses of the
--   handlers of requests one at a time, Server/Interleaved is about all their orders, Server/Turn
--   about the worker alone. The status of src/agent.rs is in Client.
--   src/client.rs: Client. src/config.rs: Config. src/agent.rs: Agent, with Agent/Lifecycle.
--   src/membership.rs: Membership, a member's roster; what a call sends is in its result.
--   Membership/Lookup, Membership/Exchange and Membership/Order; a network of members with its
--   datagrams is Membership/Network and Membership/Truth.
--   src/driver.rs, src/taskrunner.rs, src/allocrunner.rs: Driver, TaskRunner, AllocRunner, over the
--   processes of the operating system (`Os`); TaskRunner/Restarts, AllocRunner/Rollback,
--   AllocRunner/Status and AllocRunner/Supervised.
--   src/client_state.rs: ClientState, over SQLite (`Sqlite`), a statement being a constructor with
--   its values; what the statements do to the two tables is the interface ClientState/Tables.
--   ClientState/Known is what a client knows, ClientState/Steps and ClientState/Refines the calls.
--   src/integration.rs: Integration, with Integration/EndToEnd. src/main.rs: Main, with
--   Main/Precedence.
--   src/reschedule.rs: Reschedule. src/acl.rs: Acl, with Acl/Grants. src/dispatch.rs: Dispatch, with
--   Dispatch/Accepted. src/network.rs: Network, with Network/Labels. src/variables.rs: Variables,
--   with Variables/Keyring. src/api.rs: Api, with Api/Jobs.
--   src/scaling.rs, src/update.rs, src/deployment.rs, src/drain.rs, src/service.rs, src/volume.rs,
--   src/template.rs: Scaling, Update, Deployment, Drain, Service, Volume, Template.
--   src/namespace.rs, src/artifact.rs, src/periodic.rs, src/fingerprint.rs, src/metrics.rs,
--   src/cli.rs, src/tls.rs: Namespace, Artifact, Periodic, Fingerprint, Metrics, Cli, Tls, over the
--   crates cron and chrono (`Cron`) and rustls (`Rustls`).
-- Examples holds concrete data and runs on it.
--
-- How they interact. The scheduler reads the store of the state machine, and commits a plan to it
-- as commands; the drain takes evaluations from the queue, and blocks, acknowledges or gives them
-- back. The consensus node appends a command to its log and applies it to the state machine. A
-- server's worker and its endpoints share one node and one queue: the endpoint commits a request
-- through the node and enqueues an evaluation, the worker takes it, plans and commits.
-- A handler gives the node's lock back when its commit is done and locks the queue later: the
-- entries on `handle` and on connections take a request with nothing between the two, the entry on
-- Server/Interleaved lets anything come between them. A connection's loop calls the endpoint; an
-- allocation's runner calls its task runners, and they their drivers.
--
-- Bounds and fuel. An i32 wraps around (`wrap_i32`), as in a release build; u32 and u64 counters
-- wrap at their size, and a usize has 64 bits. Loops are structural, but for those on fuel. A turn
-- of `drain_queue` takes one entry from the heap and adds none, so one more than the heap's length
-- is enough; a turn of `serve_conn` takes one request, so one more than there are requests is
-- enough; the numeral of n (Base/Text) takes at most n + 1 turns, and `trim_start_matches` (Api)
-- shortens the text in each turn. Times are numbers that the caller passes. The iteration order of
-- a HashMap is that of its list.
--
-- Not modelled: the accept loop of the RPC server, which spawns a task for each connection; the
-- set-up of logging and telemetry (src/logging.rs, src/otel.rs), which only calls its libraries; the
-- texts of messages; a file-system call that fails halfway.
mod Base
pub mod Error
pub mod Constraint
pub mod Jobspec
pub mod Alloc
pub mod Eval
pub mod Node
pub mod State
pub mod Fsm
pub mod Raft
pub mod EvalQueue
pub mod RaftLog
pub mod Scheduler
pub mod Config
pub mod Client
pub mod ClientState
pub mod Rpc
pub mod Server
pub mod Membership
pub mod Reschedule
pub mod Driver
pub mod TaskRunner
pub mod AllocRunner
pub mod Acl
pub mod Api
pub mod Dispatch
pub mod Network
pub mod Variables
pub mod Agent
pub mod Scaling
pub mod Update
pub mod Deployment
pub mod Drain
pub mod Service
pub mod Volume
pub mod Template
pub mod Namespace
pub mod Artifact
pub mod Periodic
pub mod Fingerprint
pub mod Metrics
pub mod Cli
pub mod Main
pub mod Tls
pub mod Integration
pub mod Examples
