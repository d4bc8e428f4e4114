-- ===== src/ClientState.antt =====
-- client_state.rs: the client's tables. SQLite is an argument; a statement is a constructor with the
-- values that are bound to it.
pub mod Tables
pub mod Known
pub mod Steps
pub mod Refines
use nomad_rs.Base.{ℕ, ◌≡◌, refl, true, false, String, List, [], ◌∷◌, str_eq, if◌then◌else◌}
use nomad_rs.Base.Int.{ℤ}
use nomad_rs.Error.{Result, ok, err, ◌>>=◌, and_then}
use nomad_rs.Alloc
use nomad_rs.Alloc.{Allocation, DesiredStatus, ClientStatus, desired_str, client_str}
use nomad_rs.Driver.{TaskState, pending, running, exited, failed, unknown}

-- A row of `allocations`, and one of `task_states`.
pub record AllocRow : Type 0 where
  pub id : String
  pub eval_id : String
  pub node_id : String
  pub job_id : String
  pub task_group : String
  pub desired_status : String
  pub client_status : String
  pub cpu_mhz : ℤ
  pub memory_mb : ℤ
  pub network_mbps : ℤ

pub record TaskRow : Type 0 where
  pub alloc_id : String
  pub task_name : String
  pub state : String
  pub restart_count : ℕ

-- The statements that write: the two `INSERT … ON CONFLICT … DO UPDATE`, and the two `DELETE` by
-- an allocation's id.
pub data Statement : Type 0 where
  put_alloc : AllocRow → Statement
  put_task : TaskRow → Statement
  delete_tasks delete_row : String → Statement

-- A connection: `Connection::open`, the batch that creates the tables, `execute` and the `SELECT`,
-- whose rows are read one by one.
pub record Sqlite : Type 1 where
  pub Conn : Type 0
  pub connect : String → Result Conn
  pub create_tables : Conn → Conn × Result (Unit {0})
  pub execute : Statement → Conn → Conn × Result (Unit {0})
  pub select : Conn → Result (List (Result AllocRow))

unfoldable pub parse_desired_status : String → DesiredStatus
parse_desired_status s =
    if str_eq s "stop" then Alloc.stop else (if str_eq s "evict" then Alloc.evict else Alloc.run)

unfoldable pub parse_client_status : String → ClientStatus
parse_client_status s =
    if str_eq s "running"
    then Alloc.running
    else (if str_eq s "complete"
        then Alloc.complete
        else (if str_eq s "failed"
            then Alloc.failed
            else (if str_eq s "lost" then Alloc.lost else Alloc.pending)))

-- The values that `upsert_alloc` binds, and the closure that `list_allocs` maps over the rows.
unfoldable pub row_of : Allocation → AllocRow
row_of a = record {
  id = a.id;
  eval_id = a.eval_id;
  node_id = a.node_id;
  job_id = a.job_id;
  task_group = a.task_group;
  desired_status = desired_str a.desired_status;
  client_status = client_str a.client_status;
  cpu_mhz = a.resources.cpu_mhz;
  memory_mb = a.resources.memory_mb;
  network_mbps = a.resources.network_mbps;
}

unfoldable pub alloc_of : AllocRow → Allocation
alloc_of r = record {
  id = r.id;
  eval_id = r.eval_id;
  node_id = r.node_id;
  job_id = r.job_id;
  task_group = r.task_group;
  desired_status = parse_desired_status r.desired_status;
  client_status = parse_client_status r.client_status;
  resources = record {
    cpu_mhz = r.cpu_mhz;
    memory_mb = r.memory_mb;
    network_mbps = r.network_mbps;
  };
}

-- The text of a task's state in `set_task_state`.
unfoldable pub state_str : TaskState → String
state_str pending = "pending"
state_str running = "running"
state_str exited = "exited"
state_str failed = "failed"
state_str unknown = "unknown"

-- The loop of `list_allocs`.
unfoldable pub collect : List (Result AllocRow) → Result (List Allocation)
collect [] = ok []
collect (row ∷ rows) = do r ← row; rest ← collect rows; ok (alloc_of r ∷ rest)

module _ (db : Sqlite) where
  unfoldable pub open_state : String → Result db.Conn
  open_state path = do
    conn ← db.connect path
    elim (db.create_tables conn).1 [ err x ↦ err x | ok _ ↦ ok (db.create_tables conn).0 ]

  unfoldable pub upsert_alloc : Allocation → db.Conn → db.Conn × Result (Unit {0})
  upsert_alloc a c = db.execute (put_alloc (row_of a)) c

  unfoldable pub list_allocs : db.Conn → Result (List Allocation)
  unfolding collect
  list_allocs c = do rows ← db.select c; collect rows

  unfoldable pub set_task_state :
      String → String → TaskState → ℕ → db.Conn → db.Conn × Result (Unit {0})
  set_task_state alloc_id task_name state restart_count c =
      db.execute
        (put_task (record {
          alloc_id = alloc_id;
          task_name = task_name;
          state = state_str state;
          restart_count = restart_count;
        }))
        c

  unfoldable pub delete_alloc : String → db.Conn → db.Conn × Result (Unit {0})
  delete_alloc alloc_id c =
      and_then (db.execute (delete_tasks alloc_id) c) (λ _ d. db.execute (delete_row alloc_id) d)
