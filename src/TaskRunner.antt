-- ===== src/TaskRunner.antt =====
-- taskrunner.rs: one task and its restarts. The operating system's state is passed along.
pub mod Restarts
use nomad_rs.Base.{
  ℕ, ◌+◌, ◌%◌, Bool, true, false, not, ◌||◌, String, Option, none, some, str_eq, ltb, if◌then◌else◌,
}
use nomad_rs.Error.{Error, runtime, Result, ok, err, task_already_started, unsupported_driver}
use nomad_rs.Jobspec.{Task}
use nomad_rs.Reschedule.{RestartPolicy, fail}
use nomad_rs.Driver.{
  Json, Os, ExecDriver, TaskHandle, TaskState, pending, running, exited, failed, default_driver,
  exec_name, exec_start, exec_stop, exec_inspect,
}

pub record TaskRunner : Type 0 where
  pub task : Task
  pub driver : ExecDriver
  pub handle : Option TaskHandle
  pub state : TaskState
  pub restart_count : ℕ
  pub restart_policy : RestartPolicy

unfoldable pub new : Task → TaskRunner
new task = record {
  task = task;
  driver = default_driver;
  handle = none;
  state = pending;
  restart_count = 0;
  restart_policy = record { attempts = 2; interval_secs = 1800; delay_secs = 15; mode = fail };
}

unfoldable pub with_restart_policy : RestartPolicy → TaskRunner → TaskRunner
with_restart_policy p t = record t { restart_policy = p }

-- `Exited | Failed`.
abbrev pub is_terminal : TaskState → Bool
is_terminal s = elim s [ exited ↦ true | failed ↦ true | _ ↦ false ]

abbrev pub u32_mod : ℕ
u32_mod = 4294967296

module _ (json : Json) (os : Os) where
  -- The runner after the driver started the task or did not.
  abbrev pub started :
      TaskRunner → (ExecDriver × os.W) × Result TaskHandle → (TaskRunner × os.W) × Result (Unit {0})
  started t ((d, w), err e) = ((record t { driver = d }, w), err e)
  started t ((d, w), ok h) = ((record t { driver = d; state = h.state; handle = some h }, w), ok tt)

  unfoldable pub start : TaskRunner × os.W → (TaskRunner × os.W) × Result (Unit {0})
  start (t, w) = elim t.handle [
    | some h ↦ ((t, w), err (runtime (task_already_started t.task.name)))
    | none ↦
        if str_eq t.task.driver exec_name
        then started t (exec_start json os t.task (t.driver, w))
        else ((t, w), err (runtime (unsupported_driver t.task.driver)))
  ]

  abbrev pub inspected :
      TaskRunner → (ExecDriver × os.W) × Result TaskState → (TaskRunner × os.W) × Result TaskState
  inspected t ((d, w), err e) = ((record t { driver = d }, w), err e)
  inspected t ((d, w), ok s) = ((record t { driver = d; state = s }, w), ok s)

  unfoldable pub poll : TaskRunner × os.W → (TaskRunner × os.W) × Result TaskState
  poll (t, w) = if is_terminal t.state then ((t, w), ok t.state) else elim t.handle [
    | none ↦ ((t, w), ok t.state)
    | some h ↦ inspected t (exec_inspect json os h (t.driver, w))
  ]

  abbrev pub stopped :
      TaskRunner → (ExecDriver × os.W) × Result (Unit {0}) → (TaskRunner × os.W) × Result (Unit {0})
  stopped t ((d, w), err e) = ((record t { driver = d }, w), err e)
  stopped t ((d, w), ok _) = ((record t { driver = d; state = exited }, w), ok tt)

  unfoldable pub stop : TaskRunner × os.W → (TaskRunner × os.W) × Result (Unit {0})
  stop (t, w) = elim t.handle [
    | none ↦ ((record t { state = exited }, w), ok tt)
    | some h ↦ stopped t (exec_stop json os h (t.driver, w))
  ]

-- The runner, and whether it is to be started again.
unfoldable pub handle_exit : Bool → TaskRunner → TaskRunner × Bool
handle_exit true t = (record t { state = exited }, false)
handle_exit false t =
    if ltb t.restart_count t.restart_policy.attempts
    then (
      record t { restart_count = (t.restart_count + 1) % u32_mod; state = pending; handle = none },
      true,
    )
    else (record t { state = failed }, false)
