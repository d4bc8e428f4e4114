-- ===== src/Driver.antt =====
-- driver.rs: the execution backends. The operating system and the JSON values are arguments; a
-- child process is its process id.
use nomad_rs.Base.{ℕ, Bool, true, false, String, Option, none, some, List, [], ◌∷◌, decimal}
use nomad_rs.Base.HashMap.{HashMap, get, insert, remove}
use nomad_rs.Error.{
  Error, runtime, Result, ok, err, ◌>>=◌, command_missing, args_not_array, arg_not_string,
}
use nomad_rs.Jobspec.{Task}

pub data TaskState : Type 0 where
  pending running exited failed unknown : TaskState

pub record DriverCapabilities : Type 0 where
  pub image_based : Bool
  pub isolated : Bool

pub record TaskHandle : Type 0 where
  pub id : String
  pub state : TaskState

-- `serde_json::Value`: its text, its elements, or neither.
pub record Json : Type 0 where
  pub as_str : String → Option String
  pub as_array : String → Option (List String)

-- The processes. `try_wait` says whether the child has ended, and with success.
pub record Os : Type 1 where
  pub W : Type 0
  pub spawn : String → List String → W → W × Result ℕ
  pub kill_tree : ℕ → W → W
  pub kill : ℕ → W → W × Result (Unit {0})
  pub wait : ℕ → W → W
  pub try_wait : ℕ → W → W × Result (Option Bool)

-- The live children, by handle id.
pub record ExecDriver : Type 0 where
  pub running : HashMap ℕ

abbrev pub default_driver : ExecDriver
default_driver = record { running = [] }

abbrev pub exec_name : String
exec_name = "exec"

abbrev pub exec_capabilities : DriverCapabilities
exec_capabilities = record { image_based = false; isolated = false }

-- `ok_or_else`.
abbrev pub ok_or {ℓ} : {A : Type ℓ} → Error → Option A → Result A
ok_or e none = err e
ok_or e (some a) = ok a

-- The texts of an array, if all of its elements are texts.
unfoldable pub texts : Json → List String → Result (List String)
texts json [] = ok []
texts json (v ∷ vs) = do
  s ← ok_or (runtime arg_not_string) (json.as_str v)
  rest ← texts json vs
  ok (s ∷ rest)

abbrev args_from : Json → Option String → Result (List String)
args_from json none = ok []
args_from json (some v) = ok_or (runtime args_not_array) (json.as_array v) >>= texts json

abbrev command_from : Json → Option String → Result String
command_from json none = err (runtime command_missing)
command_from json (some v) = ok_or (runtime command_missing) (json.as_str v)

-- The command line of a task.
unfoldable pub command_line : Json → Task → Result (String × List String)
unfolding texts
command_line json task = do
  command ← command_from json (get "command" task.config)
  args ← args_from json (get "args" task.config)
  ok (command, args)

module _ (json : Json) (os : Os) where
  -- The driver and the processes.
  unfoldable pub exec_start : Task → ExecDriver × os.W → (ExecDriver × os.W) × Result TaskHandle
  exec_start task (d, w) = elim (command_line json task) [
    | err e ↦ ((d, w), err e)
    | ok (command, args) ↦
        let r = os.spawn command args w in
        elim r.1 [
          | err e ↦ ((d, r.0), err e)
          | ok pid ↦ (
            (record { running = insert (decimal pid) pid d.running }, r.0),
            ok (record { id = decimal pid; state = running }),
          )
        ]
  ]

  unfoldable pub exec_stop :
      TaskHandle → ExecDriver × os.W → (ExecDriver × os.W) × Result (Unit {0})
  exec_stop h (d, w) = elim (get h.id d.running) [
    | none ↦ ((d, w), ok tt)
    | some pid ↦
        let left : ExecDriver = record { running = remove h.id d.running } in
        let k = os.kill pid (os.kill_tree pid w) in
        elim k.1 [ err e ↦ ((left, k.0), err e) | ok _ ↦ ((left, os.wait pid k.0), ok tt) ]
  ]

  -- What `try_wait` means for the state; a child that ended is dropped.
  abbrev pub inspected :
      TaskHandle → ExecDriver → os.W × Result (Option Bool) → (ExecDriver × os.W) × Result TaskState
  inspected h d (w, err e) = ((d, w), err e)
  inspected h d (w, ok none) = ((d, w), ok running)
  inspected h d (w, ok (some success)) = (
    (record { running = remove h.id d.running }, w),
    ok (elim success [ true ↦ exited | false ↦ failed ]),
  )

  unfoldable pub exec_inspect :
      TaskHandle → ExecDriver × os.W → (ExecDriver × os.W) × Result TaskState
  exec_inspect h (d, w) = elim (get h.id d.running) [
    | none ↦ ((d, w), ok exited)
    | some pid ↦ inspected h d (os.try_wait pid w)
  ]

-- The other backends start nothing yet.
pub raw_exec_start : Task → Result TaskHandle
raw_exec_start task = ok (record { id = "raw-exec-h1"; state = running })

pub raw_exec_inspect : TaskHandle → Result TaskState
raw_exec_inspect h = ok h.state

pub docker_start : Task → Result TaskHandle
docker_start task = ok (record { id = "docker-h1"; state = running })

pub docker_inspect : TaskHandle → Result TaskState
docker_inspect h = ok h.state

abbrev pub docker_capabilities : DriverCapabilities
docker_capabilities = record { image_based = true; isolated = true }
