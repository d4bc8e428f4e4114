-- ===== src/AllocRunner/Rollback.antt =====
-- allocrunner.rs: the children that a run of an allocation's tasks leaves.
use nomad_rs.Base.{
  ℕ, Bool, true, false, ◌≡◌, refl, ap, ◌∙◌, String, Option, none, some, List, [], ◌∷◌, All, All-map,
  map, arith, decimal, str_eq, if◌then◌else◌,
}
use nomad_rs.Base.HashMap.{get, insert, remove}
use nomad_rs.Error.{Error, runtime, Result, ok, err, task_already_started, unsupported_driver}
use nomad_rs.Jobspec.{Task}
use nomad_rs.Alloc
use nomad_rs.Alloc.{Allocation}
use nomad_rs.Driver.{
  Json, Os, ExecDriver, TaskHandle, running, exited, command_line, exec_start, exec_stop, exec_name,
}
use nomad_rs.TaskRunner
use nomad_rs.TaskRunner.{TaskRunner, start, stop, started, stopped}
use nomad_rs.AllocRunner.{AllocRunner, new, start_all, run, with_status}

-- Not started, and its driver holds no child.
pub record Fresh (t : TaskRunner) : Type 0 where
  pub idle : t.handle ≡ none
  pub childless : t.driver.running ≡ []

-- Running, and its driver holds its child and no other.
pub record Live (t : TaskRunner) : Type 0 where
  pub live : t.state ≡ running
  pub handle : TaskHandle
  pub handled : t.handle ≡ some handle
  pub pid : ℕ
  pub only : t.driver.running ≡ (handle.id, pid) ∷ []

abbrev pub Childless : TaskRunner → Type 0
Childless t = t.driver.running ≡ []

-- What a start leaves of a fresh runner.
data Starts (W : Type 0) : (TaskRunner × W) × Result (Unit {0}) → Type 0 where
  lives : (t : TaskRunner) (w : W) → Live t → Starts W ((t, w), ok tt)
  fails : (t : TaskRunner) (w : W) (x : Error) → Childless t → Starts W ((t, w), err x)

-- What the loop leaves of fresh runners.
data StartsAll (W : Type 0) : (List TaskRunner × W) × Result (Unit {0}) → Type 0 where
  all_live : (ts : List TaskRunner) (w : W) → All Live ts → StartsAll W ((ts, w), ok tt)
  rolled_back :
      (ts : List TaskRunner) (w : W) (x : Error) → All Childless ts → StartsAll W ((ts, w), err x)

get-sole : (k : String) (v : ℕ) → get k ((k, v) ∷ []) ≡ some v
unfolding get
get-sole k v = ground arith

remove-sole : (k : String) (v : ℕ) → remove k ((k, v) ∷ []) ≡ []
unfolding remove
remove-sole k v = ground arith

-- What the driver leaves of a start, when it held no child.
data Executes (W : Type 0) : (ExecDriver × W) × Result TaskHandle → Type 0 where
  runs :
      (d : ExecDriver) (w : W) (h : TaskHandle) (pid : ℕ)
      → h.state ≡ running
      → d.running ≡ (h.id, pid) ∷ []
      → Executes W ((d, w), ok h)
  refuses : (d : ExecDriver) (w : W) (x : Error) → d.running ≡ [] → Executes W ((d, w), err x)

module _ (json : Json) (os : Os) where
  exec_start-Executes :
      (task : Task) (d : ExecDriver) (w : os.W)
      → d.running ≡ []
      → Executes os.W (exec_start json os task (d, w))
  unfolding exec_start
  exec_start-Executes task d w h = by_line (command_line json task)
    where
      spawned :
          (r : os.W × Result ℕ)
          → Executes os.W (elim r.1 as (λ _. (ExecDriver × os.W) × Result TaskHandle) [
            | err e ↦ ((d, r.0), err e)
            | ok pid ↦ (
              (record { running = insert (decimal pid) pid d.running }, r.0),
              ok (record { id = decimal pid; state = running }),
            )
          ])
      spawned (v, err x) = refuses d v x h
      spawned (v, ok pid) = runs _ v _ pid refl (rw h (unfold insert in refl))

      by_line :
          (r : Result (String × List String))
          → Executes os.W (elim r as (λ _. (ExecDriver × os.W) × Result TaskHandle) [
            | err e ↦ ((d, w), err e)
            | ok (command, args) ↦
                let r = os.spawn command args w in
                elim r.1 as (λ _. (ExecDriver × os.W) × Result TaskHandle) [
                  | err e ↦ ((d, r.0), err e)
                  | ok pid ↦ (
                    (record { running = insert (decimal pid) pid d.running }, r.0),
                    ok (record { id = decimal pid; state = running }),
                  )
                ]
          ])
      by_line (err x) = refuses d w x h
      by_line (ok (command, args)) = spawned (os.spawn command args w)

  started-Starts :
      (t : TaskRunner) (x : (ExecDriver × os.W) × Result TaskHandle)
      → Executes os.W x
      → Starts os.W (started json os t x)
  started-Starts t _ (refuses d w x h) = fails _ w x h
  started-Starts t _ (runs d w h pid is only) =
      lives _ w (record { live = is; handle = h; handled = refl; pid = pid; only = only })

  start-Starts : (t : TaskRunner) (w : os.W) → Fresh t → Starts os.W (start json os (t, w))
  unfolding start
  start-Starts t w f = by_handle t.handle f.idle
    where
      by_name :
          (b : Bool)
          → Starts os.W (
              if b
              then started json os t (exec_start json os t.task (t.driver, w))
              else ((t, w), err (runtime (unsupported_driver t.task.driver))))
      by_name true = started-Starts t _ (exec_start-Executes t.task t.driver w f.childless)
      by_name false = fails t w _ f.childless

      by_handle :
          (o : Option TaskHandle)
          → o ≡ none
          → Starts os.W (elim o as (λ _. (TaskRunner × os.W) × Result (Unit {0})) [
            | some h ↦ ((t, w), err (runtime (task_already_started t.task.name)))
            | none ↦
                if str_eq t.task.driver exec_name
                then started json os t (exec_start json os t.task (t.driver, w))
                else ((t, w), err (runtime (unsupported_driver t.task.driver)))
          ])
      by_handle none e = by_name (str_eq t.task.driver exec_name)
      by_handle (some h) e = absurd (ground (arith, e))

  exec_stop-childless :
      (h : TaskHandle) (pid : ℕ) (d : ExecDriver) (w : os.W)
      → d.running ≡ (h.id, pid) ∷ []
      → (exec_stop json os h (d, w)).0.0.running ≡ []
  unfolding exec_stop
  exec_stop-childless h pid d w e =
      let found = ap (get h.id) e ∙ get-sole h.id pid in
      let removed = ap (remove h.id) e ∙ remove-sole h.id pid in ground (arith, found, removed)

  stop-Childless : (t : TaskRunner) (w : os.W) → Live t → Childless (stop json os (t, w)).0.0
  unfolding stop
  stop-Childless t w l =
      ground (arith, l.handled, exec_stop-childless l.handle l.pid t.driver w l.only)

  start_all-StartsAll :
      (ts : List TaskRunner) (w : os.W) → All Fresh ts → StartsAll os.W (start_all json os (ts, w))
  unfolding start_all
  start_all-StartsAll [] w f = all_live [] w tt
  start_all-StartsAll (t ∷ ts) w f =
      both (start json os (t, w)) (start-Starts t w f.0)
        (start_all json os (ts, (start json os (t, w)).0.1))
        (start_all-StartsAll ts (start json os (t, w)).0.1 f.1)
    where
      both :
          (p : (TaskRunner × os.W) × Result (Unit {0}))
          → Starts os.W p
          → (rest : (List TaskRunner × os.W) × Result (Unit {0})) → StartsAll os.W rest
          → StartsAll os.W (
              let back = stop json os (p.0.0, rest.0.1) in
              elim p.1 as (λ _. (List TaskRunner × os.W) × Result (Unit {0})) [
                | err e ↦ ((p.0.0 ∷ ts, p.0.1), err e)
                | ok _ ↦ elim rest.1 as (λ _. (List TaskRunner × os.W) × Result (Unit {0})) [
                  | ok _ ↦ ((p.0.0 ∷ rest.0.0, rest.0.1), ok tt)
                  | err e ↦ ((back.0.0 ∷ rest.0.0, back.0.1), err e)
                ]
              ])
      both _ (fails u v x c) rest r =
          rolled_back (u ∷ ts) v x (c, All-map _ _ ts (λ u g. g.childless) f.1)
      both _ (lives u v l) _ (all_live us w1 ls) = all_live (u ∷ us) w1 (l, ls)
      both _ (lives u v l) _ (rolled_back us w1 x cs) =
          rolled_back _ _ x (stop-Childless u w1 l, cs)

  new-Fresh : (tasks : List Task) → All Fresh (map (λ t. TaskRunner.new t) tasks)
  unfolding TaskRunner.new
  new-Fresh [] = tt
  new-Fresh (t ∷ ts) = (record { idle = refl; childless = refl }, new-Fresh ts)

  task-started :
      (t : TaskRunner) (x : (ExecDriver × os.W) × Result TaskHandle)
      → (started json os t x).0.0.task ≡ t.task
  task-started t ((d, w), err e) = refl
  task-started t ((d, w), ok h) = refl

  task-start : (t : TaskRunner) (w : os.W) → (start json os (t, w)).0.0.task ≡ t.task
  unfolding start
  task-start t w = ground (arith, task-started t (exec_start json os t.task (t.driver, w)))

  task-stop : (t : TaskRunner) (w : os.W) → (stop json os (t, w)).0.0.task ≡ t.task
  unfolding stop
  task-stop t w = by_handle t.handle
    where
      by_result :
          (x : (ExecDriver × os.W) × Result (Unit {0})) → (stopped json os t x).0.0.task ≡ t.task
      by_result ((d, v), err e) = refl
      by_result ((d, v), ok u) = refl

      by_handle :
          (o : Option TaskHandle)
          → (elim o as (λ _. (TaskRunner × os.W) × Result (Unit {0})) [
            | none ↦ ((record t { state = exited }, w), ok tt)
            | some h ↦ stopped json os t (exec_stop json os h (t.driver, w))
          ]).0.0.task
            ≡ t.task
      by_handle none = refl
      by_handle (some h) = by_result (exec_stop json os h (t.driver, w))

  -- The runners keep their tasks, one by one.
  tasks-start_all :
      (ts : List TaskRunner) (w : os.W)
      → map (λ t. t.task) (start_all json os (ts, w)).0.0 ≡ map (λ t. t.task) ts
  unfolding start_all
  tasks-start_all [] w = refl
  tasks-start_all (t ∷ ts) w = ground (
    arith,
    task-start t w,
    tasks-start_all ts (start json os (t, w)).0.1,
    task-stop (start json os (t, w)).0.0 (start_all json os (ts, (start json os (t, w)).0.1)).0.1,
  )

  tasks-new : (tasks : List Task) → map (λ t. t.task) (map (λ t. TaskRunner.new t) tasks) ≡ tasks
  unfolding TaskRunner.new
  tasks-new [] = refl
  tasks-new (t ∷ ts) = ap (◌∷◌ t) (tasks-new ts)

  -- What `run` leaves of the runners of an allocation's tasks, one for each task.
  pub data Runs (alloc : Allocation) (tasks : List Task)
      : (AllocRunner × os.W) × Result (Unit {0}) → Type 0 where
    all_run :
        (a : AllocRunner) (w : os.W)
        → a.alloc ≡ with_status Alloc.running alloc
        → map (λ t. t.task) a.runners ≡ tasks
        → All Live a.runners
        → Runs alloc tasks ((a, w), ok tt)
    none_runs :
        (a : AllocRunner) (w : os.W) (x : Error)
        → a.alloc ≡ with_status Alloc.failed alloc
        → map (λ t. t.task) a.runners ≡ tasks
        → All Childless a.runners
        → Runs alloc tasks ((a, w), err x)

  -- Running a new allocation's tasks, whatever the operating system does, leaves one runner for each
  -- task, in order, and either returns Ok with the allocation marked as running and every task
  -- running, its driver holding its child and no other, or returns an error with the allocation
  -- marked as failed and no driver holding a child. Nothing else of the allocation is changed.
  pub run-new-Runs :
      (alloc : Allocation) (tasks : List Task) (w : os.W)
      → Runs alloc tasks (run json os (new alloc tasks, w))
  unfolding run new
  run-new-Runs alloc tasks w =
      by_all _ (start_all-StartsAll (map (λ t. TaskRunner.new t) tasks) w (new-Fresh tasks))
        (tasks-start_all (map (λ t. TaskRunner.new t) tasks) w ∙ tasks-new tasks)
    where
      by_all :
          (r : (List TaskRunner × os.W) × Result (Unit {0}))
          → StartsAll os.W r
          → map (λ t. t.task) r.0.0 ≡ tasks
          → Runs alloc tasks (
            (
              record {
                alloc =
                    with_status
                      (elim r.1 as (λ _. Alloc.ClientStatus) [
                        | ok _ ↦ Alloc.running
                        | err e ↦ Alloc.failed
                      ])
                      alloc;
                runners = r.0.0;
              },
              r.0.1,
            ),
            r.1,
          )
      by_all _ (all_live ts v l) same = all_run _ v refl same l
      by_all _ (rolled_back ts v x c) same = none_runs _ v x refl same c
