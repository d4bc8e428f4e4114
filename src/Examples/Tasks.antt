-- ===== src/Examples/Tasks.antt =====
-- An operating system that starts every process, and a task on it.
use nomad_rs.Base.{ℕ, ◌+◌, ◌≤◌, ◌≡◌, none, some, [], ◌∷◌, false, arith, refl}
use nomad_rs.Error.{ok}
use nomad_rs.Jobspec.{Task}
use nomad_rs.Driver.{Json, Os, pending}
use nomad_rs.Reschedule.{fail}
use nomad_rs.TaskRunner.{TaskRunner}
use nomad_rs.TaskRunner.Restarts.{starts, polls, exits, steps, restarts-bounded}
use nomad_rs.AllocRunner
use nomad_rs.AllocRunner.{AllocRunner, run, refresh_status, is_final, start_all}
use nomad_rs.Driver.{exec_start, command_line}
use nomad_rs.TaskRunner
use nomad_rs.TaskRunner.{start}
use nomad_rs.Base.HashMap.{get}
use nomad_rs.Base.{String_discrete}
use nomad_rs.AllocRunner.Supervised.{supervised, Refreshes, supervised-Refreshes}
use nomad_rs.AllocRunner.Rollback.{Runs, run-new-Runs}
use nomad_rs.Examples.{server, old_alloc}

abbrev json : Json
json = record { as_str = λ s. some s; as_array = λ s. some (s ∷ []) }

-- The next process id.
abbrev os : Os
os = record {
  W = ℕ;
  spawn = λ c args w. (w + 1, ok w);
  kill_tree = λ pid w. w;
  kill = λ pid w. (w, ok tt);
  wait = λ pid w. w;
  try_wait = λ pid w. (w, ok (some false));
}

abbrev echo : Task
echo = record server { config = ("command", "echo") ∷ [] }

abbrev runner : TaskRunner
runner = record {
  task = echo;
  driver = record { running = [] };
  handle = none;
  state = pending;
  restart_count = 0;
  restart_policy = record { attempts = 1; interval_secs = 60; delay_secs = 1; mode = fail };
}

restarts-bounded_example :
    let r = steps json os (starts ∷ polls ∷ exits false ∷ starts ∷ exits false ∷ []) (runner, 40) in
    (r.0.0.restart_count ≡ 0 + r.1) × (0 + r.1 ≤ 1)
restarts-bounded_example =
    restarts-bounded json os (starts ∷ polls ∷ exits false ∷ starts ∷ exits false ∷ []) runner 40
      (omega arith) (omega arith)

run-new-Runs_example :
    Runs json os old_alloc
      (echo ∷ server ∷ [])
      (run json os (AllocRunner.new old_alloc (echo ∷ server ∷ []), 40))
run-new-Runs_example = run-new-Runs json os old_alloc (echo ∷ server ∷ []) 40

-- A task that is started, and fails between two refreshes.
abbrev launched : AllocRunner × ℕ
launched = (run json os (AllocRunner.new old_alloc (echo ∷ []), 40)).0

launched_open : is_final launched.0.alloc.client_status ≡ false
unfolding AllocRunner.new run start_all TaskRunner.new start exec_start command_line get
    String_discrete
launched_open = refl

supervised-Refreshes_example :
    let s = supervised json os ((λ w. w) ∷ (λ w. w + 1) ∷ []) launched in
    Refreshes json os s.0 (refresh_status json os s)
supervised-Refreshes_example =
    supervised-Refreshes json os ((λ w. w) ∷ (λ w. w + 1) ∷ []) launched.0 launched.1 launched_open
