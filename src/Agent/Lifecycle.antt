-- ===== src/Agent/Lifecycle.antt =====
-- agent.rs: how a run of an agent ends.
use nomad_rs.Base.{true, false, ◌≡◌, ◌≢◌, refl, some, none, Bool-cases, inl, inr, arith}
use nomad_rs.Error.{Error, Result, ok, err}
use nomad_rs.Client
use nomad_rs.Client.{Client, AgentStatus, initialized, running, stopped, is_running_status}
use nomad_rs.Server
use nomad_rs.Server.{Server, polling}
use nomad_rs.Agent.{Agent, start, stop, run}

-- The agent and both of its parts have the status.
pub record Parts (s : AgentStatus) (a : Agent) : Type 0 where
  pub status : a.status ≡ s
  pub client : Client
  pub has_client : a.client ≡ some client
  pub client_status : client.status ≡ s
  pub server : Server
  pub has_server : a.server ≡ some server
  pub server_status : server.status ≡ s

-- How a run ends, by the agent's status before it and by the set-up of the signals.
pub data Ends (signals : Result (Unit {0})) (a : Agent) : Agent × Result (Unit {0}) → Type 0 where
  ran_already : a.status ≡ running → Ends signals a (a, ok tt)
  shut_down :
      (b : Agent) (p : Parts stopped b)
      → a.status ≢ running
      → signals ≡ ok tt
      → p.server.shutdown ≡ true
      → p.server.worker ≡ none
      → Ends signals a (b, ok tt)
  left_running :
      (b : Agent) (x : Error) (p : Parts running b)
      → a.status ≢ running
      → signals ≡ err x
      → p.server.shutdown ≡ false
      → p.server.worker ≡ some polling
      → Ends signals a (b, err x)

running_of_test : (s : AgentStatus) → is_running_status s ≡ true → s ≡ running
running_of_test initialized e = ground (arith, e)
running_of_test running e = refl
running_of_test stopped e = ground (arith, e)

not_running_of_test : (s : AgentStatus) → is_running_status s ≡ false → s ≢ running
not_running_of_test initialized e h = ground (arith, h)
not_running_of_test running e h = ground (arith, e)
not_running_of_test stopped e h = ground (arith, h)

-- A run of any agent ends in one of three ways: an agent that runs already returns Ok and is left as
-- it is; one that does not run and whose signals are set up waits for a signal and returns Ok with
-- the agent, its client and its server stopped, with the shutdown flag raised and no worker; and one
-- that does not run and whose signals cannot be set up returns that error with the agent, its
-- client, its server and the server's worker still running.
pub run-Ends : (signals : Result (Unit {0})) (a : Agent) → Ends signals a (run signals a)
unfolding run start stop
run-Ends signals a = elim (Bool-cases (is_running_status a.status)) [
  | inl e ↦ rw (e, run) (ran_already (running_of_test a.status e))
  | inr e ↦ rw (e, run) (by_signals signals refl (not_running_of_test a.status e))
]
  where
    by_signals :
        (r : Result (Unit {0}))
        → signals ≡ r
        → a.status ≢ running
        → Ends signals a (elim r as (λ _. Agent × Result (Unit {0})) [
          | err x ↦ (start a, err x)
          | ok _ ↦ (stop (start a), ok tt)
        ])
    by_signals (err x) given idle =
        left_running (start a) x
          (record {
            status = refl;
            client = Client.run (Client.new a.config);
            has_client = refl;
            client_status = refl;
            server = Server.run (Server.new a.config);
            has_server = refl;
            server_status = refl;
          })
          idle given refl refl
    by_signals (ok u) given idle =
        shut_down (stop (start a))
          (record {
            status = refl;
            client = Client.stop (Client.run (Client.new a.config));
            has_client = refl;
            client_status = refl;
            server = Server.stop (Server.run (Server.new a.config));
            has_server = refl;
            server_status = refl;
          })
          idle given refl refl
