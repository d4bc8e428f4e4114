-- ===== src/Agent.antt =====
-- agent.rs: an agent runs a client and a server until a signal arrives. Whether the handlers of
-- the signals are set up is an argument.
pub mod Lifecycle
use nomad_rs.Base.{true, false, Option, none, some}
use nomad_rs.Error.{Result, ok, err}
use nomad_rs.Config.{Config}
use nomad_rs.Client
use nomad_rs.Client.{Client, AgentStatus, initialized, running, stopped, is_running_status}
use nomad_rs.Server
use nomad_rs.Server.{Server}

pub record Agent : Type 0 where
  pub config : Config
  pub client : Option Client
  pub server : Option Server
  pub status : AgentStatus

unfoldable pub new : Config → Agent
new c = record { config = c; client = none; server = none; status = initialized }

-- `if let Some(x) = self.field.as_mut() { x.stop(); }`.
abbrev stop_in {ℓ} : {A : Type ℓ} → (A → A) → Option A → Option A
stop_in f none = none
stop_in f (some x) = some (f x)

unfoldable pub stop : Agent → Agent
unfolding Client.stop Server.stop
stop a = elim (is_running_status a.status) [
  | false ↦ record a { status = stopped }
  | true ↦ record a {
    client = stop_in Client.stop a.client;
    server = stop_in Server.stop a.server;
    status = stopped;
  }
]

-- The agent with its sub-agents, before it waits.
unfoldable pub start : Agent → Agent
unfolding Client.new Client.run Server.new Server.run
start a = record a {
  client = some (Client.run (Client.new a.config));
  server = some (Server.run (Server.new a.config));
  status = running;
}

unfoldable pub run : Result (Unit {0}) → Agent → Agent × Result (Unit {0})
unfolding start stop
run signals a = elim (is_running_status a.status) [
  | true ↦ (a, ok tt)
  | false ↦ elim signals [ err e ↦ (start a, err e) | ok _ ↦ (stop (start a), ok tt) ]
]
