-- ===== src/Client.antt =====
-- client.rs, with the status that it takes from agent.rs: the life of a client agent.
use nomad_rs.Base.{Bool, true, false}
use nomad_rs.Config.{Config}

pub data AgentStatus : Type 0 where
  initialized running stopped : AgentStatus

-- `status == AgentStatus::Running`.
abbrev pub is_running_status : AgentStatus → Bool
is_running_status s = elim s [ running ↦ true | _ ↦ false ]

pub record Client : Type 0 where
  pub config : Config
  pub status : AgentStatus

unfoldable pub new : Config → Client
new c = record { config = c; status = initialized }

unfoldable pub is_running : Client → Bool
is_running c = is_running_status c.status

unfoldable pub run : Client → Client
run c = elim (is_running_status c.status) [ true ↦ c | false ↦ record c { status = running } ]

unfoldable pub stop : Client → Client
stop c = record c { status = stopped }
