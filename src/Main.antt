-- ===== src/Main.antt =====
-- main.rs: how the binary builds its configuration and runs the agent. The logging is left out.
pub mod Precedence
use nomad_rs.Base.{ℕ, String, Option, none, some}
use nomad_rs.Error.{Result, ok, err, ◌>>=◌, ◌>>◌}
use nomad_rs.Config.{
  Config, LogLevel, TextOps, Env, parse, default_config, from_file, merge_env, merge_cli,
  validate_config,
}
use nomad_rs.Agent

-- The flags of the command line; a path is its text.
pub record Cli : Type 0 where
  pub config_file : Option String
  pub data_dir : Option String
  pub log_dir : Option String
  pub log_level : Option String
  pub bind_addr : Option String
  pub node_name : Option String
  pub region : Option String

-- How the process ends: `exit(1)`, or by itself with what the agent is then.
pub data Outcome : Type 0 where
  exits : ℕ → Outcome
  returns : Agent.Agent → Outcome

-- `cli.log_level.as_deref().and_then(LogLevel::parse)`.
abbrev pub level_of : TextOps → Option String → Option LogLevel
level_of ops none = none
level_of ops (some v) = parse ops v

module _ (ops : TextOps) (env : Env) (read : String → Result String)
    (from_str : String → Result Config) where
  -- The file, if one is named, or the defaults.
  unfoldable pub base_config : Option String → Result Config
  unfolding from_file default_config
  base_config none = ok (default_config env)
  base_config (some path) = from_file read from_str path

  unfoldable pub build_config : Cli → Result Config
  unfolding base_config merge_env merge_cli parse
  build_config cli = do
    base ← base_config cli.config_file
    ok (
        merge_cli cli.data_dir cli.log_dir (level_of ops cli.log_level) cli.bind_addr cli.node_name
          cli.region (merge_env ops env base))

  -- The configuration that the agent is run with.
  unfoldable pub checked_config : Cli → Result Config
  unfolding build_config validate_config
  checked_config cli = do c ← build_config cli; validate_config ops c; ok c

  unfoldable pub main : Result (Unit {0}) → Cli → Outcome
  unfolding checked_config Agent.new Agent.run
  main signals cli = elim (checked_config cli) [
    | err x ↦ exits 1
    | ok c ↦
        let r = Agent.run signals (Agent.new c) in elim r.1 [ err x ↦ exits 1 | ok _ ↦ returns r.0 ]
  ]
