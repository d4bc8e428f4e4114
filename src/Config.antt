-- ===== src/Config.antt =====
-- config.rs: the configuration and the sources it is merged from. The process's environment, the
-- file system and the TOML parser are arguments; a path is its text.
use nomad_rs.Base.{String, Option, none, some, str_eq, is_empty, if◌then◌else◌}
use nomad_rs.Error.{validation, Result, ok, ◌>>◌, ◌>>=◌, refuse, bind_addr_empty, data_dir_empty}

-- `str::to_lowercase` and `str::trim`.
pub record TextOps : Type 0 where
  pub to_lowercase : String → String
  pub trim : String → String

-- The environment's variables, by name.
abbrev pub Env : Type 0
Env = String → Option String

pub data LogLevel : Type 0 where
  error warn info debug trace : LogLevel

unfoldable pub level_str : LogLevel → String
level_str error = "error"
level_str warn = "warn"
level_str info = "info"
level_str debug = "debug"
level_str trace = "trace"

-- The match of `LogLevel::parse`, on the lowered text.
abbrev pub parse_lowered : String → Option LogLevel
parse_lowered s =
    if str_eq s "error"
    then some error
    else (if str_eq s "warn"
        then some warn
        else (if str_eq s "warning"
            then some warn
            else (if str_eq s "info"
                then some info
                else (if str_eq s "debug"
                    then some debug
                    else (if str_eq s "trace" then some trace else none)))))

unfoldable pub parse : TextOps → String → Option LogLevel
parse ops s = parse_lowered (ops.to_lowercase s)

pub record Config : Type 0 where
  pub data_dir : String
  pub log_dir : String
  pub log_level : LogLevel
  pub bind_addr : String
  pub datacenter : String
  pub node_name : String
  pub region : String
  pub config_file : Option String

-- `unwrap_or`, also for `if let Some(v) = x { field = v; }`.
abbrev pub unwrap_or {ℓ} : {A : Type ℓ} → Option A → A → A
unwrap_or none d = d
unwrap_or (some x) d = x

-- `env::var("HOSTNAME").or_else(.. "HOST")`.
abbrev or_else {ℓ} : {A : Type ℓ} → Option A → Option A → Option A
or_else none y = y
or_else (some x) y = some x

unfoldable pub default_config : Env → Config
default_config env = record {
  data_dir = "/opt/nomad/data";
  log_dir = "/opt/nomad/log";
  log_level = info;
  bind_addr = "0.0.0.0:4646";
  datacenter = "dc1";
  node_name = unwrap_or (or_else (env "HOSTNAME") (env "HOST")) "localhost";
  region = "global";
  config_file = none;
}

-- `read_to_string` and `toml::from_str` are arguments; the parser fills what the file leaves out.
unfoldable pub from_file :
    (String → Result String) → (String → Result Config) → String → Result Config
from_file read from_str path = do
  contents ← read path
  c ← from_str contents
  ok (record c { config_file = some path })

-- The level in a variable, if it is one.
abbrev env_level : TextOps → Option String → Option LogLevel
env_level ops none = none
env_level ops (some v) = parse ops v

unfoldable pub merge_env : TextOps → Env → Config → Config
merge_env ops env c = record c {
  data_dir = unwrap_or (env "NOMAD_DATA_DIR") c.data_dir;
  log_dir = unwrap_or (env "NOMAD_LOG_DIR") c.log_dir;
  log_level = unwrap_or (env_level ops (env "NOMAD_LOG_LEVEL")) c.log_level;
  bind_addr = unwrap_or (env "NOMAD_BIND_ADDR") c.bind_addr;
  datacenter = unwrap_or (env "NOMAD_DATACENTER") c.datacenter;
  node_name = unwrap_or (env "NOMAD_NODE_NAME") c.node_name;
  region = unwrap_or (env "NOMAD_REGION") c.region;
}

unfoldable pub merge_cli :
    Option String
    → Option String
    → Option LogLevel
    → Option String
    → Option String
    → Option String
    → Config
    → Config
merge_cli data_dir log_dir log_level bind_addr node_name region c = record c {
  data_dir = unwrap_or data_dir c.data_dir;
  log_dir = unwrap_or log_dir c.log_dir;
  log_level = unwrap_or log_level c.log_level;
  bind_addr = unwrap_or bind_addr c.bind_addr;
  node_name = unwrap_or node_name c.node_name;
  region = unwrap_or region c.region;
}

unfoldable pub validate_config : TextOps → Config → Result (Unit {0})
validate_config ops c = do
  refuse (is_empty (ops.trim c.bind_addr)) (validation bind_addr_empty)
  refuse (is_empty c.data_dir) (validation data_dir_empty)
