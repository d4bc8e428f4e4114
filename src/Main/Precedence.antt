-- ===== src/Main/Precedence.antt =====
-- main.rs and config.rs: where the values of a run's configuration come from.
use nomad_rs.Base.{◌≡◌, refl, String, Option, none, some, List, [], ◌∷◌, arith}
use nomad_rs.Error.{Error, Result, ok, err, ◌>>=◌, ◌>>◌}
use nomad_rs.Config.{Config, TextOps, Env, merge_env, merge_cli, validate_config}
use nomad_rs.Client.{stopped}
use nomad_rs.Agent
use nomad_rs.Main.{
  Cli, Outcome, exits, returns, level_of, base_config, build_config, checked_config, main,
}

-- The first source that has a value, or else the value given.
abbrev pub first_of {ℓ} : {A : Type ℓ} → List (Option A) → A → A
first_of [] d = d
first_of (none ∷ os) d = first_of os d
first_of (some x ∷ os) d = x

-- The flag before the variable, and that before the file or the default.
pub record Sourced (ops : TextOps) (env : Env) (cli : Cli) (base c : Config) : Type 0 where
  pub data_dir : c.data_dir ≡ first_of (cli.data_dir ∷ env "NOMAD_DATA_DIR" ∷ []) base.data_dir
  pub log_dir : c.log_dir ≡ first_of (cli.log_dir ∷ env "NOMAD_LOG_DIR" ∷ []) base.log_dir
  pub log_level :
      c.log_level
      ≡ first_of
          (level_of ops cli.log_level ∷ level_of ops (env "NOMAD_LOG_LEVEL") ∷ [])
          base.log_level
  pub bind_addr : c.bind_addr ≡ first_of (cli.bind_addr ∷ env "NOMAD_BIND_ADDR" ∷ []) base.bind_addr
  pub datacenter : c.datacenter ≡ first_of (env "NOMAD_DATACENTER" ∷ []) base.datacenter
  pub node_name : c.node_name ≡ first_of (cli.node_name ∷ env "NOMAD_NODE_NAME" ∷ []) base.node_name
  pub region : c.region ≡ first_of (cli.region ∷ env "NOMAD_REGION" ∷ []) base.region
  pub config_file : c.config_file ≡ base.config_file

merged-Sourced :
    (ops : TextOps) (env : Env) (cli : Cli) (base : Config)
    → Sourced ops env cli base (
        merge_cli cli.data_dir cli.log_dir
          (level_of ops cli.log_level)
          cli.bind_addr
          cli.node_name
          cli.region
          (merge_env ops env base))
unfolding merge_cli merge_env
merged-Sourced ops env cli base = record {
  data_dir = ground arith;
  log_dir = ground arith;
  log_level = ground arith;
  bind_addr = ground arith;
  datacenter = ground arith;
  node_name = ground arith;
  region = ground arith;
  config_file = refl;
}

module _ (ops : TextOps) (env : Env) (read : String → Result String)
    (from_str : String → Result Config) (signals : Result (Unit {0})) (cli : Cli) where
  -- The configuration that was built, from the file or the defaults that were read.
  pub record Built (c : Config) : Type 0 where
    pub base : Config
    pub read_base : base_config ops env read from_str cli.config_file ≡ ok base
    pub sourced : Sourced ops env cli base c

  -- How the process ends.
  pub data Ends : Outcome → Type 0 where
    unreadable :
        (x : Error) → base_config ops env read from_str cli.config_file ≡ err x → Ends (exits 1)
    invalid : (c : Config) (x : Error) → Built c → validate_config ops c ≡ err x → Ends (exits 1)
    no_signals :
        (c : Config) (x : Error)
        → Built c
        → validate_config ops c ≡ ok tt
        → signals ≡ err x
        → Ends (exits 1)
    finished :
        (c : Config) (a : Agent.Agent)
        → Built c
        → validate_config ops c ≡ ok tt
        → signals ≡ ok tt
        → a.config ≡ c
        → a.status ≡ stopped
        → Ends (returns a)

  -- The process ends in one of four ways, by the first that applies: status 1 when the named file
  -- cannot be read or parsed, when the configuration is not valid, or when the signals cannot be set
  -- up; else it returns, with the agent stopped. Each field of that configuration has the value of
  -- the flag, if it is given, or else of the environment's variable, or else of the file, or of the
  -- defaults where no file is named; a level that is not one counts as not given, and the datacenter
  -- has no flag.
  pub main-Ends : Ends (main ops env read from_str signals cli)
  unfolding main checked_config build_config
  main-Ends = by_base (base_config ops env read from_str cli.config_file) refl
    where
      merged : Config → Config
      merged base =
          merge_cli cli.data_dir cli.log_dir (level_of ops cli.log_level) cli.bind_addr
            cli.node_name cli.region (merge_env ops env base)

      ran : Result (Unit {0}) → Config → Outcome
      ran s c =
          let r = Agent.run s (Agent.new c) in elim r.1 [ err x ↦ exits 1 | ok _ ↦ returns r.0 ]

      ended : Result Config → Outcome
      ended r = elim r [ err x ↦ exits 1 | ok c ↦ ran signals c ]

      by_signals :
          (c : Config) (r : Result (Unit {0}))
          → signals ≡ r
          → Built c
          → validate_config ops c ≡ ok tt
          → Ends (ran r c)
      by_signals c (err x) s b v = unfold Agent.run Agent.new in no_signals c x b v s
      by_signals c (ok u) s b v =
          unfold Agent.run Agent.new Agent.start Agent.stop in finished c _ b v s refl refl

      by_valid :
          (c : Config) (r : Result (Unit {0}))
          → validate_config ops c ≡ r
          → Built c
          → Ends (ended (r >> ok c))
      by_valid c (err x) v b = invalid c x b v
      by_valid c (ok u) v b = by_signals c signals refl b v

      by_base :
          (r : Result Config)
          → base_config ops env read from_str cli.config_file ≡ r
          → Ends (ended ((r >>= λ base. ok (merged base)) >>= λ c. validate_config ops c >> ok c))
      by_base (err x) e = unreadable x e
      by_base (ok base) e =
          by_valid (merged base) (validate_config ops (merged base)) refl
            (record { base = base; read_base = e; sourced = merged-Sourced ops env cli base })
