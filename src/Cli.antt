-- ===== src/Cli.antt =====
-- cli.rs: the command words of an argument list.
use nomad_rs.Base.{String, List, [], ◌∷◌, str_eq, if◌then◌else◌}
use nomad_rs.Error.{config, Result, ok, err, empty_argv, unknown_command, unknown_subcommand}
use nomad_rs.Jobspec.{contains}

pub record ParsedCommand : Type 0 where
  pub name : String
  pub args : List String

-- The words of the matches.
abbrev commands : List String
commands = "job" ∷ "node" ∷ "server" ∷ "alloc" ∷ "monitor" ∷ "agent" ∷ "status" ∷ []

unfoldable pub parse : List String → Result ParsedCommand
unfolding contains
parse [] = err (config empty_argv)
parse (first ∷ rest) =
    if contains first commands
    then ok (record { name = first; args = rest })
    else err (config (unknown_command first))

-- A match of `sub`.
unfoldable pub one_of : List String → String → String → Result (Unit {0})
unfolding contains
one_of words name sub =
    if contains sub words then ok tt else err (config (unknown_subcommand name sub))

unfoldable pub validate_subcommand : String → String → Result (Unit {0})
unfolding one_of contains
validate_subcommand name sub =
    if str_eq name "job"
    then one_of ("run" ∷ "stop" ∷ "status" ∷ "inspect" ∷ "" ∷ []) name sub
    else (if str_eq name "node"
        then one_of ("status" ∷ "drain" ∷ "eligibility" ∷ "" ∷ []) name sub
        else (if str_eq name "server"
            then one_of ("members" ∷ "force-leave" ∷ "join" ∷ "" ∷ []) name sub
            else (if str_eq name "alloc"
                then one_of ("status" ∷ "logs" ∷ "exec" ∷ "" ∷ []) name sub
                else (if contains name ("monitor" ∷ "agent" ∷ "status" ∷ [])
                    then ok tt
                    else err (config (unknown_command name))))))
