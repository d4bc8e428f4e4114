-- ===== src/Template.antt =====
-- template.rs: the templates of a task.
use nomad_rs.Base.{Bool, true, false, not, ◌&&◌, String, Option, none, some, is_empty}
use nomad_rs.Error.{
  config, Result, ◌>>◌, refuse, template_destination_empty, template_without_content,
  template_with_two_contents, template_without_signal,
}

pub data ChangeMode : Type 0 where
  noop restart signal : ChangeMode

pub record Template : Type 0 where
  pub source : Option String
  pub embedded : Option String
  pub destination : String
  pub change_mode : ChangeMode
  pub change_signal : Option String

abbrev is_some : Option String → Bool
is_some none = false
is_some (some s) = true

-- `change_mode == ChangeMode::Signal`.
abbrev is_signal : ChangeMode → Bool
is_signal m = elim m [ signal ↦ true | _ ↦ false ]

unfoldable pub validate_template : Template → Result (Unit {0})
validate_template t = do
  refuse (is_empty t.destination) (config template_destination_empty)
  refuse (not (is_some t.source) && not (is_some t.embedded)) (config template_without_content)
  refuse (is_some t.source && is_some t.embedded) (config template_with_two_contents)
  refuse (is_signal t.change_mode && not (is_some t.change_signal)) (config template_without_signal)
