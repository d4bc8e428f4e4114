-- ===== src/Network.antt =====
-- network.rs: the ports of a network resource.
pub mod Labels
use nomad_rs.Base.{
  ℕ, Bool, true, false, ◌||◌, ◌==◌, String, Option, none, some, List, [], ◌∷◌, ◌++◌, str_eq,
  is_empty,
}
use nomad_rs.Error.{
  config, Result, ok, ◌>>◌, ◌>>=◌, refuse, each, port_label_empty, duplicate_port_label,
  reserved_port_without_value,
}

pub data NetworkMode : Type 0 where
  host bridge no_network : NetworkMode
  cni : String → NetworkMode

pub record Port : Type 0 where
  pub label : String
  pub static_value : Option ℕ
  pub to : Option ℕ

pub record NetworkResource : Type 0 where
  pub mode : NetworkMode
  pub reserved_ports : List Port
  pub dynamic_ports : List Port

-- Whether the label is in the set.
unfoldable pub seen : List String → String → Bool
seen [] x = false
seen (y ∷ ys) x = str_eq y x || seen ys x

-- The loop over all ports, with the labels so far.
unfoldable pub check_labels : List String → List Port → Result (Unit {0})
check_labels labels [] = ok tt
check_labels labels (p ∷ ps) = do
  refuse (is_empty p.label) (config port_label_empty)
  refuse (seen labels p.label) (config (duplicate_port_label p.label))
  check_labels (p.label ∷ labels) ps

abbrev pub lacks_value : Option ℕ → Bool
lacks_value none = true
lacks_value (some n) = n == 0

unfoldable pub validate_network : NetworkResource → Result (Unit {0})
unfolding check_labels each
validate_network n = do
  check_labels [] (n.reserved_ports ++ n.dynamic_ports)
  each (λ p. refuse (lacks_value p.static_value) (config (reserved_port_without_value p.label)))
      n.reserved_ports
