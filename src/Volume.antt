-- ===== src/Volume.antt =====
-- volume.rs: requests for volumes, and their mounts.
use nomad_rs.Base.{Bool, not, String, is_empty}
use nomad_rs.Error.{
  config, Result, ◌>>◌, refuse, volume_name_empty, volume_source_empty, mount_volume_empty,
  mount_not_absolute,
}
use nomad_rs.Api.{starts_with}

pub data VolumeType : Type 0 where
  host csi : VolumeType

pub record VolumeRequest : Type 0 where
  pub name : String
  pub volume_type : VolumeType
  pub source : String
  pub read_only : Bool

unfoldable pub validate_request : VolumeRequest → Result (Unit {0})
validate_request v = do
  refuse (is_empty v.name) (config volume_name_empty)
  refuse (is_empty v.source) (config volume_source_empty)

pub record VolumeMount : Type 0 where
  pub volume : String
  pub destination : String
  pub read_only : Bool

unfoldable pub validate_mount : VolumeMount → Result (Unit {0})
validate_mount m = do
  refuse (is_empty m.volume) (config mount_volume_empty)
  refuse (not (starts_with "/" m.destination)) (config (mount_not_absolute m.destination))
