-- ===== src/Api/Parts.antt =====
-- sdk/include/api/Job.hpp, sdk/src/api/Job.cpp: the parts of a job. The children read them from JSON
-- and write them.
pub mod FromJson
pub mod ToJson
pub mod RoundTrip
use rstudio_launcher_plugin.Base.{
  ℤ, map, ◌⊎◌, inl, inr, Bool, true, false, Option, none, some, List, [], ◌∷◌, String, concat,
  string_key, ◌==◌, if◌then◌else◌,
}
use rstudio_launcher_plugin.Json.{
  Value, bool_value, integer_value, string_value, array_value, object_value, empty_array, Array,
  Object, empty_object, elements, push_all, Rapid,
}
use rstudio_launcher_plugin.Json.Members.{Assignment, assign_all}
use rstudio_launcher_plugin.Json.Read.{
  read, read_optional, as_string, as_bool, as_int, as_array, as_object,
}
use rstudio_launcher_plugin.Api.Platform.{
  Platform, MountType, azure_file, ceph_fs, gluster_fs, host, nfs, passthrough,
}
use rstudio_launcher_plugin.Api.Parse.{
  Result, ◌>>=◌, lift, get_or, quote_str, ParseError, job_parse_error, invalid_value,
  config_type_error, schema_error,
}

pub record Container : Type 0 where
  pub image : String
  pub run_as_user_id : Option ℤ
  pub run_as_group_id : Option ℤ
  pub supplemental_group_ids : List ℤ

pub record ExposedPort : Type 0 where
  pub published_port : Option ℤ
  pub protocol : String
  pub target_port : ℤ

-- `JobConfig::Type`.
pub data ConfigType : Type 0 where
  enum_type float_type int_type string_type : ConfigType

pub record JobConfig : Type 0 where
  pub name : String
  pub value_type : Option ConfigType
  pub value : String

pub record MountSource : Type 0 where
  pub custom_type : String
  pub source_object : Object
  pub source_type : MountType

pub record Mount : Type 0 where
  pub destination : String
  pub is_read_only : Bool
  pub source : MountSource

pub record PlacementConstraint : Type 0 where
  pub name : String
  pub value : String

pub record ResourceLimit : Type 0 where
  pub resource_type : String
  pub value : String
  pub max_value : String
  pub default_value : String
