-- ===== src/Api/Parts/ToJson.antt =====
-- sdk/src/api/Job.cpp: the parts of a job, written to JSON, as the assignments of each `toJson`.
use rstudio_launcher_plugin.Base.{
  ℤ, map, Option, none, some, List, [], ◌∷◌, String, string_key, ◌==◌, if◌then◌else◌,
}
use rstudio_launcher_plugin.Json.{
  Value, bool_value, integer_value, string_value, array_value, object_value, empty_array, Object,
  empty_object, push_all,
}
use rstudio_launcher_plugin.Json.Writing.{unless_empty, if_some}
use rstudio_launcher_plugin.Json.Members.{Assignment, assign_all}
use rstudio_launcher_plugin.Api.Platform.{
  MountType, azure_file, ceph_fs, gluster_fs, host, nfs, passthrough,
}
use rstudio_launcher_plugin.Api.Parts.{
  Container, ExposedPort, ConfigType, enum_type, float_type, int_type, string_type, JobConfig,
  Mount, PlacementConstraint, ResourceLimit,
}

abbrev pub int_array : List ℤ → Option Value
int_array [] = none
int_array (i ∷ is) = some (array_value (push_all (map integer_value (i ∷ is)) empty_array))

-- `Container::toJson`.
abbrev pub container_members : Container → List Assignment
container_members c =
    ("image", some (string_value c.image))
    ∷ ("runAsUserId", if_some integer_value c.run_as_user_id)
    ∷ ("runAsGroupId", if_some integer_value c.run_as_group_id)
    ∷ ("supplementalGroupIds", int_array c.supplemental_group_ids)
    ∷ []

unfoldable pub container_to_json : Container → Object
container_to_json c = assign_all (container_members c) empty_object

-- `ExposedPort::toJson`.
abbrev pub exposed_port_members : ExposedPort → List Assignment
exposed_port_members e =
    ("targetPort", some (integer_value e.target_port))
    ∷ ("publishedPort", if_some integer_value e.published_port)
    ∷ ("protocol", some (string_value e.protocol))
    ∷ []

unfoldable pub exposed_port_to_json : ExposedPort → Object
exposed_port_to_json e = assign_all (exposed_port_members e) empty_object

abbrev pub config_type_name : ConfigType → String
config_type_name enum_type = "enum"
config_type_name float_type = "float"
config_type_name int_type = "int"
config_type_name string_type = "string"

abbrev pub type_name : Option ConfigType → Option String
type_name none = none
type_name (some t) = some (config_type_name t)

-- `JobConfig::toJson`.
abbrev pub job_config_members : JobConfig → List Assignment
job_config_members c =
    ("name", some (string_value c.name))
    ∷ ("valueType", if_some string_value (type_name c.value_type))
    ∷ ("value", unless_empty c.value)
    ∷ []

unfoldable pub job_config_to_json : JobConfig → Object
job_config_to_json c = assign_all (job_config_members c) empty_object

-- `mountTypeToString`.
unfoldable pub mount_type_to_string : MountType → String → String
mount_type_to_string azure_file custom = "azureFile"
mount_type_to_string ceph_fs custom = "cephFs"
mount_type_to_string gluster_fs custom = "glusterFs"
mount_type_to_string host custom = "host"
mount_type_to_string nfs custom = "nfs"
mount_type_to_string passthrough custom = if custom == "" then "passthrough" else custom

-- `Mount::toJson`.
abbrev pub mount_members : Mount → List Assignment
mount_members m =
    ("mountPath", some (string_value m.destination))
    ∷ ("readOnly", some (bool_value m.is_read_only))
    ∷ ("type", some (string_value (mount_type_to_string m.source.source_type m.source.custom_type)))
    ∷ ("source", some (object_value m.source.source_object))
    ∷ []

unfoldable pub mount_to_json : Mount → Object
mount_to_json m = assign_all (mount_members m) empty_object

-- `PlacementConstraint::toJson`.
abbrev pub placement_constraint_members : PlacementConstraint → List Assignment
placement_constraint_members c =
    ("name", some (string_value c.name)) ∷ ("value", unless_empty c.value) ∷ []

unfoldable pub placement_constraint_to_json : PlacementConstraint → Object
placement_constraint_to_json c = assign_all (placement_constraint_members c) empty_object

-- `ResourceLimit::toJson`.
abbrev pub resource_limit_members : ResourceLimit → List Assignment
resource_limit_members l =
    ("type", some (string_value l.resource_type))
    ∷ ("value", unless_empty l.value)
    ∷ ("defaultValue", unless_empty l.default_value)
    ∷ ("maxValue", unless_empty l.max_value)
    ∷ []

unfoldable pub resource_limit_to_json : ResourceLimit → Object
resource_limit_to_json l = assign_all (resource_limit_members l) empty_object
