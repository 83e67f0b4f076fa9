-- ===== src/Api/Parts/FromJson.antt =====
-- sdk/src/api/Job.cpp: the parts of a job, read from JSON.
use rstudio_launcher_plugin.Base.{
  ℤ, inl, inr, false, Option, none, some, List, [], ◌∷◌, String, concat, string_key, ◌==◌,
  if◌then◌else◌,
}
use rstudio_launcher_plugin.Json.{Value, Array, Object, elements, Rapid}
use rstudio_launcher_plugin.Json.Read.{
  read, read_optional, as_string, as_bool, as_int, as_array, as_object,
}
use rstudio_launcher_plugin.Api.Platform.{
  Platform, MountType, azure_file, ceph_fs, gluster_fs, host, nfs, passthrough,
}
use rstudio_launcher_plugin.Api.Parse.{
  Result, ◌>>=◌, lift, get_or, quote_str, job_parse_error, invalid_value, config_type_error,
  schema_error,
}
use rstudio_launcher_plugin.Api.Parts.{
  Container, ExposedPort, ConfigType, enum_type, float_type, int_type, string_type, JobConfig,
  MountSource, Mount, PlacementConstraint, ResourceLimit,
}

-- `Array::toVectorInt`; a value of another type gives `none`.
unfoldable pub to_vector_int : Rapid → List Value → Option (List ℤ)
to_vector_int j [] = some []
to_vector_int j (v ∷ vs) =
    let rest = to_vector_int j vs in
    elim (as_int j v) [ none ↦ none | some i ↦ elim rest [ none ↦ none | some is ↦ some (i ∷ is) ] ]

module _ (p : Platform) where
  -- The group IDs of a container, if it has an array of them.
  unfoldable pub read_group_ids : Option Array → Result (List ℤ)
  read_group_ids none = inr []
  read_group_ids (some a) = elim (to_vector_int p.rapid (elements a)) [
    | none ↦ inl (
        job_parse_error invalid_value (
          concat
            (quote_str "supplementalGroupIds" ∷ " contains a value with an invalid type." ∷ [])))
    | some ids ↦ inr ids
  ]

  unfoldable pub read_supplemental_group_ids : Object → Result (List ℤ)
  read_supplemental_group_ids o =
      lift (read_optional as_array "supplementalGroupIds" o) >>= read_group_ids

  -- `Container::fromJson`.
  unfoldable pub container_from_json : Object → Result Container
  container_from_json o = do
    image ← lift (read as_string "image" o)
    user_id ← lift (read_optional (as_int p.rapid) "runAsUserId" o)
    group_id ← lift (read_optional (as_int p.rapid) "runAsGroupId" o)
    ids ← read_supplemental_group_ids o
    inr (record {
      image = image;
      run_as_user_id = user_id;
      run_as_group_id = group_id;
      supplemental_group_ids = ids;
    })

  -- `ExposedPort::fromJson`.
  unfoldable pub exposed_port_from_json : Object → Result ExposedPort
  exposed_port_from_json o = do
    target ← lift (read (as_int p.rapid) "targetPort" o)
    protocol ← lift (read_optional as_string "protocol" o)
    published ← lift (read_optional (as_int p.rapid) "publishedPort" o)
    inr (record {
      published_port = published;
      protocol = get_or protocol "TCP";
      target_port = target;
    })

  -- The type that a trimmed text names.
  unfoldable pub config_type : String → Result ConfigType
  config_type s =
      if s == "enum"
      then inr enum_type
      else (if s == "float"
          then inr float_type
          else (if s == "int"
              then inr int_type
              else (if s == "string" then inr string_type else inl (config_type_error s))))

  unfoldable pub read_config_type : Option String → Result (Option ConfigType)
  unfolding config_type
  read_config_type none = inr none
  read_config_type (some s) = config_type (p.texts.trim_copy s) >>= λ t. inr (some t)

  -- `JobConfig::fromJson`.
  unfoldable pub job_config_from_json : Object → Result JobConfig
  job_config_from_json o = do
    name ← lift (read as_string "name" o)
    value ← lift (read as_string "value" o)
    type ← lift (read_optional as_string "valueType" o)
    value_type ← read_config_type type
    inr (record { name = name; value_type = value_type; value = value })

  -- `fromJson` of the mount source of one of the five types.
  unfoldable pub known_source : MountType → Object → Result MountSource
  known_source t o =
      if p.is_valid t o
      then inr (record { custom_type = ""; source_object = o; source_type = t })
      else inl (schema_error t)

  -- The source of a mount whose type has this name.
  unfoldable pub source_of_type : String → Object → Result MountSource
  unfolding known_source
  source_of_type type o =
      if type == "azureFile"
      then known_source azure_file o
      else (if type == "cephFs"
          then known_source ceph_fs o
          else (if type == "glusterFs"
              then known_source gluster_fs o
              else (if type == "host"
                  then known_source host o
                  else (if type == "nfs"
                      then known_source nfs o
                      else inr (record {
                        custom_type = if type == "passthrough" then "" else type;
                        source_object = o;
                        source_type = passthrough;
                      })))))

  -- `MountSource::fromJson`, on the object of the mount.
  unfoldable pub mount_source_from_json : Object → Result MountSource
  mount_source_from_json o = do
    type ← lift (read as_string "type" o)
    source ← lift (read as_object "source" o)
    source_of_type type source

  -- `Mount::fromJson`.
  unfoldable pub mount_from_json : Object → Result Mount
  mount_from_json o = do
    destination ← lift (read as_string "mountPath" o)
    read_only ← lift (read_optional as_bool "readOnly" o)
    source ← mount_source_from_json o
    inr (record {
      destination = destination;
      is_read_only = get_or read_only false;
      source = source;
    })

-- `PlacementConstraint::fromJson`.
unfoldable pub placement_constraint_from_json : Object → Result PlacementConstraint
placement_constraint_from_json o = do
  name ← lift (read as_string "name" o)
  value ← lift (read as_string "value" o)
  inr (record { name = name; value = value })

-- `ResourceLimit::fromJson`; the other two texts stay empty.
unfoldable pub resource_limit_from_json : Object → Result ResourceLimit
resource_limit_from_json o = do
  type ← lift (read as_string "type" o)
  value ← lift (read as_string "value" o)
  inr (record { resource_type = type; value = value; max_value = ""; default_value = "" })
