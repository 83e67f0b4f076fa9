-- ===== src/Api/Parts/RoundTrip.antt =====
-- The parts of a job are read as they were written.
use rstudio_launcher_plugin.Base.{
  ℤ, ◌≡◌, refl, subst, sym, inl, inr, Bool, Bool-cases, true, Option, none, some, List, [], ◌∷◌,
  String, string_key, ◌==◌, arith, map, all_of, ◌&&◌, not,
}
use rstudio_launcher_plugin.Json.{
  object_value, Object, integer_value, array_value, empty_array, elements-push_all, empty_object,
  elements, push_all,
}
use rstudio_launcher_plugin.Json.Members.{assign_all, Assignment, last_of, or_else}
use rstudio_launcher_plugin.Json.Writing.{
  read-text, read-int, read-assign_all, read_optional-bool, read_optional-int, read_optional-text,
  read_optional-assign_all,
}
use rstudio_launcher_plugin.Json.Read.{as_int, as_array, as_object}
use rstudio_launcher_plugin.Api.Platform.{
  Platform, MountType, IsDocumented, in_int, is_plain, azure_file, ceph_fs, gluster_fs, host, nfs,
  passthrough,
}
use rstudio_launcher_plugin.Api.Parts.{
  Container, ExposedPort, JobConfig, Mount, MountSource, PlacementConstraint, ResourceLimit,
  ConfigType, enum_type, float_type, int_type, string_type,
}
use rstudio_launcher_plugin.Api.Parts.FromJson.{
  mount_from_json, mount_source_from_json, placement_constraint_from_json, resource_limit_from_json,
  job_config_from_json, container_from_json, to_vector_int, read_group_ids,
  read_supplemental_group_ids, read_config_type, config_type, source_of_type, known_source,
  exposed_port_from_json,
}
use rstudio_launcher_plugin.Api.Parts.ToJson.{
  mount_members, mount_to_json, placement_constraint_members, placement_constraint_to_json,
  resource_limit_members, resource_limit_to_json, job_config_members, job_config_to_json,
  container_to_json, container_members, int_array, type_name, mount_type_to_string,
  exposed_port_to_json, exposed_port_members,
}

-- An optional number is an `int`.
abbrev pub opt_in_int : Option ℤ → Bool
opt_in_int none = true
opt_in_int (some i) = in_int i

-- Every number of a container is an `int`.
unfoldable pub container_fits : Container → Bool
container_fits c =
    opt_in_int c.run_as_user_id
    && opt_in_int c.run_as_group_id
    && all_of in_int c.supplemental_group_ids

unfoldable pub exposed_port_fits : ExposedPort → Bool
exposed_port_fits e = in_int e.target_port && opt_in_int e.published_port

-- The value is not empty, so that it is written.
unfoldable pub job_config_fits : JobConfig → Bool
job_config_fits c = not (c.value == "")

unfoldable pub placement_constraint_fits : PlacementConstraint → Bool
placement_constraint_fits c = not (c.value == "")

-- The value is written, and the two texts that are not read are empty.
unfoldable pub resource_limit_fits : ResourceLimit → Bool
resource_limit_fits l = not (l.value == "") && l.max_value == "" && l.default_value == ""

-- The type is one of the five, without a name of its own and with a source that its schema allows, or
-- the name is not that of another type.
unfoldable pub source_fits : Platform → MountSource → Bool
source_fits p m = elim m.source_type [
  | passthrough ↦
      all_of (λ name. not (m.custom_type == name))
        ("azureFile" ∷ "cephFs" ∷ "glusterFs" ∷ "host" ∷ "nfs" ∷ "passthrough" ∷ [])
  | t ↦ p.is_valid t m.source_object && m.custom_type == ""
]

module _ (p : Platform) (documented : IsDocumented p) where
  pub opt_get_int :
      (o : Option ℤ) → opt_in_int o ≡ true → (i : ℤ) → o ≡ some i → p.rapid.get_int i ≡ i
  opt_get_int o h i e = documented.get_int_in_range i (subst (λ x. opt_in_int x ≡ true) e h)

  pub exposed_port_round_trip :
      (e : ExposedPort)
      → exposed_port_fits e ≡ true
      → exposed_port_from_json p (exposed_port_to_json e) ≡ inr e
  unfolding exposed_port_from_json exposed_port_to_json exposed_port_fits
  exposed_port_round_trip e h =
      let m = exposed_port_members e in
      rw
        (
          read-int m "targetPort" p.rapid e.target_port
              (documented.get_int_in_range e.target_port (ground arith)) refl,
          read_optional-text m "protocol" (some e.protocol) refl,
          read_optional-int m "publishedPort" p.rapid e.published_port
              (opt_get_int e.published_port (ground arith)) refl,
        )
        refl

  to_vector_int-map :
      (is : List ℤ)
      → all_of in_int is ≡ true
      → to_vector_int p.rapid (map integer_value is) ≡ some is
  unfolding to_vector_int as_int
  to_vector_int-map [] h = refl
  to_vector_int-map (i ∷ is) h = ground (arith, documented.get_int_in_range i, to_vector_int-map is)

  read_group_ids-push_all :
      (is : List ℤ)
      → all_of in_int is ≡ true
      → read_group_ids p (some (push_all (map integer_value is) empty_array)) ≡ inr is
  unfolding read_group_ids elements
  read_group_ids-push_all is h =
      rw
        (
          read_group_ids,
          elements-push_all (map integer_value is) empty_array,
          to_vector_int-map is h,
        )
        refl

  read_supplemental_group_ids-int_array :
      (is : List ℤ) (m : List Assignment)
      → all_of in_int is ≡ true
      → last_of "supplementalGroupIds" m none ≡ or_else (int_array is) none
      → read_supplemental_group_ids p (assign_all m empty_object) ≡ inr is
  unfolding as_array read_supplemental_group_ids read_group_ids
  read_supplemental_group_ids-int_array [] m h l =
      rw
        (read_optional-assign_all as_array refl "supplementalGroupIds" m array_value none l
          (λ a e. absurd (ground arith)))
        refl
  read_supplemental_group_ids-int_array (i ∷ is) m h l =
      rw
        (read_optional-assign_all as_array refl "supplementalGroupIds" m array_value
          (some (push_all (map integer_value (i ∷ is)) empty_array)) l (λ a e. refl))
        (read_group_ids-push_all (i ∷ is) h)

  pub container_round_trip :
      (c : Container)
      → container_fits c ≡ true
      → container_from_json p (container_to_json c) ≡ inr c
  unfolding container_from_json container_to_json container_fits
  container_round_trip c h =
      let m = container_members c in
      rw
        (
          read-text m "image" c.image refl,
          read_optional-int m "runAsUserId" p.rapid c.run_as_user_id
              (opt_get_int c.run_as_user_id (ground arith)) refl,
          read_optional-int m "runAsGroupId" p.rapid c.run_as_group_id
              (opt_get_int c.run_as_group_id (ground arith)) refl,
          read_supplemental_group_ids-int_array c.supplemental_group_ids m (ground arith) refl,
        )
        refl

  read_config_type-name : (o : Option ConfigType) → read_config_type p (type_name o) ≡ inr o
  unfolding read_config_type config_type is_plain
  read_config_type-name none = refl
  read_config_type-name (some enum_type) = rw (documented.trim_plain "enum" refl) refl
  read_config_type-name (some float_type) = rw (documented.trim_plain "float" refl) refl
  read_config_type-name (some int_type) = rw (documented.trim_plain "int" refl) refl
  read_config_type-name (some string_type) = rw (documented.trim_plain "string" refl) refl

  pub job_config_round_trip :
      (c : JobConfig)
      → job_config_fits c ≡ true
      → job_config_from_json p (job_config_to_json c) ≡ inr c
  unfolding job_config_from_json job_config_to_json job_config_fits
  job_config_round_trip c h =
      let m = job_config_members c in
      rw
        (
          read-text m "name" c.name refl,
          read-text m "value" c.value (ground arith),
          read_optional-text m "valueType" (type_name c.value_type) refl,
          read_config_type-name c.value_type,
        )
        refl

  source_of_type_lem :
      (t : MountType) (c : String) (o : Object)
      → source_fits p (record { custom_type = c; source_object = o; source_type = t }) ≡ true
      → source_of_type p (mount_type_to_string t c) o
        ≡ inr (record { custom_type = c; source_object = o; source_type = t })
  unfolding source_fits source_of_type known_source mount_type_to_string
  source_of_type_lem azure_file c o h = ground (arith, string_key.beq_iff c "")
  source_of_type_lem ceph_fs c o h = ground (arith, string_key.beq_iff c "")
  source_of_type_lem gluster_fs c o h = ground (arith, string_key.beq_iff c "")
  source_of_type_lem host c o h = ground (arith, string_key.beq_iff c "")
  source_of_type_lem nfs c o h = ground (arith, string_key.beq_iff c "")
  source_of_type_lem passthrough c o h = elim (Bool-cases (c == "")) [
    | inl e ↦
        subst
          (λ x.
            source_of_type p (mount_type_to_string passthrough x) o
            ≡ inr (record { custom_type = x; source_object = o; source_type = passthrough }))
          (sym ((string_key.beq_iff c "").0 e)) refl
    | inr e ↦ rw e (ground (arith, h))
  ]

  pub mount_round_trip :
      (m : Mount) → source_fits p m.source ≡ true → mount_from_json p (mount_to_json m) ≡ inr m
  unfolding mount_from_json mount_to_json mount_source_from_json as_object
  mount_round_trip m h =
      let ms = mount_members m in
      rw
        (
          read-text ms "mountPath" m.destination refl,
          read_optional-bool ms "readOnly" (some m.is_read_only) refl,
          read-text ms "type" (mount_type_to_string m.source.source_type m.source.custom_type) refl,
          read-assign_all as_object refl "source" ms {v = object_value m.source.source_object} refl
              refl,
          source_of_type_lem m.source.source_type m.source.custom_type m.source.source_object h,
        )
        refl

pub placement_constraint_round_trip :
    (c : PlacementConstraint)
    → placement_constraint_fits c ≡ true
    → placement_constraint_from_json (placement_constraint_to_json c) ≡ inr c
unfolding placement_constraint_from_json placement_constraint_to_json placement_constraint_fits
placement_constraint_round_trip c h =
    let m = placement_constraint_members c in
    rw (read-text m "name" c.name refl, read-text m "value" c.value (ground arith)) refl

pub resource_limit_round_trip :
    (l : ResourceLimit)
    → resource_limit_fits l ≡ true
    → resource_limit_from_json (resource_limit_to_json l) ≡ inr l
unfolding resource_limit_from_json resource_limit_to_json resource_limit_fits
resource_limit_round_trip l h =
    let m = resource_limit_members l in
    rw (read-text m "type" l.resource_type refl, read-text m "value" l.value (ground arith))
      (ground (arith, string_key.beq_iff l.max_value "", string_key.beq_iff l.default_value ""))
