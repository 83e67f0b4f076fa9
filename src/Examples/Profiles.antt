-- ===== src/Examples/Profiles.antt =====
-- The user profiles of a small file, on a system with one group.
use rstudio_launcher_plugin.Base.{
  ℕ, ◌≡◌, ◌⊎◌, inl, inr, refl, true, none, some, List, [], ◌∷◌, String, string_key, ◌==◌, arith,
  find, insert, if◌then◌else◌, leb, Map, all_of, has_key, place,
}
use rstudio_launcher_plugin.Json.Read.{insert_element, insert_elements}
use rstudio_launcher_plugin.Options.Errors.{Error, success, is_error, is_value_not_found_error}
use rstudio_launcher_plugin.Options.Values.{Splitting, Parser, parse_as, parse_vector, parse_pieces}
use rstudio_launcher_plugin.Options.Values.Reporting.{parse_as-Reports, parse_vector-Reports}
use rstudio_launcher_plugin.Options.UserProfiles.{
  LevelValue, Group, Profiles, all_level, group_level, user_level, applies, value_for_user, or_else,
  get_value_for_user, validate_value_as, validate_value, iterate_values, is_in_group, rank,
}
use rstudio_launcher_plugin.Options.UserProfiles.Reading.{
  System, too_small, found, populate_groups, initialize_profiles, parse_levels, use_sections,
  read_sections, read_section, level_of, named_level, read_values, note_group, ask_for_group,
  store_group, renewed,
}
use rstudio_launcher_plugin.Options.UserProfiles.Lookup.{last_at, value_for_user-most_specific}
use rstudio_launcher_plugin.Options.UserProfiles.Lookup.Sorted.{value_for_user-by_level}
use rstudio_launcher_plugin.Options.UserProfiles.Lookup.Hidden.{value_for_user-hidden}
use rstudio_launcher_plugin.Options.UserProfiles.Validation.{get_value_for_user-validated}
use rstudio_launcher_plugin.Options.UserProfiles.Groups.{Grown, populate_groups-ends}
use rstudio_launcher_plugin.Options.UserProfiles.Groups.Known.{
  group_known, initialize_profiles-group_known,
}
use rstudio_launcher_plugin.Examples.Jobs.{alice}

abbrev everyone : LevelValue
everyone = record {
  level = record { type = all_level; name = "*" };
  values = ("memory", "10") ∷ [];
}

abbrev staff : LevelValue
staff = record {
  level = record { type = group_level; name = "staff" };
  values = ("memory", "20") ∷ [];
}

abbrev of_alice : LevelValue
of_alice = record {
  level = record { type = user_level; name = "alice" };
  values = ("queue", "long") ∷ [];
}

abbrev groups_of_staff : Map String Group
groups_of_staff = ("staff", record { id = 50; members = "alice" ∷ [] }) ∷ []

abbrev profiles : List LevelValue → Profiles
profiles lvs = record {
  groups = groups_of_staff;
  level_values = lvs;
  configuration_file = "/etc/rstudio/launcher.local.profiles.conf";
}

abbrev splitting : Splitting
splitting = record {
  trim_copy = λ s. s;
  split_commas = λ s. s ∷ [];
  split_semicolons = λ s. s ∷ [];
  split_equals = λ s. s ∷ [];
  number_to_string = λ n. "";
}

abbrev numbers : Parser ℕ
numbers =
    parse_as splitting "int"
      (λ s. if s == "10" then some 10 else if s == "20" then some 20 else none)

abbrev system : System
system = record {
  read_file = λ path. inr "";
  read_ini = λ text.
      inr (("*", ("memory", "10") ∷ []) ∷ ("@staff", ("memory", "20") ∷ []) ∷ ("alice", []) ∷ []);
  group_buffer_size = some 2;
  getgrnam_r = λ name size. if leb size 7 then too_small else found 50 ("alice" ∷ []);
  message_of_code = λ n. "";
}

value_for_user-most_specific_example :
    value_for_user (profiles (staff ∷ everyone ∷ [])) "memory" alice ≡ some "20"
unfolding applies is_in_group rank find
value_for_user-most_specific_example =
    value_for_user-most_specific (profiles (staff ∷ everyone ∷ [])) "memory" alice group_level "20"
      refl refl

value_for_user-by_level_example :
    let p = profiles (everyone ∷ staff ∷ of_alice ∷ []) in
    value_for_user p "memory" alice
    ≡ or_else (last_at p.groups "memory" alice user_level p.level_values) (
        or_else
          (last_at p.groups "memory" alice group_level p.level_values)
          (last_at p.groups "memory" alice all_level p.level_values))
unfolding applies is_in_group rank find
value_for_user-by_level_example =
    value_for_user-by_level (profiles (everyone ∷ staff ∷ of_alice ∷ [])) "memory" alice refl

value_for_user-hidden_example :
    value_for_user (profiles (everyone ∷ of_alice ∷ staff ∷ [])) "memory" alice
    ≡ value_for_user (profiles (everyone ∷ [])) "memory" alice
unfolding applies is_in_group rank find
value_for_user-hidden_example =
    value_for_user-hidden (profiles (everyone ∷ of_alice ∷ staff ∷ [])) "memory" alice
      (everyone ∷ []) of_alice (staff ∷ []) refl refl refl refl

get_value_for_user-validated_example :
    let p = profiles (everyone ∷ staff ∷ of_alice ∷ []) in
    ((a : List ℕ) × (get_value_for_user p
          ("memory" ∷ "queue" ∷ [])
          (parse_vector splitting numbers)
          "memory"
          alice
        ≡ inr a))
    ⊎ ((e : Error) × (get_value_for_user p
            ("memory" ∷ "queue" ∷ [])
            (parse_vector splitting numbers)
            "memory"
            alice
          ≡ inl e)
        × (is_value_not_found_error e ≡ true))
unfolding validate_value_as validate_value iterate_values parse_vector parse_pieces parse_as
    is_error find
get_value_for_user-validated_example =
    get_value_for_user-validated (profiles (everyone ∷ staff ∷ of_alice ∷ []))
      ("memory" ∷ "queue" ∷ []) (parse_vector splitting numbers) "memory" alice
      (parse_vector-Reports splitting numbers (
        parse_as-Reports splitting "int"
          (λ s. if s == "10" then some 10 else if s == "20" then some 20 else none)))
      refl refl

populate_groups-ends_example :
    (groups : Map String Group) × (size : ℕ) × (e : Error) × (populate_groups system 9
        ("staff" ∷ [])
        2
        []
      ≡ some (groups, size, e))
    × Grown 8 2 size
populate_groups-ends_example =
    populate_groups-ends system 8 9 ("staff" ∷ []) 2 [] (λ name size h e. ground arith)
      (omega arith) (omega arith)

initialize_profiles-group_known_example :
    all_of
      (group_known groups_of_staff)
      (profiles (
        record everyone { values = ("memory", "10") ∷ [] }
        ∷ staff
        ∷ record of_alice { values = [] }
        ∷ [])).level_values
    ≡ true
unfolding initialize_profiles parse_levels use_sections read_sections read_section level_of
    named_level read_values note_group populate_groups ask_for_group store_group renewed is_error
    insert find insert_element insert_elements has_key place
initialize_profiles-group_known_example =
    initialize_profiles-group_known system 9 ("memory" ∷ []) (λ p. success)
      (record (profiles []) { groups = [] })
      (profiles (everyone ∷ staff ∷ record of_alice { values = [] } ∷ [])) success refl refl refl
