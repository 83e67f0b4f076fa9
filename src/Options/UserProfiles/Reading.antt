-- ===== src/Options/UserProfiles/Reading.antt =====
-- `parseLevels`, `populateGroups` and `initialize` of sdk/src/options/AbstractUserProfiles.cpp.
use Prim.Native.Char.{code}
use rstudio_launcher_plugin.Base.{
  ℕ, zero, suc, ◌*◌, ◌⊎◌, inl, inr, Option, none, some, List, [], ◌∷◌, ◌++◌, String, string_key,
  nat_beq, ◌==◌, Map, find, insert, if◌then◌else◌, contains, concat,
}
use rstudio_launcher_plugin.Json.Read.{insert_element, insert_elements}
use rstudio_launcher_plugin.Options.Errors.{
  Error, success, error, is_error, add_property, conf_parse_error, user_profile_error, Outcome,
  ◌>>=◌,
}
use rstudio_launcher_plugin.Options.UserProfiles.{
  Level, no_level, all_level, group_level, user_level, LevelValue, Group, Profiles,
}

-- A section of an ini file: its name, and its values in their order.
abbrev pub Section : Type 0
Section = String × List (String × String)

pub record IniError : Type 0 where
  pub message : String
  pub line : String

-- What `getgrnam_r` answers: that the buffer is too small, a group's ID and members, or no group and
-- a code.
pub data GroupReply : Type 0 where
  too_small : GroupReply
  found : ℕ → List String → GroupReply
  failed : ℕ → GroupReply

-- The system and Boost's reader of ini files.
pub record System : Type 0 where
  pub read_file : String → Error ⊎ String
  pub read_ini : String → IniError ⊎ List Section
  pub group_buffer_size : Option ℕ
  pub getgrnam_r : String → ℕ → GroupReply
  pub message_of_code : ℕ → String

-- The level that a section's name stands for, unless it is "*".
unfoldable pub named_level : String → Outcome Level
named_level String.[] = inl (user_profile_error conf_parse_error "Empty profile section" success)
named_level (String.◌∷◌ c rest) =
    if nat_beq (code c) 64
    then (if rest == ""
        then inl (
            user_profile_error conf_parse_error
              (concat ("Invalid profile section: " ∷ String.◌∷◌ c rest ∷ [])) success)
        else inr (record { type = group_level; name = rest }))
    else inr (record { type = user_level; name = String.◌∷◌ c rest })

unfoldable pub level_of : String → Outcome Level
unfolding named_level
level_of section =
    if section == "*" then inr (record { type = all_level; name = "*" }) else named_level section

-- The names of the groups, with that of a section for a group.
unfoldable pub note_group : Level → List String → List String
note_group l groups = elim l.type [
  | no_level ↦ groups
  | all_level ↦ groups
  | group_level ↦ insert_element l.name groups
  | user_level ↦ groups
]

-- The values of a section.
unfoldable pub read_values :
    List String → String → List (String × String) → Map String String → Outcome (Map String String)
read_values fields section [] values = inr values
read_values fields section ((name, value) ∷ rest) values =
    let others = read_values fields section rest (insert name value values) in
    if contains fields name
    then others
    else inl (
        user_profile_error conf_parse_error
          (concat ("Unknown value (" ∷ name ∷ ") in section [" ∷ section ∷ "]" ∷ [])) success)

unfoldable pub read_section : List String → Section → Outcome LevelValue
unfolding level_of read_values
read_section fields (section, fs) = level_of section >>= λ l.
    read_values fields section fs [] >>= λ vs. inr (record { level = l; values = vs })

-- The loop over the sections: the levels so far, and the groups that they name or the error.
unfoldable pub read_sections :
    List String
    → List Section
    → List LevelValue
    → List String
    → List LevelValue × Outcome (List String)
unfolding read_section note_group
read_sections fields [] levels groups = (levels, inr groups)
read_sections fields (s ∷ rest) levels groups = elim (read_section fields s) [
  | inl e ↦ (levels, inl e)
  | inr lv ↦ read_sections fields rest (levels ++ lv ∷ []) (note_group lv.level groups)
]

-- `systemError`, with a description.
unfoldable pub system_error : System → ℕ → String → Error
system_error sys n description =
    error "SystemError" n (sys.message_of_code n)
      (("subcategory", "system") ∷ ("description", description) ∷ []) success

-- The loop that asks for a group with larger and larger buffers, and the size that it ends with;
-- `none` is fuel that ran out. `bufferSize` is a `long int`, whose overflow, past 2 ^ 62 bytes, is left
-- out.
unfoldable pub ask_for_group : System → ℕ → String → ℕ → Option (GroupReply × ℕ)
ask_for_group sys zero name size = none
ask_for_group sys (suc fuel) name size = elim (sys.getgrnam_r name size) [
  | too_small ↦ ask_for_group sys fuel name (size * 2)
  | found id members ↦ some (found id members, size)
  | failed n ↦ some (failed n, size)
]

-- `Groups[group] = {}`, and the members that are then inserted: a group that is there under the name
-- stays as the key.
unfoldable pub renewed : Option Group → ℕ → List String → Group
renewed none id members = record { id = id; members = insert_elements members [] }
renewed (some old) id members = record { id = old.id; members = insert_elements members [] }

unfoldable pub store_group : String → ℕ → List String → Map String Group → Map String Group
unfolding renewed
store_group name id members groups = insert name (renewed (find name groups) id members) groups

-- The error for a group that is not found, or that the system has no answer for.
unfoldable pub group_error : System → String → ℕ → Error
unfolding system_error
group_error sys name n =
    add_property "group-value" name
      (system_error sys (if nat_beq n 0 then 13 else n) "Unable to retrieve group information.")

-- `populateGroups`: the groups, the size of the buffer and the error; `none` is fuel that ran out.
unfoldable pub populate_groups :
    System → ℕ → List String → ℕ → Map String Group → Option (Map String Group × ℕ × Error)
unfolding ask_for_group store_group group_error
populate_groups sys fuel [] size groups = some (groups, size, success)
populate_groups sys fuel (name ∷ names) size groups = elim (ask_for_group sys fuel name size) [
  | none ↦ none
  | some (too_small, size') ↦ none
  | some (found id members, size') ↦
      populate_groups sys fuel names size' (store_group name id members groups)
  | some (failed n, size') ↦ some (groups, size', group_error sys name n)
]

abbrev pub buffer_size : System → ℕ
buffer_size sys = elim sys.group_buffer_size [ none ↦ 4096 | some n ↦ n ]

-- The part of `parseLevels` that is behind the reader: the profiles and the error.
unfoldable pub use_sections :
    System → ℕ → List String → List Section → Profiles → Option (Profiles × Error)
unfolding read_sections populate_groups
use_sections sys fuel fields sections p =
    let (levels, outcome) = read_sections fields sections p.level_values [] in
    elim outcome [
      | inl e ↦ some (record p { level_values = levels }, e)
      | inr names ↦ elim (populate_groups sys fuel names (buffer_size sys) p.groups) [
        | none ↦ none
        | some (groups, size, e) ↦ some (record p { level_values = levels; groups = groups }, e)
      ]
    ]

-- `parseLevels`.
unfoldable pub parse_levels :
    System → ℕ → List String → String → Profiles → Option (Profiles × Error)
unfolding use_sections
parse_levels sys fuel fields text p = elim (sys.read_ini text) [
  | inl e ↦ some (
    p,
    add_property "line" e.line (
        add_property "description" e.message (
          user_profile_error conf_parse_error
            "User Profiles configuration file is not in ini format." success)),
  )
  | inr sections ↦ use_sections sys fuel fields sections p
]

-- `initialize`, with the `validateValues` of the plugin.
unfoldable pub initialize_profiles :
    System → ℕ → List String → (Profiles → Error) → Profiles → Option (Profiles × Error)
unfolding parse_levels
initialize_profiles sys fuel fields validate_values p = elim (sys.read_file p.configuration_file) [
  | inl e ↦ some (p, user_profile_error conf_parse_error "Failed to read configuration file." e)
  | inr text ↦ elim (parse_levels sys fuel fields text p) [
    | none ↦ none
    | some (p', e) ↦ if is_error e then some (p', e) else some (p', validate_values p')
  ]
]
