-- ===== src/Options/UserProfiles.antt =====
-- sdk/src/options/AbstractUserProfiles.cpp: the sections of the profiles file, and which value a user
-- gets of them.
pub mod Reading
pub mod Lookup
pub mod Validation
pub mod Groups
use rstudio_launcher_plugin.Base.{
  ℕ, inl, inr, Bool, true, false, ◌&&◌, ◌||◌, not, Option, none, some, List, [], ◌∷◌, String,
  string_key, nat_key, ◌==◌, Map, find, if◌then◌else◌, contains, ltb, concat,
}
use rstudio_launcher_plugin.Api.User.{User}
use rstudio_launcher_plugin.Options.Errors.{
  Error, success, is_error, add_property, conf_parse_error, value_not_found_error,
  invalid_value_error, user_profile_error, Outcome,
}
use rstudio_launcher_plugin.Options.Values.{Parser}

pub data LevelType : Type 0 where
  no_level all_level group_level user_level : LevelType

-- The enumerators, from 0.
unfoldable pub rank : LevelType → ℕ
rank no_level = 0
rank all_level = 1
rank group_level = 2
rank user_level = 3

pub record Level : Type 0 where
  pub type : LevelType
  pub name : String

-- A section and its values.
pub record LevelValue : Type 0 where
  pub level : Level
  pub values : Map String String

-- A group's ID and members, under its name, by which groups are compared.
pub record Group : Type 0 where
  pub id : ℕ
  pub members : List String

-- `AbstractUserProfiles::Impl`.
pub record Profiles : Type 0 where
  pub groups : Map String Group
  pub level_values : List LevelValue
  pub configuration_file : String

-- `isInGroup`, past its assertion.
unfoldable pub is_in_group : Map String Group → User → String → Bool
is_in_group groups u name = elim (find name groups) [
  | none ↦ false
  | some g ↦ contains g.members u.name || g.id == u.group_id
]

-- Whether a section is for a user.
unfoldable pub applies : Map String Group → User → Level → Bool
unfolding is_in_group
applies groups u l = elim l.type [
  | no_level ↦ true
  | all_level ↦ true
  | group_level ↦ is_in_group groups u l.name
  | user_level ↦ l.name == u.name
]

abbrev pub or_else {ℓ} : {A : Type ℓ} → Option A → Option A → Option A
or_else none b = b
or_else (some a) b = some a

-- Whether a section is less specific than one before it, or for another user.
unfoldable pub skips : Map String Group → User → LevelType → Level → Bool
unfolding applies rank
skips groups u specificity l = ltb (rank l.type) (rank specificity) || not (applies groups u l)

-- The loop of `Impl::getValueForUser`, with its two variables.
unfoldable pub search_levels :
    Map String Group → String → User → List LevelValue → LevelType → Option String → Option String
unfolding skips
search_levels groups name u [] specificity value = value
search_levels groups name u (lv ∷ rest) specificity value =
    let skipped = search_levels groups name u rest specificity value in
    let visited =
      search_levels groups name u rest lv.level.type (or_else (find name lv.values) value) in
    if skips groups u specificity lv.level then skipped else visited

unfoldable pub value_for_user : Profiles → String → User → Option String
value_for_user p name u = search_levels p.groups name u p.level_values no_level none

-- The error for a value that no section has for a user.
unfoldable pub value_not_found : String → User → Error
value_not_found name u =
    user_profile_error value_not_found_error
      (concat
        ("The value \"" ∷ name ∷ "\" could not be found for the user \"" ∷ u.name ∷ "\"." ∷ []))
      success

-- `getValueForUser`; the fields are those of `getValidFieldNames`.
unfoldable pub get_value_for_user {ℓ} :
    {A : Type ℓ} → Profiles → List String → Parser A → String → User → Outcome A
get_value_for_user p fields parse name u =
    if not (contains fields name)
    then inl (
        user_profile_error invalid_value_error
          (concat ("The requested value \"" ∷ name ∷ "\" is not supported." ∷ [])) success)
    else elim (value_for_user p name u) [ none ↦ inl (value_not_found name u) | some v ↦ parse v ]

-- `iterateValues`, with what is called for each value.
unfoldable pub iterate_values : String → (String → Error) → List LevelValue → Error
iterate_values name on_value_found [] = success
iterate_values name on_value_found (lv ∷ rest) =
    let others = iterate_values name on_value_found rest in
    elim (find name lv.values) [
      | none ↦ others
      | some v ↦
          if is_error (on_value_found v)
          then add_property "section-name" lv.level.name (on_value_found v)
          else others
    ]

-- The error that a parser returns.
abbrev pub error_of {ℓ} : {A : Type ℓ} → Outcome A → Error
error_of (inl e) = e
error_of (inr a) = success

-- `validateValue`, with a validator and for a type.
unfoldable pub validate_value : Profiles → String → (String → Error) → Error
unfolding iterate_values
validate_value p name validator =
    let e = iterate_values name validator p.level_values in
    if is_error e
    then user_profile_error conf_parse_error
        (concat ("Invalid value(s) in " ∷ p.configuration_file ∷ [])) e
    else success

unfoldable pub validate_value_as {ℓ} : {A : Type ℓ} → Profiles → String → Parser A → Error
unfolding validate_value
validate_value_as p name parse = validate_value p name (λ v. error_of (parse v))
