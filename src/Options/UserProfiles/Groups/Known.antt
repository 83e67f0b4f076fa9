-- ===== src/Options/UserProfiles/Groups/Known.antt =====
-- The groups that the sections of the profiles file name are known.
use rstudio_launcher_plugin.Base.{
  ℕ, ◌≡◌, inl, inr, refl, arith, Bool, true, false, ◌||◌, none, some, List, [], ◌∷◌, ◌++◌, String,
  string_key, Map, find, insert, find-insert, if◌then◌else◌, contains, all_of, ◌==◌, Option-cases,
  Sum-cases,
}
use rstudio_launcher_plugin.Json.Read.{contains-insert_element}
use rstudio_launcher_plugin.Options.Errors.{Error, is_error, user_profile_error, add_property}
use rstudio_launcher_plugin.Options.UserProfiles.{
  Level, no_level, all_level, group_level, user_level, LevelValue, Group, Profiles,
}
use rstudio_launcher_plugin.Options.UserProfiles.Reading.{
  System, Section, read_section, read_sections, note_group, named_level, level_of, read_values,
  ask_for_group, store_group, renewed, populate_groups, system_error, group_error, use_sections,
  parse_levels, initialize_profiles, buffer_size,
}
use rstudio_launcher_plugin.Options.UserProfiles.Groups.{Reply-cases}

-- A group of a section is noted, or is found.
abbrev pub noted : List String → LevelValue → Bool
noted names lv = elim lv.level.type [
  | no_level ↦ true
  | all_level ↦ true
  | group_level ↦ contains names lv.level.name
  | user_level ↦ true
]

abbrev pub is_known : Map String Group → String → Bool
is_known groups name = elim (find name groups) [ none ↦ false | some g ↦ true ]

abbrev pub group_known : Map String Group → LevelValue → Bool
group_known groups lv = elim lv.level.type [
  | no_level ↦ true
  | all_level ↦ true
  | group_level ↦ is_known groups lv.level.name
  | user_level ↦ true
]

noted-note_group :
    (names : List String) (l : Level) (lv : LevelValue)
    → noted names lv ≡ true
    → noted (note_group l names) lv ≡ true
unfolding note_group
noted-note_group names l lv h = ground (arith, contains-insert_element l.name lv.level.name names)

all_noted :
    (names : List String) (l : Level) (lvs : List LevelValue)
    → all_of (noted names) lvs ≡ true
    → all_of (noted (note_group l names)) lvs ≡ true
all_noted names l [] h = refl
all_noted names l (lv ∷ lvs) h = ground (arith, noted-note_group names l lv, all_noted names l lvs)

noted_self : (names : List String) (lv : LevelValue) → noted (note_group lv.level names) lv ≡ true
unfolding note_group
noted_self names lv = ground (
  arith,
  contains-insert_element lv.level.name lv.level.name names,
  string_key.beq_iff lv.level.name lv.level.name,
)

all_of-append :
    (t : LevelValue → Bool) (xs ys : List LevelValue)
    → all_of t xs ≡ true
    → all_of t ys ≡ true
    → all_of t (xs ++ ys) ≡ true
all_of-append t [] ys h k = k
all_of-append t (x ∷ xs) ys h k = ground (arith, all_of-append t xs ys)

read_sections-noted :
    (fields : List String) (sections : List Section) (lvs : List LevelValue) (names : List String)
    (names' : List String)
    → all_of (noted names) lvs ≡ true
    → (read_sections fields sections lvs names).1 ≡ inr names'
    → all_of (noted names') (read_sections fields sections lvs names).0 ≡ true
unfolding read_sections
read_sections-noted fields [] lvs names names' h e = ground arith
read_sections-noted fields (s ∷ rest) lvs names names' h e =
    elim (Sum-cases (read_section fields s)) [
      | inl (err, f) ↦ absurd (ground arith)
      | inr (lv, f) ↦
          rw (f, read_sections)
            (read_sections-noted fields rest (lvs ++ lv ∷ []) (note_group lv.level names) names'
              (all_of-append (noted (note_group lv.level names)) lvs (lv ∷ [])
                (all_noted names lv.level lvs h) (rw (noted_self names lv) refl))
              (rw (f, read_sections) at e))
    ]

is_known-store_group :
    (name other : String) (id : ℕ) (members : List String) (groups : Map String Group)
    → is_known (store_group other id members groups) name
      ≡ (if other == name then true else is_known groups name)
unfolding store_group
is_known-store_group name other id members groups =
    rw (is_known, find-insert other name (renewed (find other groups) id members) groups)
      (ground arith)

is_error-group_error :
    (sys : System) (name : String) (n : ℕ) → is_error (group_error sys name n) ≡ true
unfolding group_error is_error add_property system_error
is_error-group_error sys name n = ground arith

populate_groups-known :
    (sys : System) (fuel : ℕ) (names : List String) (size : ℕ) (groups groups' : Map String Group)
    (size' : ℕ) (e : Error) (name : String)
    → populate_groups sys fuel names size groups ≡ some (groups', size', e)
    → is_error e ≡ false
    → (contains names name || is_known groups name) ≡ true
    → is_known groups' name ≡ true
unfolding populate_groups
populate_groups-known sys fuel [] size groups groups' size' e name h ok k = ground arith
populate_groups-known sys fuel (n ∷ names) size groups groups' size' e name h ok k =
    elim (Option-cases (ask_for_group sys fuel n size)) [
      | inl f ↦ absurd (ground arith)
      | inr ((r, size''), f) ↦ elim (Reply-cases r) [
        | inl q ↦ absurd (ground arith)
        | inr (inl (id, members, q)) ↦
            populate_groups-known sys fuel names size'' (store_group n id members groups) groups'
              size' e name (rw (f, populate_groups, q) at h) ok
              (ground
                (arith, is_known-store_group name n id members groups, string_key.beq_iff n name))
        | inr (inr (c, q)) ↦ absurd (ground (arith, is_error-group_error sys n c))
      ]
    ]

all_known :
    (groups : Map String Group) (names : List String) (lvs : List LevelValue)
    → ((name : String) → contains names name ≡ true → is_known groups name ≡ true)
    → all_of (noted names) lvs ≡ true
    → all_of (group_known groups) lvs ≡ true
all_known groups names [] f h = refl
all_known groups names (lv ∷ lvs) f h =
    ground (arith, f lv.level.name, all_known groups names lvs f)

named_level-error : (section : String) (e : Error) → named_level section ≡ inl e → is_error e ≡ true
unfolding named_level is_error user_profile_error
named_level-error String.[] e h = ground arith
named_level-error (String.◌∷◌ c rest) e h = ground arith

read_values-error :
    (fields : List String) (section : String) (fs : List (String × String)) (vs : Map String String)
    (e : Error)
    → read_values fields section fs vs ≡ inl e
    → is_error e ≡ true
unfolding read_values is_error user_profile_error
read_values-error fields section [] vs e h = cc
read_values-error fields section ((name, v) ∷ fs) vs e h =
    ground (arith, read_values-error fields section fs (insert name v vs) e)

read_section-error :
    (fields : List String) (s : Section) (e : Error)
    → read_section fields s ≡ inl e
    → is_error e ≡ true
unfolding read_section level_of
read_section-error fields (section, fs) e h =
    ground (arith, named_level-error section e, read_values-error fields section fs [] e)

read_sections-error :
    (fields : List String) (sections : List Section) (lvs : List LevelValue) (names : List String)
    (e : Error)
    → (read_sections fields sections lvs names).1 ≡ inl e
    → is_error e ≡ true
unfolding read_sections
read_sections-error fields [] lvs names e h = cc
read_sections-error fields (s ∷ rest) lvs names e h = elim (Sum-cases (read_section fields s)) [
  | inl (e', f) ↦ ground (arith, read_section-error fields s e')
  | inr (lv, f) ↦
      read_sections-error fields rest (lvs ++ lv ∷ []) (note_group lv.level names) e
        (rw (f, read_sections) at h)
]

use_sections-known :
    (sys : System) (fuel : ℕ) (fields : List String) (sections : List Section) (p p' : Profiles)
    (e : Error)
    → use_sections sys fuel fields sections p ≡ some (p', e)
    → is_error e ≡ false
    → p.level_values ≡ []
    → all_of (group_known p'.groups) p'.level_values ≡ true
unfolding use_sections
use_sections-known sys fuel fields sections p p' e h ok fresh =
    let lvs = p.level_values in
    elim (Sum-cases (read_sections fields sections lvs []).1) [
      | inl (e', f) ↦ absurd (ground (arith, read_sections-error fields sections lvs [] e' f))
      | inr (names, f) ↦
          elim (Option-cases (populate_groups sys fuel names (buffer_size sys) p.groups)) [
            | inl g ↦ absurd (ground arith)
            | inr ((groups, size, e'), g) ↦
                let same_groups : p'.groups ≡ groups = ground arith in
                let same_levels : p'.level_values ≡ (read_sections fields sections lvs []).0 =
                  ground arith in
                let same_error : e' ≡ e = ground arith in
                let none_noted : all_of (noted []) lvs ≡ true = rw fresh refl in
                rw (same_groups, same_levels)
                  (all_known groups names (read_sections fields sections lvs []).0
                    (λ name k.
                      populate_groups-known sys fuel names (buffer_size sys) p.groups groups size e'
                        name g (rw same_error ok) (rw k refl))
                    (read_sections-noted fields sections lvs [] names none_noted f))
          ]
    ]

-- If the profiles of a new object are initialized without an error, the group of each section for a
-- group has been looked up, so the assertion of `isInGroup` holds for every section and user.
pub initialize_profiles-group_known :
    (sys : System) (fuel : ℕ) (fields : List String) (validate_values : Profiles → Error)
    (p p' : Profiles) (e : Error)
    → p.level_values ≡ []
    → initialize_profiles sys fuel fields validate_values p ≡ some (p', e)
    → is_error e ≡ false
    → all_of (group_known p'.groups) p'.level_values ≡ true
unfolding initialize_profiles parse_levels is_error add_property user_profile_error
initialize_profiles-group_known sys fuel fields validate_values p p' e fresh h ok =
    elim (Sum-cases (sys.read_file p.configuration_file)) [
      | inl (e', f) ↦ absurd (ground arith)
      | inr (text, f) ↦ elim (Sum-cases (sys.read_ini text)) [
        | inl (e', g) ↦ absurd (ground arith)
        | inr (sections, g) ↦ elim (Option-cases (use_sections sys fuel fields sections p)) [
          | inl k ↦ absurd (ground arith)
          | inr ((q, e'), k) ↦ ground (arith, use_sections-known sys fuel fields sections p q e' k)
        ]
      ]
    ]
