-- ===== src/Options/UserProfiles/Groups.antt =====
-- The look-up of the groups of the profiles file ends.
pub mod Known
use rstudio_launcher_plugin.Base.{
  ltb, ℕ, zero, suc, ◌+◌, ◌*◌, ◌<◌, ◌≤◌, ◌≡◌, ◌≢◌, ◌⊎◌, inl, inr, refl, arith, Bool, true, false,
  ◌||◌, Option, none, some, List, [], ◌∷◌, ◌++◌, String, string_key, nat_beq, Map, find, insert,
  find-insert, if◌then◌else◌, contains, all_of, ◌==◌, Option-cases, Sum-cases, Bool-cases, ==_refl,
}
use rstudio_launcher_plugin.Json.Read.{insert_element}
use rstudio_launcher_plugin.Options.Errors.{
  Error, success, is_error, user_profile_error, add_property, Outcome,
}
use rstudio_launcher_plugin.Options.UserProfiles.{
  Level, no_level, all_level, group_level, user_level, LevelValue, Group, Profiles,
}
use rstudio_launcher_plugin.Options.UserProfiles.Reading.{
  System, GroupReply, too_small, found, failed, Section, read_section, read_sections, note_group,
  named_level, level_of, read_values, ask_for_group, store_group, renewed, populate_groups,
  system_error, group_error, use_sections, parse_levels, initialize_profiles, buffer_size,
}

-- The buffer that suffices for every group.
abbrev pub Suffices : System → ℕ → Type 0
Suffices sys enough =
    (name : String) (size : ℕ) → enough ≤ size → sys.getgrnam_r name size ≢ too_small

-- A size that the buffer may grow to from another one.
abbrev pub Grown : ℕ → ℕ → ℕ → Type 0
Grown enough size size' = (size ≤ size') × ((size' ≤ size) ⊎ (size' < enough * 2))

abbrev Answered : GroupReply → Type 0
Answered too_small = ⊥
Answered (found id members) = Unit {0}
Answered (failed n) = Unit {0}

pub Reply-cases :
    (r : GroupReply)
    → (r ≡ too_small)
      ⊎ (((id : ℕ) × (members : List String) × (r ≡ found id members)) ⊎ ((n : ℕ) × (r ≡ failed n)))
Reply-cases too_small = inl refl
Reply-cases (found id members) = inr (inl (id, members, refl))
Reply-cases (failed n) = inr (inr (n, refl))

ask_for_group-Grown :
    (sys : System) (enough : ℕ) (name : String)
    → Suffices sys enough
    → (fuel size : ℕ) → 0 < size
    → 0 < fuel
    → enough < fuel + size
    → (r : GroupReply) × (size' : ℕ) × (ask_for_group sys fuel name size ≡ some (r, size'))
      × Answered r
      × Grown enough size size'
unfolding ask_for_group
ask_for_group-Grown sys enough name suffices zero size p q h = absurd (omega arith)
ask_for_group-Grown sys enough name suffices (suc fuel) size p q h =
    elim (Reply-cases (sys.getgrnam_r name size)) [
      | inl e ↦
          let small : size < enough = elim (Bool-cases (ltb size enough)) [
            | inl l ↦ ground arith
            | inr l ↦ absurd (suffices name size (ground arith) e)
          ] in
          let (r, size', f, answer, growth) =
            ask_for_group-Grown sys enough name suffices fuel (size * 2) (omega arith) (omega arith)
              (omega arith) in
          (r, size', rw (e, ask_for_group) f, answer, ground arith)
      | inr (inl (id, members, e)) ↦
          (found id members, size, rw (e, ask_for_group) refl, tt, (omega arith, inl (omega arith)))
      | inr (inr (n, e)) ↦
          (failed n, size, rw (e, ask_for_group) refl, tt, (omega arith, inl (omega arith)))
    ]

-- With fuel above what suffices for every group, the look-up of any groups ends, whether it finds
-- them or not, and the buffer ends as large as it began, or smaller than twice what suffices.
pub populate_groups-ends :
    (sys : System) (enough fuel : ℕ) (names : List String) (size : ℕ) (groups : Map String Group)
    → Suffices sys enough
    → 0 < size
    → enough < fuel
    → (groups' : Map String Group) × (size' : ℕ) × (e : Error) × (populate_groups sys fuel names
          size groups
        ≡ some (groups', size', e))
      × Grown enough size size'
unfolding populate_groups
populate_groups-ends sys enough fuel [] size groups suffices p h =
    (groups, size, success, refl, (omega arith, inl (omega arith)))
populate_groups-ends sys enough fuel (name ∷ names) size groups suffices p h =
    let (r, size', f, answer, growth) =
      ask_for_group-Grown sys enough name suffices fuel size p (omega arith) (omega arith) in
    elim (Reply-cases r) [
      | inl k ↦ absurd (rw k at answer)
      | inr (inl (id, members, k)) ↦
          let (groups', size'', e, g, later) =
            populate_groups-ends sys enough fuel names size' (store_group name id members groups)
              suffices (omega arith) h in
          (groups', size'', e, rw (f, populate_groups, k) g, ground arith)
      | inr (inr (n, k)) ↦
          (groups, size', group_error sys name n, rw (f, populate_groups, k) refl, growth)
    ]
