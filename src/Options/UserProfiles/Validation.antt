-- ===== src/Options/UserProfiles/Validation.antt =====
-- What `validateValue` is worth: a value that it has looked at can be got for every user.
use rstudio_launcher_plugin.Base.{
  ◌≡◌, ◌⊎◌, inl, inr, refl, arith, true, false, List, [], ◌∷◌, String, string_key, nat_key, Map,
  find, contains, Option-cases, Sum-cases,
}
use rstudio_launcher_plugin.Api.User.{User}
use rstudio_launcher_plugin.Options.Errors.{
  Error, success, error, is_error, add_property, user_profile_error, is_value_not_found_error,
}
use rstudio_launcher_plugin.Options.Values.{Parser}
use rstudio_launcher_plugin.Options.Values.Reporting.{Reports}
use rstudio_launcher_plugin.Options.UserProfiles.{
  LevelValue, Group, Profiles, value_for_user, get_value_for_user, iterate_values, value_not_found,
  validate_value, validate_value_as, error_of,
}
use rstudio_launcher_plugin.Options.UserProfiles.Lookup.Hidden.{Any, Gives, value_for_user-Gives}

is_error-add_property : (n v : String) (e : Error) → is_error (add_property n v e) ≡ is_error e
unfolding is_error add_property
is_error-add_property n v success = refl
is_error-add_property n v (error name code message properties cause) = refl

-- A validator that is content with a section's values takes each of them.
iterate_values-takes :
    (groups : Map String Group) (u : User) (name v : String) (validator : String → Error)
    (lvs : List LevelValue)
    → is_error (iterate_values name validator lvs) ≡ false
    → Any (Gives groups name u v) lvs
    → is_error (validator v) ≡ false
unfolding iterate_values
iterate_values-takes groups u name v validator [] h g = absurd g
iterate_values-takes groups u name v validator (lv ∷ rest) h (inl (a, f)) =
    ground (arith, is_error-add_property "section-name" lv.level.name (validator v))
iterate_values-takes groups u name v validator (lv ∷ rest) h (inr g) =
    elim (Option-cases (find name lv.values)) [
      | inl e ↦ iterate_values-takes groups u name v validator rest (rw (e, iterate_values) at h) g
      | inr (w, e) ↦ ground (
        arith,
        is_error-add_property "section-name" lv.level.name (validator w),
        iterate_values-takes groups u name v validator rest,
        g,
      )
    ]

validate_value-iterate_values :
    (p : Profiles) (name : String) (validator : String → Error)
    → is_error (validate_value p name validator) ≡ false
    → is_error (iterate_values name validator p.level_values) ≡ false
unfolding validate_value user_profile_error is_error
validate_value-iterate_values p name validator h = ground arith

value_not_found-is_value_not_found_error :
    (name : String) (u : User) → is_value_not_found_error (value_not_found name u) ≡ true
unfolding is_value_not_found_error value_not_found
value_not_found-is_value_not_found_error name u = refl

-- If the values of a name were validated as those of a type, then `getValueForUser` of the name at
-- the type gives every user a value, or else an error that `isValueNotFoundError` recognizes: no user
-- meets a value that cannot be read.
pub get_value_for_user-validated {ℓ} :
    {A : Type ℓ} (p : Profiles) (fields : List String) (parse : Parser A) (name : String) (u : User)
    → Reports parse
    → contains fields name ≡ true
    → is_error (validate_value_as p name parse) ≡ false
    → ((a : A) × (get_value_for_user p fields parse name u ≡ inr a))
      ⊎ ((e : Error) × (get_value_for_user p fields parse name u ≡ inl e)
          × (is_value_not_found_error e ≡ true))
unfolding get_value_for_user validate_value_as
get_value_for_user-validated p fields parse name u reports valid h =
    elim (Option-cases (value_for_user p name u)) [
      | inl n ↦ inr (
        value_not_found name u,
        rw (valid, n) refl,
        value_not_found-is_value_not_found_error name u,
      )
      | inr (v, f) ↦ elim (Sum-cases (parse v)) [
        | inr (a, g) ↦ inl (a, rw (valid, f) g)
        | inl (e, g) ↦
            let taken : is_error (error_of (parse v)) ≡ false =
              iterate_values-takes p.groups u name v (λ v. error_of (parse v)) p.level_values
                (validate_value-iterate_values p name (λ v. error_of (parse v)) h)
                (value_for_user-Gives p name u v f) in
            absurd (ground (arith, reports v e))
      ]
    ]
