-- ===== src/Options/Errors.antt =====
-- sdk/src/Error.cpp and `userProfileError` of sdk/src/options/AbstractUserProfiles.cpp: errors as
-- values. A location says where in the source an error was made, and is left out.
use rstudio_launcher_plugin.Base.{
  ℕ, ◌⊎◌, inl, inr, Bool, false, ◌&&◌, not, List, [], ◌∷◌, ◌++◌, String, string_key, nat_key, ◌==◌,
  if◌then◌else◌,
}

-- `Success()`, or an `Error`'s name, code, message, properties and cause.
pub data Error : Type 0 where
  success : Error
  error : String → ℕ → String → List (String × String) → Error → Error

-- `operator bool`.
unfoldable pub is_error : Error → Bool
is_error success = false
is_error (error name code message properties cause) = not (code == 0)

abbrev name_of : Error → String
name_of success = ""
name_of (error name code message properties cause) = name

abbrev code_of : Error → ℕ
code_of success = 0
code_of (error name code message properties cause) = code

-- `operator==`.
unfoldable pub same_error : Error → Error → Bool
unfolding is_error
same_error a b =
    if is_error a
    then is_error b && code_of a == code_of b && name_of a == name_of b
    else not (is_error b)

unfoldable pub add_property : String → String → Error → Error
add_property n v success = success
add_property n v (error name code message properties cause) =
    error name code message (properties ++ (n, v) ∷ []) cause

unfoldable pub update_property : String → String → List (String × String) → List (String × String)
update_property n v [] = (n, v) ∷ []
update_property n v ((m, w) ∷ rest) =
    if m == n then (m, v) ∷ rest else (m, w) ∷ update_property n v rest

unfoldable pub add_or_update_property : String → String → Error → Error
unfolding update_property
add_or_update_property n v success = success
add_or_update_property n v (error name code message properties cause) =
    error name code message (update_property n v properties) cause

-- `UserProfileError`, without its success.
pub data UserProfileError : Type 0 where
  conf_parse_error value_not_found_error value_parse_error invalid_value_error : UserProfileError

unfoldable pub code_of_profile_error : UserProfileError → ℕ
code_of_profile_error conf_parse_error = 1
code_of_profile_error value_not_found_error = 2
code_of_profile_error value_parse_error = 3
code_of_profile_error invalid_value_error = 4

-- `userProfileError`: the text that it puts before the message is not used.
unfoldable pub user_profile_error : UserProfileError → String → Error → Error
unfolding is_error code_of_profile_error
user_profile_error code message cause =
    error "UserProfilesError" (code_of_profile_error code) message []
      (if is_error cause then cause else success)

-- `isValueNotFoundError`.
unfoldable pub is_value_not_found_error : Error → Bool
unfolding same_error user_profile_error
is_value_not_found_error e = same_error e (user_profile_error value_not_found_error "" success)

-- The value of an out parameter, or the error that is returned.
abbrev pub Outcome {ℓ} : Type ℓ → Type ℓ
Outcome A = Error ⊎ A

module _ {ℓ κ} {A : Type ℓ} {B : Type κ} where
  infixl 1 ◌>>=◌
  abbrev pub ◌>>=◌ : Outcome A → (A → Outcome B) → Outcome B
  inl e >>= f = inl e
  inr a >>= f = f a

-- The error of an outcome gets a property.
abbrev pub blame {ℓ} : {A : Type ℓ} → (Error → Error) → Outcome A → Outcome A
blame f (inl e) = inl (f e)
blame f (inr a) = inr a
