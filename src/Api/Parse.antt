-- ===== src/Api/Parse.antt =====
-- What parsing a job gives: a value, or the first error, which is its kind and what it names.
use rstudio_launcher_plugin.Base.{
  ◌⊎◌, inl, inr, Option, none, some, List, [], ◌∷◌, String, concat, map,
}
use rstudio_launcher_plugin.Json.{Value, Array, Object, object_value, empty_array, Rapid, push_all}
use rstudio_launcher_plugin.Json.Read.{JsonReadError, as_object}
use rstudio_launcher_plugin.Api.Platform.{MountType}

-- `JobParseError`, without its success.
pub data JobParseError : Type 0 where
  invalid_value missing_value conflicting_values : JobParseError

-- A `read_error` is that of `readObject`, a `job_parse_error` has its details, and a `schema_error`
-- is that of a mount's source.
pub data ParseError : Type 0 where
  read_error : JsonReadError → ParseError
  job_parse_error : JobParseError → String → ParseError
  config_type_error : String → ParseError
  schema_error : MountType → ParseError
  time_error : String → ParseError

abbrev pub Result {ℓ} : Type ℓ → Type ℓ
Result A = ParseError ⊎ A

module _ {ℓ κ} {A : Type ℓ} {B : Type κ} where
  infixl 1 ◌>>=◌
  abbrev pub ◌>>=◌ : Result A → (A → Result B) → Result B
  inl e >>= f = inl e
  inr a >>= f = f a

-- An error of `readObject` is passed on.
abbrev pub lift {ℓ} : {A : Type ℓ} → JsonReadError ⊎ A → Result A
lift (inl e) = inl (read_error e)
lift (inr a) = inr a

abbrev pub get_or {ℓ} : {A : Type ℓ} → Option A → A → A
get_or none a = a
get_or (some b) a = b

-- `quoteStr`.
unfoldable pub quote_str : String → String
quote_str s = concat ("\"" ∷ s ∷ "\"" ∷ [])

module _ {ℓ} {T : Type ℓ} where
  -- `fromJsonArray`, on the elements.
  unfoldable pub from_json_array : Rapid → (Object → Result T) → List Value → Result (List T)
  unfolding quote_str
  from_json_array j from_json [] = inr []
  from_json_array j from_json (v ∷ vs) =
      let rest = from_json_array j from_json vs in
      elim (as_object v) [
        | none ↦ inl (
            job_parse_error invalid_value
              (concat ("value " ∷ quote_str (j.write v) ∷ " has an invalid type" ∷ [])))
        | some o ↦ from_json o >>= λ t. rest >>= λ ts. inr (t ∷ ts)
      ]

  -- `toJsonArray`.
  unfoldable pub to_json_array : (T → Object) → List T → Array
  to_json_array to_json ts = push_all (map (λ t. object_value (to_json t)) ts) empty_array
