-- ===== src/Options/Values.antt =====
-- `parseValue` of sdk/src/options/AbstractUserProfiles.cpp, for texts, the types that Boost's
-- `lexical_cast` reads, sets, vectors and maps of them.
pub mod Reporting
use rstudio_launcher_plugin.Base.{
  ℕ, inl, inr, Option, none, some, List, [], ◌∷◌, ◌++◌, String, concat, Key, Map, insert,
  if◌then◌else◌, ltb, length, ◌-◌,
}
use rstudio_launcher_plugin.Json.Read.{insert_element}
use rstudio_launcher_plugin.Options.Errors.{
  Error, success, add_or_update_property, value_parse_error, user_profile_error, Outcome, ◌>>=◌,
  blame,
}

-- Boost's string algorithms and regular expressions: `trim_copy`, the pieces between the matches of
-- `\s*,\s*` and of `\s*\\;\s*`, and `split_regex` by `\\=`.
pub record Splitting : Type 0 where
  pub trim_copy : String → String
  pub split_commas : String → List String
  pub split_semicolons : String → List String
  pub split_equals : String → List String
  pub number_to_string : ℕ → String

-- `parseValue` of a type.
abbrev pub Parser {ℓ} : Type ℓ → Type ℓ
Parser A = String → Outcome A

module _ (s : Splitting) where
  -- A type with a name, as `lexical_cast` reads it.
  unfoldable pub parse_as {ℓ} : {A : Type ℓ} → String → (String → Option A) → Parser A
  parse_as type_name string_to v = elim (string_to (s.trim_copy v)) [
    | none ↦ inl (
        user_profile_error value_parse_error
          (concat ("Could not convert \"" ∷ v ∷ "\" to type " ∷ type_name ∷ [])) success)
    | some a ↦ inr a
  ]

  unfoldable pub parse_text : Parser String
  parse_text v = inr (s.trim_copy v)

  -- The loop over the pieces of a set or a vector.
  module _ {ℓ} {A : Type ℓ} (parse : Parser A) (full : String) where
    unfoldable pub parse_pieces : List String → List A → Outcome (List A)
    parse_pieces [] parsed = inr parsed
    parse_pieces (piece ∷ pieces) parsed =
        blame (add_or_update_property "full-value" full) (parse piece) >>= λ a.
        parse_pieces pieces (parsed ++ a ∷ [])

  module _ {ℓ} {A : Type ℓ} ⦃key : Key A⦄ (parse : Parser A) (full : String) where
    unfoldable pub insert_pieces : List String → List A → Outcome (List A)
    insert_pieces [] parsed = inr parsed
    insert_pieces (piece ∷ pieces) parsed =
        blame (add_or_update_property "full-value" full) (parse piece) >>= λ a.
        insert_pieces pieces (insert_element a parsed)

  unfoldable pub parse_vector {ℓ} : {A : Type ℓ} → Parser A → Parser (List A)
  parse_vector parse v = parse_pieces parse v (s.split_commas v) []

  unfoldable pub parse_set {ℓ} : {A : Type ℓ} ⦃key : Key A⦄ → Parser A → Parser (List A)
  parse_set parse v = insert_pieces parse v (s.split_commas v) []

  -- A map's item with another number of delimiters than one.
  unfoldable pub delimiter_error : String → String → List String → Error
  delimiter_error full item parts = add_or_update_property "full-value" full (
      user_profile_error value_parse_error
        (concat (
          "Map value \""
          ∷ item
          ∷ (if ltb (length parts) 2
              then "\" does not contain \":\" delimiter. Expected exactly 1" ∷ []
              else "\" contains "
                ∷ s.number_to_string (length parts - 1)
                ∷ " \":\" delimiters. Expected exactly 1."
                ∷ [])))
        success)

  module _ {ℓ κ} {K : Type ℓ} {V : Type κ} (parse_key : Parser K) (parse_value : Parser V) where
    -- The parts of an item.
    unfoldable pub parse_item : String → String → List String → Outcome (K × V)
    unfolding delimiter_error
    parse_item full item (k ∷ v ∷ []) =
        blame (add_or_update_property "full-value" full) (parse_key k) >>= λ key.
        blame
          (λ e. add_or_update_property "key-value" k (add_or_update_property "full-value" full e))
          (parse_value v)
        >>= λ value. inr (key, value)
    parse_item full item [] = inl (delimiter_error full item [])
    parse_item full item (k ∷ []) = inl (delimiter_error full item (k ∷ []))
    parse_item full item (k ∷ v ∷ w ∷ rest) = inl (delimiter_error full item (k ∷ v ∷ w ∷ rest))

  module _ {ℓ κ} {K : Type ℓ} ⦃key : Key K⦄ {V : Type κ} (parse_key : Parser K)
      (parse_value : Parser V) where
    unfoldable pub parse_items : String → List String → Map K V → Outcome (Map K V)
    unfolding parse_item
    parse_items full [] parsed = inr parsed
    parse_items full (item ∷ items) parsed =
        parse_item parse_key parse_value full item (s.split_equals item) >>= λ (k, v).
        parse_items full items (insert k v parsed)

    unfoldable pub parse_map : Parser (Map K V)
    unfolding parse_items
    parse_map v = parse_items v (s.split_semicolons v) []
