-- ===== src/Options/Values/Reporting.antt =====
-- Every parser of values that fails returns an error.
use rstudio_launcher_plugin.Base.{
  ◌≡◌, inl, inr, refl, arith, true, Option, List, [], ◌∷◌, ◌++◌, String, string_key, nat_key, Key,
  Map, insert, Sum-cases,
}
use rstudio_launcher_plugin.Json.Read.{insert_element}
use rstudio_launcher_plugin.Options.Errors.{
  Error, success, error, is_error, add_or_update_property, user_profile_error, value_parse_error,
}
use rstudio_launcher_plugin.Options.Values.{
  Splitting, Parser, parse_as, parse_text, parse_vector, parse_set, parse_map, parse_pieces,
  insert_pieces, parse_item, parse_items, delimiter_error,
}

-- What a parser returns in place of a value is an error.
abbrev pub Reports {ℓ} : {A : Type ℓ} → Parser A → Type ℓ
Reports parse = (v : String) (e : Error) → parse v ≡ inl e → is_error e ≡ true

is_error-update : (n v : String) (e : Error) → is_error (add_or_update_property n v e) ≡ is_error e
unfolding is_error add_or_update_property
is_error-update n v success = refl
is_error-update n v (error name code message properties cause) = refl

is_error-value_parse_error :
    (message : String) → is_error (user_profile_error value_parse_error message success) ≡ true
unfolding is_error user_profile_error
is_error-value_parse_error message = refl

module _ (s : Splitting) where
  pub parse_text-Reports : Reports (parse_text s)
  unfolding parse_text
  parse_text-Reports v e h = cc

  pub parse_as-Reports {ℓ} :
      {A : Type ℓ} (type_name : String) (string_to : String → Option A)
      → Reports (parse_as s type_name string_to)
  unfolding parse_as is_error user_profile_error
  parse_as-Reports type_name string_to v e h = ground arith

  module _ {ℓ} {A : Type ℓ} (parse : Parser A) (reports : Reports parse) (full : String) where
    parse_pieces-Reports :
        (pieces : List String) (parsed : List A) (e : Error)
        → parse_pieces s parse full pieces parsed ≡ inl e
        → is_error e ≡ true
    unfolding parse_pieces
    parse_pieces-Reports [] parsed e h = cc
    parse_pieces-Reports (piece ∷ pieces) parsed e h = elim (Sum-cases (parse piece)) [
      | inl (e', f) ↦ ground (arith, reports piece e', is_error-update "full-value" full e')
      | inr (a, f) ↦ parse_pieces-Reports pieces (parsed ++ a ∷ []) e (rw f at h)
    ]

  module _ {ℓ} {A : Type ℓ} ⦃key : Key A⦄ (parse : Parser A) (reports : Reports parse)
      (full : String) where
    insert_pieces-Reports :
        (pieces : List String) (parsed : List A) (e : Error)
        → insert_pieces s parse full pieces parsed ≡ inl e
        → is_error e ≡ true
    unfolding insert_pieces
    insert_pieces-Reports [] parsed e h = cc
    insert_pieces-Reports (piece ∷ pieces) parsed e h = elim (Sum-cases (parse piece)) [
      | inl (e', f) ↦ ground (arith, reports piece e', is_error-update "full-value" full e')
      | inr (a, f) ↦ insert_pieces-Reports pieces (insert_element a parsed) e (rw f at h)
    ]

  pub parse_vector-Reports {ℓ} :
      {A : Type ℓ} (parse : Parser A) → Reports parse → Reports (parse_vector s parse)
  unfolding parse_vector
  parse_vector-Reports parse reports v e h =
      parse_pieces-Reports parse reports v (s.split_commas v) [] e h

  pub parse_set-Reports {ℓ} :
      {A : Type ℓ} ⦃key : Key A⦄ (parse : Parser A) → Reports parse → Reports (parse_set s parse)
  unfolding parse_set
  parse_set-Reports parse reports v e h =
      insert_pieces-Reports parse reports v (s.split_commas v) [] e h

  is_error-delimiter_error :
      (full item : String) (parts : List String)
      → is_error (delimiter_error s full item parts) ≡ true
  unfolding delimiter_error is_error user_profile_error add_or_update_property
  is_error-delimiter_error full item parts = refl

  module _ {ℓ κ} {K : Type ℓ} {V : Type κ} (parse_key : Parser K) (parse_value : Parser V)
      (key_reports : Reports parse_key) (value_reports : Reports parse_value) where
    parse_item-Reports :
        (full item : String) (parts : List String) (e : Error)
        → parse_item s parse_key parse_value full item parts ≡ inl e
        → is_error e ≡ true
    unfolding parse_item
    parse_item-Reports full item [] e h = ground (arith, is_error-delimiter_error full item [])
    parse_item-Reports full item (k ∷ []) e h =
        ground (arith, is_error-delimiter_error full item (k ∷ []))
    parse_item-Reports full item (k ∷ v ∷ w ∷ rest) e h =
        ground (arith, is_error-delimiter_error full item (k ∷ v ∷ w ∷ rest))
    parse_item-Reports full item (k ∷ v ∷ []) e h = elim (Sum-cases (parse_key k)) [
      | inl (e', f) ↦ ground (arith, key_reports k e', is_error-update "full-value" full e')
      | inr (a, f) ↦ elim (Sum-cases (parse_value v)) [
        | inl (e', g) ↦ ground (
          arith,
          value_reports v e',
          is_error-update "full-value" full e',
          is_error-update "key-value" k (add_or_update_property "full-value" full e'),
        )
        | inr (b, g) ↦ ground arith
      ]
    ]

  module _ {ℓ κ} {K : Type ℓ} ⦃key : Key K⦄ {V : Type κ} (parse_key : Parser K)
      (parse_value : Parser V) (key_reports : Reports parse_key)
      (value_reports : Reports parse_value) where
    parse_items-Reports :
        (full : String) (items : List String) (parsed : Map K V) (e : Error)
        → parse_items s parse_key parse_value full items parsed ≡ inl e
        → is_error e ≡ true
    unfolding parse_items
    parse_items-Reports full [] parsed e h = cc
    parse_items-Reports full (item ∷ items) parsed e h =
        elim (Sum-cases (parse_item s parse_key parse_value full item (s.split_equals item))) [
          | inl (e', f) ↦ ground (
            arith,
            parse_item-Reports parse_key parse_value key_reports value_reports full item
                (s.split_equals item) e' f,
          )
          | inr ((k, v), f) ↦ parse_items-Reports full items (insert k v parsed) e (rw f at h)
        ]

    pub parse_map-Reports : Reports (parse_map s parse_key parse_value)
    unfolding parse_map
    parse_map-Reports v e h = parse_items-Reports v (s.split_semicolons v) [] e h
