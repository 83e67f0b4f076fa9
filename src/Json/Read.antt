-- ===== src/Json/Read.antt =====
-- sdk/include/json/Json.hpp: `readObject`. A conversion stands for `isType<T>` and `getValue<T>`
-- together: it gives the value if it has the type. An error is its kind and the member's name.
use rstudio_launcher_plugin.Base.{
  ℕ, ℤ, ◌⊎◌, inl, inr, Bool, Option, none, some, List, [], ◌∷◌, String, Key, string_key, ◌==◌,
  if◌then◌else◌, contains, ◌||◌, ◌≡◌, arith,
}
use rstudio_launcher_plugin.Json.{
  Value, null_value, bool_value, integer_value, string_value, array_value, object_value, Array,
  Object, Rapid, find_member, elements,
}

-- `JsonReadError`, without its success.
pub data JsonReadError : Type 0 where
  missing_member invalid_type : String → JsonReadError

abbrev pub Conversion {ℓ} : Type ℓ → Type ℓ
Conversion A = Value → Option A

unfoldable pub as_string : Conversion String
as_string (string_value s) = some s
as_string _ = none

unfoldable pub as_bool : Conversion Bool
as_bool (bool_value b) = some b
as_bool _ = none

unfoldable pub as_int : Rapid → Conversion ℤ
as_int j (integer_value i) = some (j.get_int i)
as_int j _ = none

unfoldable pub as_uint64 : Rapid → Conversion ℕ
as_uint64 j (integer_value i) = some (j.get_uint64 i)
as_uint64 j _ = none

unfoldable pub as_array : Conversion Array
as_array (array_value a) = some a
as_array _ = none

unfoldable pub as_object : Conversion Object
as_object (object_value o) = some o
as_object _ = none

-- A member that is there and is not null.
unfoldable pub present : Option Value → Option Value
present none = none
present (some null_value) = none
present (some v) = some v

module _ {ℓ} {A : Type ℓ} (convert : Conversion A) where
  -- What is read of what was found under a name.
  unfoldable pub required : String → Option Value → JsonReadError ⊎ A
  required name found = elim (present found) [
    | none ↦ inl (missing_member name)
    | some v ↦ elim (convert v) [ none ↦ inl (invalid_type name) | some a ↦ inr a ]
  ]

  -- `readObject` of a `T`.
  unfoldable pub read : String → Object → JsonReadError ⊎ A
  unfolding required
  read name o = required name (find_member name o)

  unfoldable pub optional : String → Option Value → JsonReadError ⊎ Option A
  optional name found = elim (present found) [
    | none ↦ inr none
    | some v ↦ elim (convert v) [ none ↦ inl (invalid_type name) | some a ↦ inr (some a) ]
  ]

  -- `readObject` of an `Optional<T>`.
  unfoldable pub read_optional : String → Object → JsonReadError ⊎ Option A
  unfolding optional
  read_optional name o = optional name (find_member name o)

  -- The values of an array's elements, up to the first of another type.
  unfoldable pub convert_all : String → List Value → JsonReadError ⊎ List A
  convert_all name [] = inr []
  convert_all name (v ∷ vs) =
      let rest = convert_all name vs in
      elim (convert v) [
        | none ↦ inl (invalid_type name)
        | some a ↦ elim rest [ inl e ↦ inl e | inr more ↦ inr (a ∷ more) ]
      ]

  -- `readObject` of an `Optional<std::vector<T>>`.
  unfoldable pub optional_vector : String → Option Value → JsonReadError ⊎ Option (List A)
  unfolding convert_all
  optional_vector name found = elim (present found) [
    | none ↦ inr none
    | some v ↦ elim (as_array v) [
      | none ↦ inl (invalid_type name)
      | some a ↦ elim (convert_all name (elements a)) [ inl e ↦ inl e | inr more ↦ inr (some more) ]
    ]
  ]

  unfoldable pub read_optional_vector : String → Object → JsonReadError ⊎ Option (List A)
  unfolding optional_vector
  read_optional_vector name o = optional_vector name (find_member name o)

module _ {ℓ} {A : Type ℓ} ⦃key : Key A⦄ where
  -- `std::set::insert`: an element has one place, by the order, and is there once.
  unfoldable pub insert_element : A → List A → List A
  insert_element a [] = a ∷ []
  insert_element a (x ∷ xs) =
      let rest = insert_element a xs in
      if a == x then x ∷ xs else (if key.less a x then a ∷ x ∷ xs else x ∷ rest)

  unfoldable pub insert_elements : List A → List A → List A
  insert_elements [] set = set
  insert_elements (a ∷ rest) set = insert_elements rest (insert_element a set)

-- `readObject` of an `Optional<std::set<std::string>>`.
unfoldable pub optional_set : String → Option Value → JsonReadError ⊎ Option (List String)
unfolding insert_elements
optional_set name found = elim (optional_vector as_string name found) [
  | inl e ↦ inl e
  | inr none ↦ inr none
  | inr (some values) ↦ inr (some (insert_elements values []))
]

unfoldable pub read_optional_set : String → Object → JsonReadError ⊎ Option (List String)
unfolding optional_set
read_optional_set name o = optional_set name (find_member name o)

-- An inserted element is there, beside those that were.
pub contains-insert_element {ℓ} :
    {A : Type ℓ} ⦃key : Key A⦄ (a b : A) (xs : List A)
    → contains (insert_element a xs) b ≡ (a == b || contains xs b)
unfolding insert_element
contains-insert_element a b [] = ground arith
contains-insert_element ⦃key⦄ a b (x ∷ xs) =
    ground
      (arith, key.beq_iff a x, key.beq_iff a b, key.beq_iff x b, contains-insert_element a b xs)
