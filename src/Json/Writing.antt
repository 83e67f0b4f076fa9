-- ===== src/Json/Writing.antt =====
-- What is read of an object that was made by assignments, by the last value under the name.
use rstudio_launcher_plugin.Base.{
  ℤ, ◌≡◌, refl, ◌∙◌, Bool-cases, inl, inr, Bool, Option, none, some, List, [], ◌∷◌, String,
  string_key, ◌==◌, map, if◌then◌else◌, arith,
}
use rstudio_launcher_plugin.Json.{
  Value, null_value, bool_value, real_value, integer_value, string_value, array_value, object_value,
  Array, empty_array, Object, empty_object, elements, Rapid, find_member, push_all,
  elements-push_all,
}
use rstudio_launcher_plugin.Json.Members.{
  Assignment, assign_all, last_of, or_else, find_member-assign_all,
}
use rstudio_launcher_plugin.Json.Read.{
  Conversion, required, read, optional, read_optional, as_string, as_int, as_bool, as_array,
  as_object, present, convert_all, optional_vector, read_optional_vector, optional_set,
  read_optional_set, insert_elements,
}

-- A value that is assigned unless it is empty, or if there is one.
abbrev pub unless_empty : String → Option Value
unless_empty s = if s == "" then none else some (string_value s)

abbrev pub if_some {ℓ} : {A : Type ℓ} → (A → Value) → Option A → Option Value
if_some f none = none
if_some f (some a) = some (f a)

-- A conversion does not take null for a value of its type.
abbrev pub RefusesNull {ℓ} : {A : Type ℓ} → Conversion A → Type ℓ
RefusesNull convert = convert null_value ≡ none

module _ {ℓ} {A : Type ℓ} (convert : Conversion A) (null : RefusesNull convert)
    (name : String) where
  present-some : (v : Value) {a : A} → convert v ≡ some a → present (some v) ≡ some v
  unfolding present
  present-some null_value e = absurd (ground (arith, null))
  present-some (bool_value b) e = refl
  present-some (integer_value i) e = refl
  present-some (real_value r) e = refl
  present-some (string_value s) e = refl
  present-some (array_value a) e = refl
  present-some (object_value o) e = refl

  pub required-some :
      (v : Value) {a : A} → convert v ≡ some a → required convert name (some v) ≡ inr a
  unfolding required
  required-some v e = rw (required, present-some v e, e)

  pub optional-some :
      (v : Value) {a : A} → convert v ≡ some a → optional convert name (some v) ≡ inr (some a)
  unfolding optional
  optional-some v e = rw (optional, present-some v e, e)

  module _ (assigned : List Assignment) where
    pub read-assign_all :
        {v : Value} {a : A}
        → last_of name assigned none ≡ some v
        → convert v ≡ some a
        → read convert name (assign_all assigned empty_object) ≡ inr a
    unfolding read find_member
    read-assign_all {v} l e =
        rw (find_member-assign_all name assigned empty_object, l) (required-some v e)

    pub read_optional-assign_all :
        (to_value : A → Value) (o : Option A)
        → last_of name assigned none ≡ or_else (if_some to_value o) none
        → ((a : A) → o ≡ some a → convert (to_value a) ≡ some a)
        → read_optional convert name (assign_all assigned empty_object) ≡ inr o
    unfolding read_optional find_member
    read_optional-assign_all to_value none l e =
        rw (find_member-assign_all name assigned empty_object, l) (unfold optional present in refl)
    read_optional-assign_all to_value (some a) l e =
        rw (find_member-assign_all name assigned empty_object, l)
          (optional-some (to_value a) (e a refl))

unless_empty-if_some :
    (s : String)
    → or_else (unless_empty s) none
      ≡ or_else (if_some string_value (if s == "" then none else some s)) none
unless_empty-if_some s = elim (Bool-cases (s == "")) [ inl e ↦ rw e refl | inr e ↦ rw e refl ]

convert_all-map :
    (name : String) (ss : List String) → convert_all as_string name (map string_value ss) ≡ inr ss
unfolding convert_all as_string
convert_all-map name [] = refl
convert_all-map name (s ∷ ss) = rw (convert_all-map name ss) refl

-- An array of texts.
unfoldable pub text_array : List String → Array
text_array ss = push_all (map string_value ss) empty_array

optional_vector-text_array :
    (name : String) (ss : List String)
    → optional_vector as_string name (some (array_value (text_array ss))) ≡ inr (some ss)
unfolding optional_vector text_array as_array elements present
optional_vector-text_array name ss =
    rw
      (
        optional_vector,
        elements-push_all (map string_value ss) empty_array,
        convert_all-map name ss,
      )
      refl

-- The members of the types that are written.
module _ (assigned : List Assignment) (name : String) where
  pub read-text :
      (s : String)
      → last_of name assigned none ≡ some (string_value s)
      → read as_string name (assign_all assigned empty_object) ≡ inr s
  unfolding as_string
  read-text s l = read-assign_all as_string refl name assigned l refl

  pub read-int :
      (j : Rapid) (i : ℤ)
      → j.get_int i ≡ i
      → last_of name assigned none ≡ some (integer_value i)
      → read (as_int j) name (assign_all assigned empty_object) ≡ inr i
  unfolding as_int
  read-int j i e l = read-assign_all (as_int j) refl name assigned l (rw e)

  pub read_optional-int :
      (j : Rapid) (o : Option ℤ)
      → ((i : ℤ) → o ≡ some i → j.get_int i ≡ i)
      → last_of name assigned none ≡ or_else (if_some integer_value o) none
      → read_optional (as_int j) name (assign_all assigned empty_object) ≡ inr o
  unfolding as_int
  read_optional-int j o e l =
      read_optional-assign_all (as_int j) refl name assigned integer_value o l (λ i h. rw (e i h))

  pub read_optional-text :
      (o : Option String)
      → last_of name assigned none ≡ or_else (if_some string_value o) none
      → read_optional as_string name (assign_all assigned empty_object) ≡ inr o
  unfolding as_string
  read_optional-text o l =
      read_optional-assign_all as_string refl name assigned string_value o l (λ s h. refl)

  pub read_optional-bool :
      (o : Option Bool)
      → last_of name assigned none ≡ or_else (if_some bool_value o) none
      → read_optional as_bool name (assign_all assigned empty_object) ≡ inr o
  unfolding as_bool
  read_optional-bool o l =
      read_optional-assign_all as_bool refl name assigned bool_value o l (λ b h. refl)

  pub read_optional-array :
      (a : Array)
      → last_of name assigned none ≡ some (array_value a)
      → read_optional as_array name (assign_all assigned empty_object) ≡ inr (some a)
  unfolding as_array
  read_optional-array a l =
      read_optional-assign_all as_array refl name assigned array_value (some a) l (λ b h. refl)

  pub read_optional-object :
      (o : Option Object)
      → last_of name assigned none ≡ or_else (if_some object_value o) none
      → read_optional as_object name (assign_all assigned empty_object) ≡ inr o
  unfolding as_object
  read_optional-object o l =
      read_optional-assign_all as_object refl name assigned object_value o l (λ b h. refl)

  pub read_optional-unless_empty :
      (s : String)
      → last_of name assigned none ≡ or_else (unless_empty s) none
      → read_optional as_string name (assign_all assigned empty_object)
        ≡ inr (if s == "" then none else some s)
  unfolding as_string
  read_optional-unless_empty s l =
      read_optional-text (if s == "" then none else some s) (l ∙ unless_empty-if_some s)

  pub read_optional_vector-text_array :
      (ss : List String)
      → last_of name assigned none ≡ some (array_value (text_array ss))
      → read_optional_vector as_string name (assign_all assigned empty_object) ≡ inr (some ss)
  unfolding read_optional_vector find_member
  read_optional_vector-text_array ss l =
      rw (find_member-assign_all name assigned empty_object, l) (optional_vector-text_array name ss)

  pub read_optional_set-text_array :
      (ss : List String)
      → insert_elements ss [] ≡ ss
      → last_of name assigned none ≡ some (array_value (text_array ss))
      → read_optional_set name (assign_all assigned empty_object) ≡ inr (some ss)
  unfolding read_optional_set optional_set find_member
  read_optional_set-text_array ss set l =
      rw
        (
          find_member-assign_all name assigned empty_object,
          l,
          optional_set,
          optional_vector-text_array name ss,
          set,
        )
        refl
