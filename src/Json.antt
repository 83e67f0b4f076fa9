-- ===== src/Json.antt =====
-- sdk/include/json/Json.hpp, sdk/src/json/Json.cpp: JSON values. What RapidJSON holds is the data type
-- `Value`; an object is the list of its members in their order, an array that of its elements.
pub mod Read
pub mod Members
pub mod Writing
use rstudio_launcher_plugin.Base.{
  ℕ, ℤ, pos, ◌≡◌, refl, Bool, true, false, Option, none, some, List, [], ◌∷◌, ◌++◌, String,
  string_key, ◌==◌, if◌then◌else◌, arith, append_assoc, append-nil,
}

-- `Type`, with the value; a `real_value` has the bits of its double.
mutual
  pub data Value : Type 0 where
    null_value : Value
    bool_value : Bool → Value
    integer_value : ℤ → Value
    real_value : ℕ → Value
    string_value : String → Value
    array_value : Array → Value
    object_value : Object → Value

  pub data Array : Type 0 where
    empty_array : Array
    element : Value → Array → Array

  pub data Object : Type 0 where
    empty_object : Object
    member : String → Value → Object → Object

-- What RapidJSON does: the text of a value, and a number as an `int` or a `uint64_t`, which is the
-- number itself where it is one of that type.
pub record Rapid : Type 0 where
  pub write : Value → String
  pub write_formatted : Value → String
  pub get_int : ℤ → ℤ
  pub get_uint64 : ℤ → ℕ

-- `Object::find`.
unfoldable pub find_member : String → Object → Option Value
find_member name empty_object = none
find_member name (member n v o) = if n == name then some v else find_member name o

-- `object[name] = value`: the first member of that name gets the value, or a new last one.
unfoldable pub set_member : String → Value → Object → Object
set_member name value empty_object = member name value empty_object
set_member name value (member n v o) =
    if n == name then member n value o else member n v (set_member name value o)

-- `Object::isEmpty`.
unfoldable pub is_empty_object : Object → Bool
is_empty_object empty_object = true
is_empty_object (member n v o) = false

unfoldable pub elements : Array → List Value
elements empty_array = []
elements (element v a) = v ∷ elements a

-- `Array::push_back`.
unfoldable pub push_back : Value → Array → Array
push_back v empty_array = element v empty_array
push_back v (element w a) = element w (push_back v a)

-- `toJsonArray` of the values of a sequence, one `push_back` each.
unfoldable pub push_all : List Value → Array → Array
push_all [] a = a
push_all (v ∷ vs) a = push_all vs (push_back v a)

elements-push_back : (v : Value) (a : Array) → elements (push_back v a) ≡ elements a ++ v ∷ []
unfolding elements push_back
elements-push_back v empty_array = refl
elements-push_back v (element w a) = rw (elements-push_back v a)

pub elements-push_all : (vs : List Value) (a : Array) → elements (push_all vs a) ≡ elements a ++ vs
unfolding push_all
elements-push_all [] a = rw append-nil
elements-push_all (v ∷ vs) a =
    rw (elements-push_all vs (push_back v a), elements-push_back v a, append_assoc)

-- The last assignment to a name is what is found under it, and the other names keep theirs.
pub find_member-set_member :
    (name n : String) (v : Value) (o : Object)
    → find_member name (set_member n v o) ≡ (if n == name then some v else find_member name o)
unfolding find_member set_member
find_member-set_member name n v empty_object = refl
find_member-set_member name n v (member m w o) = ground (
  arith,
  string_key.beq_iff n name,
  string_key.beq_iff m name,
  string_key.beq_iff m n,
  find_member-set_member name n v o,
)
