-- ===== src/Json/Members.antt =====
-- Objects that are made by one assignment after the other, some of which are left out.
use rstudio_launcher_plugin.Base.{
  ◌≡◌, refl, ◌∙◌, ap, Option, none, some, List, [], ◌∷◌, String, string_key, ◌==◌, if◌then◌else◌,
  arith,
}
use rstudio_launcher_plugin.Json.{Value, Object, find_member, set_member, find_member-set_member}

-- The statement `object[name] = value`, if there is a value.
abbrev pub Assignment : Type 0
Assignment = String × Option Value

unfoldable pub assign : Assignment → Object → Object
assign (name, none) o = o
assign (name, some v) o = set_member name v o

unfoldable pub assign_all : List Assignment → Object → Object
assign_all [] o = o
assign_all (a ∷ rest) o = assign_all rest (assign a o)

abbrev pub or_else {ℓ} : {A : Type ℓ} → Option A → Option A → Option A
or_else none b = b
or_else (some a) b = some a

-- The last value that is assigned to a name.
abbrev pub last_of : String → List Assignment → Option Value → Option Value
last_of name [] found = found
last_of name ((n, v) ∷ rest) found =
    last_of name rest (if n == name then or_else v found else found)

find_member-assign :
    (name n : String) (v : Option Value) (o : Object)
    → find_member name (assign (n, v) o)
      ≡ (if n == name then or_else v (find_member name o) else find_member name o)
unfolding assign
find_member-assign name n none o = ground arith
find_member-assign name n (some v) o = find_member-set_member name n v o

-- Assignments make an object hold, under each name, the last value that was assigned to it, and
-- otherwise what it held.
pub find_member-assign_all :
    (name : String) (assigned : List Assignment) (o : Object)
    → find_member name (assign_all assigned o) ≡ last_of name assigned (find_member name o)
unfolding assign_all
find_member-assign_all name [] o = refl
find_member-assign_all name ((n, v) ∷ rest) o =
    find_member-assign_all name rest (assign (n, v) o)
    ∙ ap (last_of name rest) (find_member-assign name n v o)
