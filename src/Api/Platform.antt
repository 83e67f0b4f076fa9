-- ===== src/Api/Platform.antt =====
-- What requests and jobs are read with and that is not the SDK's own: Boost's string algorithms, the
-- dates of Boost, RapidJSON and the system's users, each with what its documentation says.
use Prim.Native.Char.{code}
use rstudio_launcher_plugin.Base.{
  ℕ, ℤ, pos, negsuc, ◌≡◌, Bool, true, false, ◌&&◌, ◌||◌, not, Option, some, List, String, ltb, leb,
  nat_beq, if◌then◌else◌, ◌-◌,
}
use rstudio_launcher_plugin.Json.{Object, Rapid}
use rstudio_launcher_plugin.Api.User.{User}

-- Boost's string algorithms, `std::to_string` and `DateTime::fromString`.
pub record TextAlgorithms : Type 0 where
  pub trim_copy : String → String
  pub iequals : String → String → Bool
  pub join : List String → String → String
  pub to_string : ℤ → String
  pub parse_time : String → Option ℕ

-- `MountSource::Type`.
pub data MountType : Type 0 where
  azure_file ceph_fs gluster_fs host nfs passthrough : MountType

-- All of it: `DateTime::toString`, whether RapidJSON's validator accepts a mount's source by the
-- schema of its type, and what `getpwnam_r` finds under a name.
pub record Platform : Type 0 where
  pub texts : TextAlgorithms
  pub rapid : Rapid
  pub time_to_string : ℕ → String
  pub is_valid : MountType → Object → Bool
  pub get_user : String → Option User

-- No character of a text is white space.
unfoldable pub is_plain : String → Bool
is_plain String.[] = true
is_plain (String.◌∷◌ c s) =
    not (nat_beq (code c) 32 || leb 9 (code c) && leb (code c) 13) && is_plain s

unfoldable pub is_ascii : String → Bool
is_ascii String.[] = true
is_ascii (String.◌∷◌ c s) = ltb (code c) 128 && is_ascii s

-- The number of an ASCII character's capital.
unfoldable pub to_upper : ℕ → ℕ
to_upper n = if leb 97 n && leb n 122 then n - 32 else n

-- Two ASCII texts are the same but for capitals.
unfoldable pub same_letters : String → String → Bool
unfolding to_upper
same_letters String.[] String.[] = true
same_letters String.[] (String.◌∷◌ d t) = false
same_letters (String.◌∷◌ c s) String.[] = false
same_letters (String.◌∷◌ c s) (String.◌∷◌ d t) =
    nat_beq (to_upper (code c)) (to_upper (code d)) && same_letters s t

-- An `int` of 32 bits.
unfoldable pub in_int : ℤ → Bool
in_int (pos n) = leb n 2147483647
in_int (negsuc n) = leb n 2147483647

-- What the documentation says: `trim` takes white space only, `iequals` compares letters, the date
-- that was written is read back, and RapidJSON gives the `int`s as they are.
pub record IsDocumented (p : Platform) : Type 0 where
  pub trim_plain : (s : String) → is_plain s ≡ true → p.texts.trim_copy s ≡ s
  pub iequals_ascii :
      (s t : String)
      → is_ascii s ≡ true
      → is_ascii t ≡ true
      → p.texts.iequals s t ≡ same_letters s t
  pub parse_time_to_string : (n : ℕ) → p.texts.parse_time (p.time_to_string n) ≡ some n
  pub get_int_in_range : (i : ℤ) → in_int i ≡ true → p.rapid.get_int i ≡ i
  pub get_uint64_in_range :
      (n : ℕ) → leb n 18446744073709551615 ≡ true → p.rapid.get_uint64 (pos n) ≡ n
