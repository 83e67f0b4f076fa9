-- ===== src/Api/User.antt =====
-- sdk/src/system/User.cpp: which users are the same, and the user "*" that stands for all.
-- What `getpwnam_r` says of a user is a name and two numbers; the other fields are not used here.
use rstudio_launcher_plugin.Base.{
  ℕ, ◌≡◌, arith, Bool, true, false, String, ◌==◌, string_key, nat_key, not, if◌then◌else◌,
}

pub record User : Type 0 where
  pub name : String
  pub user_id : ℕ
  pub group_id : ℕ

-- `User(in_isEmpty)`; the numbers of a user without any are `-1`, as 32 bits.
unfoldable pub new_user : Bool → User
new_user is_empty = record {
  name = if is_empty then "" else "*";
  user_id = 4294967295;
  group_id = 4294967295;
}

unfoldable pub is_all_users : User → Bool
is_all_users u = u.name == "*"

unfoldable pub is_empty : User → Bool
is_empty u = u.name == ""

-- Whether two tests differ.
abbrev differ : Bool → Bool → Bool
differ true b = not b
differ false b = b

-- `operator==`.
unfoldable pub same_user : User → User → Bool
unfolding is_all_users is_empty
same_user a b =
    if differ (is_empty a) (is_empty b)
    then false
    else (if is_empty a
        then true
        else (if differ (is_all_users a) (is_all_users b)
            then false
            else (if is_all_users a then true else a.user_id == b.user_id)))

-- `==` on users is reflexive, symmetric and transitive: an equivalence.
pub same_user_equivalence :
    (a b c : User)
    → (same_user a a ≡ true)
      × (same_user a b ≡ true → same_user b a ≡ true)
      × (same_user a b ≡ true → same_user b c ≡ true → same_user a c ≡ true)
unfolding same_user
same_user_equivalence a b c = (ground arith, (λ h. ground arith), (λ h k. ground arith))
