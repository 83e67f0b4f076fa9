-- ===== src/Options/UserProfiles/Lookup/Hidden.antt =====
-- Values that are not found, and where those that are found come from.
use rstudio_launcher_plugin.Base.{
  ◌≡◌, ◌≤◌, ◌⊎◌, inl, inr, refl, arith, Bool, true, false, ◌&&◌, not, Option, none, some, List, [],
  ◌∷◌, ◌++◌, String, string_key, nat_key, Map, find, leb, Bool-cases,
}
use rstudio_launcher_plugin.Api.User.{User}
use rstudio_launcher_plugin.Options.UserProfiles.{
  Level, LevelType, no_level, rank, LevelValue, Group, Profiles, applies, or_else, skips,
  search_levels, value_for_user,
}
use rstudio_launcher_plugin.Options.UserProfiles.Lookup.{skips-false}

abbrev pub Any : (LevelValue → Type 0) → List LevelValue → Type 0
Any P [] = ⊥
Any P (lv ∷ rest) = P lv ⊎ Any P rest

abbrev pub is_some : Option String → Bool
is_some none = false
is_some (some v) = true

module _ (groups : Map String Group) (name : String) (u : User) where
  -- No section that is for the user and at least as specific as a level has a value.
  abbrev pub bare_from : LevelType → List LevelValue → Bool
  bare_from l [] = true
  bare_from l (lv ∷ rest) =
      not (
        applies groups u lv.level
        && leb (rank l) (rank lv.level.type)
        && is_some (find name lv.values))
      && bare_from l rest

  bare_from-level :
      (l : LevelType) (lv : LevelValue) (rest : List LevelValue)
      → bare_from l (lv ∷ rest) ≡ true
      → (bare_from l rest ≡ true)
        × (applies groups u lv.level ≡ true
            → rank l ≤ rank lv.level.type
            → find name lv.values ≡ none)
  bare_from-level l lv rest h = (ground arith, λ a b. ground arith)

  search_levels-bare_from :
      (lvs : List LevelValue) (l s : LevelType) (o : Option String)
      → bare_from l lvs ≡ true
      → rank l ≤ rank s
      → search_levels groups name u lvs s o ≡ o
  unfolding search_levels
  search_levels-bare_from [] l s o h k = refl
  search_levels-bare_from (lv ∷ rest) l s o h k =
      let (later, bare) = bare_from-level l lv rest h in
      elim (Bool-cases (skips groups u s lv.level)) [
        | inl t ↦ rw t (search_levels-bare_from rest l s o later k)
        | inr t ↦
            let (a, q) = skips-false groups name u s lv.level t in
            rw (t, bare a (omega arith))
              (search_levels-bare_from rest l lv.level.type o later (omega arith))
      ]

  skips_higher :
      (l : Level) (s : LevelType)
      → applies groups u l ≡ true
      → skips groups u s l ≡ true
      → rank l.type ≤ rank s
  unfolding skips
  skips_higher l s a t = ground arith

  -- A section without a value, whatever was found before it.
  search_levels-hidden_here :
      (lv : LevelValue) (rest : List LevelValue) (s : LevelType) (o : Option String)
      → applies groups u lv.level ≡ true
      → find name lv.values ≡ none
      → bare_from lv.level.type rest ≡ true
      → search_levels groups name u (lv ∷ rest) s o ≡ o
  unfolding search_levels
  search_levels-hidden_here lv rest s o a n b = elim (Bool-cases (skips groups u s lv.level)) [
    | inl t ↦ rw t (search_levels-bare_from rest lv.level.type s o b (skips_higher lv.level s a t))
    | inr t ↦ rw (t, n) (search_levels-bare_from rest lv.level.type lv.level.type o b (omega arith))
  ]

  search_levels-hidden :
      (before : List LevelValue) (lv : LevelValue) (rest : List LevelValue) (s : LevelType)
      (o : Option String)
      → applies groups u lv.level ≡ true
      → find name lv.values ≡ none
      → bare_from lv.level.type rest ≡ true
      → search_levels groups name u (before ++ lv ∷ rest) s o
        ≡ search_levels groups name u before s o
  unfolding search_levels
  search_levels-hidden [] lv rest s o a n b = search_levels-hidden_here lv rest s o a n b
  search_levels-hidden (first ∷ before) lv rest s o a n b =
      rw
        (
          search_levels-hidden before lv rest s o a n b,
          search_levels-hidden before lv rest first.level.type (or_else (find name first.values) o)
              a n b,
        )
        refl

  -- A section that is for the user gives it a value.
  abbrev pub Gives : String → LevelValue → Type 0
  Gives v lv = (applies groups u lv.level ≡ true) × (find name lv.values ≡ some v)

  search_levels-Gives :
      (lvs : List LevelValue) (s : LevelType) (o : Option String) (v : String)
      → search_levels groups name u lvs s o ≡ some v
      → (o ≡ some v) ⊎ Any (Gives v) lvs
  unfolding search_levels
  search_levels-Gives [] s o v e = inl e
  search_levels-Gives (lv ∷ rest) s o v e = elim (Bool-cases (skips groups u s lv.level)) [
    | inl t ↦ elim (search_levels-Gives rest s o v (rw t at e)) [
      | inl f ↦ inl f
      | inr f ↦ inr (inr f)
    ]
    | inr t ↦
        elim (search_levels-Gives rest lv.level.type (or_else (find name lv.values) o) v
          (rw t at e)) [
            | inl f ↦ ground (arith, skips-false groups name u s lv.level t)
            | inr f ↦ inr (inr f)
          ]
  ]

-- A section that is for the user and has no value hides the values of all less specific sections
-- behind it: if no section behind it that is for the user and at least as specific has a value, the
-- user gets what the sections before it alone would give, whatever the less specific ones behind say.
pub value_for_user-hidden :
    (p : Profiles) (name : String) (u : User) (before : List LevelValue) (lv : LevelValue)
    (rest : List LevelValue)
    → p.level_values ≡ before ++ lv ∷ rest
    → applies p.groups u lv.level ≡ true
    → find name lv.values ≡ none
    → bare_from p.groups name u lv.level.type rest ≡ true
    → value_for_user p name u ≡ value_for_user (record p { level_values = before }) name u
unfolding value_for_user
value_for_user-hidden p name u before lv rest e a n b =
    rw e (search_levels-hidden p.groups name u before lv rest no_level none a n b)

-- A value that a user gets is one of a section that is for the user.
pub value_for_user-Gives :
    (p : Profiles) (name : String) (u : User) (v : String)
    → value_for_user p name u ≡ some v
    → Any (Gives p.groups name u v) p.level_values
unfolding value_for_user
value_for_user-Gives p name u v e =
    elim (search_levels-Gives p.groups name u p.level_values no_level none v e) [
      | inl bad ↦ absurd (ground arith)
      | inr some_level ↦ some_level
    ]
