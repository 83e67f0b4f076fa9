-- ===== src/Options/UserProfiles/Lookup.antt =====
-- The last value of the most specific sections.
pub mod Sorted
pub mod Hidden
use rstudio_launcher_plugin.Base.{
  ℕ, ◌≡◌, ◌≢◌, ◌≤◌, ◌<◌, ◌⊎◌, inl, inr, refl, ◌∙◌, arith, Bool, true, false, ◌&&◌, not, Option,
  none, some, List, [], ◌∷◌, String, string_key, nat_key, ◌==◌, Map, find, if◌then◌else◌, ltb, leb,
  Bool-cases, Option-cases,
}
use rstudio_launcher_plugin.Api.User.{User}
use rstudio_launcher_plugin.Options.UserProfiles.{
  LevelType, no_level, all_level, group_level, user_level, rank, Level, LevelValue, Group, Profiles,
  applies, or_else, skips, search_levels, value_for_user,
}

pub or_else_assoc : (a b c : Option String) → or_else (or_else a b) c ≡ or_else a (or_else b c)
or_else_assoc none b c = refl
or_else_assoc (some x) b c = refl

pub or_else-none : (a : Option String) → or_else a none ≡ a
or_else-none none = refl
or_else-none (some x) = refl

module _ (groups : Map String Group) (name : String) (u : User) where
  -- The value of the last section of a level that is for the user and has one.
  abbrev pub last_at : LevelType → List LevelValue → Option String
  last_at l [] = none
  last_at l (lv ∷ rest) = or_else (last_at l rest) (
      if applies groups u lv.level && rank lv.level.type == rank l
      then find name lv.values
      else none)

  -- No section that is for the user is more specific than a level.
  abbrev pub none_above : LevelType → List LevelValue → Bool
  none_above l [] = true
  none_above l (lv ∷ rest) =
      not (applies groups u lv.level && ltb (rank l) (rank lv.level.type)) && none_above l rest

  pub skips-true :
      (s : LevelType) (l : Level)
      → skips groups u s l ≡ true
      → (applies groups u l ≡ false) ⊎ (rank l.type < rank s)
  unfolding skips
  skips-true s l e = ground arith

  pub skips-false :
      (s : LevelType) (l : Level)
      → skips groups u s l ≡ false
      → (applies groups u l ≡ true) × (rank s ≤ rank l.type)
  unfolding skips
  skips-false s l e = ground arith

  -- What a section has for the user at a level, and whether it is not more specific.
  abbrev pub has_at : LevelType → LevelValue → Option String
  has_at l lv =
      if applies groups u lv.level && rank lv.level.type == rank l
      then find name lv.values
      else none

  pub has_at-none :
      (l : LevelType) (lv : LevelValue)
      → (applies groups u lv.level ≡ false) ⊎ (rank lv.level.type ≢ rank l)
      → has_at l lv ≡ none
  has_at-none l lv h = ground arith

  pub has_at-find :
      (l : LevelType) (lv : LevelValue)
      → applies groups u lv.level ≡ true
      → rank lv.level.type ≡ rank l
      → has_at l lv ≡ find name lv.values
  has_at-find l lv a e = ground arith

  none_above-level :
      (l : LevelType) (lv : LevelValue) (rest : List LevelValue)
      → none_above l (lv ∷ rest) ≡ true
      → (none_above l rest ≡ true)
        × (applies groups u lv.level ≡ true → rank lv.level.type ≤ rank l)
  none_above-level l lv rest h = (ground arith, λ a. ground arith)

  search_levels-at :
      (lvs : List LevelValue) (l s : LevelType) (v : Option String)
      → none_above l lvs ≡ true
      → rank s ≡ rank l
      → search_levels groups name u lvs s v ≡ or_else (last_at l lvs) v
  unfolding search_levels
  search_levels-at [] l s v h e = refl
  search_levels-at (lv ∷ rest) l s v h e =
      let (later, below) = none_above-level l lv rest h in
      elim (Bool-cases (skips groups u s lv.level)) [
        | inl k ↦
            let n : has_at l lv ≡ none =
              has_at-none l lv (ground (arith, skips-true s lv.level k)) in
            rw (k, n, or_else-none) (search_levels-at rest l s v later e)
        | inr k ↦
            let (a, m) = skips-false s lv.level k in
            let q : rank lv.level.type ≡ rank l = omega (arith, below a) in
            rw (k, has_at-find l lv a q, or_else_assoc)
              (search_levels-at rest l lv.level.type (or_else (find name lv.values) v) later q)
      ]

  -- Whatever came before, the last value of the most specific level is found.
  search_levels-most_specific :
      (lvs : List LevelValue) (l s : LevelType) (v : Option String) (w : String)
      → none_above l lvs ≡ true
      → rank s ≤ rank l
      → last_at l lvs ≡ some w
      → search_levels groups name u lvs s v ≡ some w
  unfolding search_levels
  search_levels-most_specific [] l s v w h k e = absurd (ground arith)
  search_levels-most_specific (lv ∷ rest) l s v w h k e =
      let (later, below) = none_above-level l lv rest h in
      elim (Bool-cases (skips groups u s lv.level)) [
        | inl t ↦
            let n : has_at l lv ≡ none =
              has_at-none l lv (ground (arith, skips-true s lv.level t)) in
            rw t (search_levels-most_specific rest l s v w later k (rw (n, or_else-none) at e))
        | inr t ↦
            let (a, m) = skips-false s lv.level t in
            let next : Option String = or_else (find name lv.values) v in
            rw t (elim (Option-cases (last_at l rest)) [
              | inl f ↦
                  let here : has_at l lv ≡ some w = rw f at e in
                  let q : rank lv.level.type ≡ rank l = ground arith in
                  let found : find name lv.values ≡ some w = ground arith in
                  rw (search_levels-at rest l lv.level.type next later q, f, found) refl
              | inr (x, f) ↦
                  search_levels-most_specific rest l lv.level.type next w later (below a)
                    (rw f (rw f at e))
            ])
      ]

-- A user's value is the last one that the most specific sections for the user have, wherever they
-- stand in the file: if no section of a higher level is for the user, and the last section of the
-- level that is for the user and has a value has this one.
pub value_for_user-most_specific :
    (p : Profiles) (name : String) (u : User) (l : LevelType) (v : String)
    → none_above p.groups name u l p.level_values ≡ true
    → last_at p.groups name u l p.level_values ≡ some v
    → value_for_user p name u ≡ some v
unfolding value_for_user rank
value_for_user-most_specific p name u l v h e =
    search_levels-most_specific p.groups name u p.level_values l no_level none v h (omega arith) e
