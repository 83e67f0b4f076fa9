-- ===== src/Options/UserProfiles/Lookup/Sorted.antt =====
-- A file whose sections go from the general to the specific.
use rstudio_launcher_plugin.Base.{
  ℕ, ◌≡◌, ◌≢◌, ◌≤◌, ◌<◌, ◌⊎◌, inl, inr, refl, ◌∙◌, arith, Bool, true, false, ◌&&◌, Option, none,
  List, [], ◌∷◌, String, string_key, nat_key, Map, find, leb, Bool-cases,
}
use rstudio_launcher_plugin.Api.User.{User}
use rstudio_launcher_plugin.Options.UserProfiles.{
  LevelType, no_level, all_level, group_level, user_level, rank, LevelValue, Group, Profiles,
  applies, or_else, skips, search_levels, value_for_user,
}
use rstudio_launcher_plugin.Options.UserProfiles.Lookup.{
  last_at, skips-true, skips-false, has_at, has_at-none, has_at-find, or_else-none, or_else_assoc,
}

module _ (groups : Map String Group) (name : String) (u : User) where
  -- The sections go from the general to the specific.
  abbrev pub sorted_from : ℕ → List LevelValue → Bool
  sorted_from n [] = true
  sorted_from n (lv ∷ rest) = leb n (rank lv.level.type) && sorted_from (rank lv.level.type) rest

  sorted_from-level :
      (n : ℕ) (lv : LevelValue) (rest : List LevelValue)
      → sorted_from n (lv ∷ rest) ≡ true
      → (n ≤ rank lv.level.type) × (sorted_from (rank lv.level.type) rest ≡ true)
  sorted_from-level n lv rest h = (ground arith, ground arith)

  last_at-sorted_from :
      (lvs : List LevelValue) (l : LevelType) (n : ℕ)
      → sorted_from n lvs ≡ true
      → rank l < n
      → last_at groups name u l lvs ≡ none
  last_at-sorted_from [] l n h k = refl
  last_at-sorted_from (lv ∷ rest) l n h k =
      let (m, later) = sorted_from-level n lv rest h in
      rw
        (
          last_at-sorted_from rest l (rank lv.level.type) later (omega arith),
          has_at-none groups name u l lv (inr (λ e. absurd (omega arith))),
        )
        refl

  -- The values by level, from the specific to the general.
  abbrev pub by_level : List LevelValue → Option String → Option String
  by_level lvs v = or_else (last_at groups name u user_level lvs) (
      or_else (last_at groups name u group_level lvs)
        (or_else (last_at groups name u all_level lvs) v))

  rank_values : (rank all_level ≡ 1) × (rank group_level ≡ 2) × (rank user_level ≡ 3)
  unfolding rank
  rank_values = (refl, refl, refl)

  rank-le : (l : LevelType) → rank l ≤ 3
  unfolding rank
  rank-le no_level = omega arith
  rank-le all_level = omega arith
  rank-le group_level = omega arith
  rank-le user_level = omega arith

  -- A section for the user is the last one of its level before more specific ones.
  by_level-cons :
      (lv : LevelValue) (rest : List LevelValue) (v : Option String)
      → applies groups u lv.level ≡ true
      → 1 ≤ rank lv.level.type
      → sorted_from (rank lv.level.type) rest ≡ true
      → by_level (lv ∷ rest) v ≡ by_level rest (or_else (find name lv.values) v)
  by_level-cons lv rest v a n h = elim (levels (rank lv.level.type) n (rank-le lv.level.type)) [
    | inl e ↦
        rw
          (
            has_at-find groups name u all_level lv a (omega (arith, rank_values)),
            other user_level (λ f. omega (arith, rank_values)),
            other group_level (λ f. omega (arith, rank_values)),
            or_else-none (last_at groups name u user_level rest),
            or_else-none (last_at groups name u group_level rest),
            or_else_assoc (last_at groups name u all_level rest) (find name lv.values) v,
          )
          refl
    | inr (inl e) ↦
        rw
          (
            has_at-find groups name u group_level lv a (omega (arith, rank_values)),
            other user_level (λ f. omega (arith, rank_values)),
            other all_level (λ f. omega (arith, rank_values)),
            below all_level (omega (arith, rank_values)),
            or_else-none (last_at groups name u user_level rest),
            or_else_assoc (last_at groups name u group_level rest) (find name lv.values) v,
          )
          refl
    | inr (inr e) ↦
        rw
          (
            has_at-find groups name u user_level lv a (omega (arith, rank_values)),
            other group_level (λ f. omega (arith, rank_values)),
            other all_level (λ f. omega (arith, rank_values)),
            below all_level (omega (arith, rank_values)),
            below group_level (omega (arith, rank_values)),
            or_else_assoc (last_at groups name u user_level rest) (find name lv.values) v,
          )
          refl
  ]
    where
      levels : (k : ℕ) → 1 ≤ k → k ≤ 3 → (k ≡ 1) ⊎ ((k ≡ 2) ⊎ (k ≡ 3))
      levels k p q = ground arith

      other : (l : LevelType) → rank lv.level.type ≢ rank l → has_at groups name u l lv ≡ none
      other l d = has_at-none groups name u l lv (inr d)

      below : (l : LevelType) → rank l < rank lv.level.type → last_at groups name u l rest ≡ none
      below l d = last_at-sorted_from rest l (rank lv.level.type) h d

  search_levels-sorted_from :
      (lvs : List LevelValue) (s : LevelType) (n : ℕ) (v : Option String)
      → sorted_from n lvs ≡ true
      → 1 ≤ n
      → rank s ≤ n
      → search_levels groups name u lvs s v ≡ by_level lvs v
  unfolding search_levels
  search_levels-sorted_from [] s n v h k m = refl
  search_levels-sorted_from (lv ∷ rest) s n v h k m =
      let (below, later) = sorted_from-level n lv rest h in
      elim (Bool-cases (skips groups u s lv.level)) [
        | inl t ↦
            let a : applies groups u lv.level ≡ false =
              ground (arith, skips-true groups name u s lv.level t) in
            rw
              (
                t,
                has_at-none groups name u user_level lv (inl a),
                has_at-none groups name u group_level lv (inl a),
                has_at-none groups name u all_level lv (inl a),
                or_else-none (last_at groups name u user_level rest),
                or_else-none (last_at groups name u group_level rest),
                or_else-none (last_at groups name u all_level rest),
              )
              (search_levels-sorted_from rest s (rank lv.level.type) v later (omega arith)
                (omega arith))
        | inr t ↦
            let (a, q) = skips-false groups name u s lv.level t in
            rw (t, by_level-cons lv rest v a (omega arith) later)
              (search_levels-sorted_from rest lv.level.type (rank lv.level.type)
                (or_else (find name lv.values) v) later (omega arith) (omega arith))
      ]

-- In a file whose sections go from all users over groups to single users, a user's value is the last
-- one of the user's own sections, or else of those of the user's groups, or else of those for all.
pub value_for_user-by_level :
    (p : Profiles) (name : String) (u : User)
    → sorted_from p.groups name u 1 p.level_values ≡ true
    → value_for_user p name u
      ≡ or_else (last_at p.groups name u user_level p.level_values) (
          or_else
            (last_at p.groups name u group_level p.level_values)
            (last_at p.groups name u all_level p.level_values))
unfolding value_for_user rank
value_for_user-by_level p name u h =
    search_levels-sorted_from p.groups name u p.level_values no_level 1 none h (omega arith)
      (omega arith)
    ∙ ground arith
