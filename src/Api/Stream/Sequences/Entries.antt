-- ===== src/Api/Stream/Sequences/Entries.antt =====
-- sdk/src/api/stream/AbstractMultiStream.cpp: what happens to one request's entry.
use rstudio_launcher_plugin.Base.{
  ℕ, zero, suc, ◌≡◌, refl, inl, inr, arith, Option, none, some, List, [], ◌∷◌, ◌++◌, Bool, true,
  false, not, ◌&&◌, nat_key, ◌==◌, Map, find, insert, has_key, distinct, find-insert,
  distinct-insert, if◌then◌else◌, contains, Option-cases,
}
use rstudio_launcher_plugin.Api.Stream.Sequences.{
  StreamSequences, increment, all_sequences, some_sequences,
}

-- The numbers that are meant for one request.
unfoldable pub numbers_for : ℕ → StreamSequences → List ℕ
numbers_for id [] = []
numbers_for id ((i, k) ∷ qs) = if i == id then k ∷ numbers_for id qs else numbers_for id qs

unfoldable pub delivered : {A : Type 0} → ℕ → List (StreamSequences × A) → List ℕ
delivered id [] = []
delivered id ((qs, a) ∷ sent) = numbers_for id qs ++ delivered id sent

-- `k`, `k + 1` and so on: `n` numbers.
abbrev pub count_from : ℕ → ℕ → List ℕ
count_from k zero = []
count_from k (suc n) = k ∷ count_from (suc k) n

abbrev pub no_repeats : List ℕ → Bool
no_repeats [] = true
no_repeats (x ∷ xs) = not (contains xs x) && no_repeats xs

-- The number that a request would get.
unfoldable pub number : Option ℕ → List ℕ
number none = []
number (some k) = k ∷ []

has_key-find : (id : ℕ) (m : Map ℕ ℕ) → has_key id m ≡ false → find id m ≡ none
unfolding has_key find
has_key-find id [] e = refl
has_key-find id ((j, k) ∷ m) e = ground (arith, has_key-find id m)

has_key-all : (id : ℕ) (m : Map ℕ ℕ) → has_key id (all_sequences m).1 ≡ has_key id m
unfolding has_key all_sequences
has_key-all id [] = refl
has_key-all id ((j, k) ∷ m) = ground (arith, has_key-all id m)

pub distinct-all : (m : Map ℕ ℕ) → distinct m ≡ true → distinct (all_sequences m).1 ≡ true
unfolding distinct all_sequences
distinct-all [] d = refl
distinct-all ((j, k) ∷ m) d = ground (arith, has_key-all j m, distinct-all m)

unfoldable pub next_number : Option ℕ → Option ℕ
next_number none = none
next_number (some k) = some (increment k)

pub find-all : (id : ℕ) (m : Map ℕ ℕ) → find id (all_sequences m).1 ≡ next_number (find id m)
unfolding find all_sequences next_number
find-all id [] = refl
find-all id ((j, k) ∷ m) = ground (arith, find-all id m)

pub numbers-all :
    (id : ℕ) (m : Map ℕ ℕ)
    → distinct m ≡ true
    → numbers_for id (all_sequences m).0 ≡ number (find id m)
unfolding find all_sequences number distinct numbers_for
numbers-all id [] d = refl
numbers-all id ((j, k) ∷ m) d = ground (arith, numbers-all id m, has_key-find id m)

pub distinct-some :
    (ids : List ℕ) (m : Map ℕ ℕ) → distinct m ≡ true → distinct (some_sequences ids m).1 ≡ true
unfolding some_sequences
distinct-some [] m d = d
distinct-some (i ∷ ids) m d = elim (Option-cases (find i m)) [
  | inl e ↦ rw (some_sequences, e) (distinct-some ids m d)
  | inr (k, e) ↦
      rw (some_sequences, e)
        (distinct-some ids (insert i (increment k) m) (distinct-insert i (increment k) m d))
]

-- A request that is not in the set gets no number and keeps its next one; one that is gets its next.
pub some_lem :
    (id : ℕ) (ids : List ℕ) (m : Map ℕ ℕ)
    → no_repeats ids ≡ true
    → (numbers_for id (some_sequences ids m).0
        ≡ (if contains ids id then number (find id m) else []))
      × (find id (some_sequences ids m).1
          ≡ (if contains ids id then next_number (find id m) else find id m))
unfolding some_sequences numbers_for number next_number
some_lem id [] m n = (refl, refl)
some_lem id (i ∷ ids) m n = elim (Option-cases (find i m)) [
  | inl e ↦
      rw (some_sequences, e) (let (h, g) = some_lem id ids m (ground arith) in ground (arith, h, g))
  | inr (k, e) ↦
      rw (some_sequences, e)
        (let (h, g) = some_lem id ids (insert i (increment k) m) (ground arith) in
          ground (arith, h, g, find-insert i id (increment k) m))
]
