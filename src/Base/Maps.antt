-- ===== src/Base/Maps.antt =====
-- `std::map` as the list of its entries, in the order of the keys.
use mathlib.Core.Path.{◌≡◌, refl}
use mathlib.Core.Logic.{inl, inr}
use mathlib.Core.Bool.{Bool, true, false, not, ◌&&◌, ◌||◌}
use mathlib.Core.Option.{Option, none, some}
use mathlib.Core.List.{List, [], ◌∷◌}
use native.Mathlib.Omega.{arith}
use rstudio_launcher_plugin.Base.Tests.{Key, ◌==◌, if◌then◌else◌, Bool-cases}

abbrev pub Map {ℓ κ} : Type ℓ → Type κ → Type (ℓ ⊔ κ)
Map K V = List (K × V)

module _ {ℓ κ} {K : Type ℓ} ⦃key : Key K⦄ {V : Type κ} where
  unfoldable pub find : K → Map K V → Option V
  find k [] = none
  find k ((j, v) ∷ m) = if j == k then some v else find k m

  unfoldable pub has_key : K → Map K V → Bool
  has_key k [] = false
  has_key k ((j, v) ∷ m) = if j == k then true else has_key k m

  -- The entry of a key that is there gets another value.
  unfoldable pub overwrite : K → V → Map K V → Map K V
  overwrite k v [] = []
  overwrite k v ((j, w) ∷ m) = if j == k then (k, v) ∷ m else (j, w) ∷ overwrite k v m

  -- A key that is not there is put at its place.
  unfoldable pub place : K → V → Map K V → Map K V
  place k v [] = (k, v) ∷ []
  place k v ((j, w) ∷ m) = if key.less k j then (k, v) ∷ (j, w) ∷ m else (j, w) ∷ place k v m

  -- `m[k] = v`.
  unfoldable pub insert : K → V → Map K V → Map K V
  insert k v m = if has_key k m then overwrite k v m else place k v m

  unfoldable pub erase : K → Map K V → Map K V
  erase k [] = []
  erase k ((j, w) ∷ m) = if j == k then erase k m else (j, w) ∷ erase k m

  unfoldable pub values : Map K V → List V
  values [] = []
  values ((j, v) ∷ m) = v ∷ values m

  -- No key has two entries.
  unfoldable pub distinct : Map K V → Bool
  distinct [] = true
  distinct ((j, v) ∷ m) = not (has_key j m) && distinct m

  pub find-overwrite :
      (k j : K) (v : V) (m : Map K V)
      → has_key k m ≡ true
      → find j (overwrite k v m) ≡ (if k == j then some v else find j m)
  unfolding find overwrite has_key
  find-overwrite k j v [] h = absurd (ground arith)
  find-overwrite k j v ((i, w) ∷ m) h =
      ground (arith, key.beq_iff k j, key.beq_iff i k, key.beq_iff i j, find-overwrite k j v m)

  pub find-place :
      (k j : K) (v : V) (m : Map K V)
      → has_key k m ≡ false
      → find j (place k v m) ≡ (if k == j then some v else find j m)
  unfolding find place has_key
  find-place k j v [] h = refl
  find-place k j v ((i, w) ∷ m) h =
      ground (arith, key.beq_iff k j, key.beq_iff i k, key.beq_iff i j, find-place k j v m)

  pub find-insert :
      (k j : K) (v : V) (m : Map K V)
      → find j (insert k v m) ≡ (if k == j then some v else find j m)
  unfolding insert
  find-insert k j v m = elim (Bool-cases (has_key k m)) [
    | inl e ↦ rw e (find-overwrite k j v m e)
    | inr e ↦ rw e (find-place k j v m e)
  ]

  has_key-overwrite : (k j : K) (v : V) (m : Map K V) → has_key j (overwrite k v m) ≡ has_key j m
  unfolding overwrite has_key
  has_key-overwrite k j v [] = refl
  has_key-overwrite k j v ((i, w) ∷ m) =
      ground (arith, key.beq_iff k j, key.beq_iff i k, key.beq_iff i j, has_key-overwrite k j v m)

  has_key-place :
      (k j : K) (v : V) (m : Map K V) → has_key j (place k v m) ≡ (k == j || has_key j m)
  unfolding place has_key
  has_key-place k j v [] = ground arith
  has_key-place k j v ((i, w) ∷ m) = ground (arith, has_key-place k j v m)

  has_key-erase : (k j : K) (m : Map K V) → has_key j m ≡ false → has_key j (erase k m) ≡ false
  unfolding erase has_key
  has_key-erase k j [] h = refl
  has_key-erase k j ((i, w) ∷ m) h = ground (arith, has_key-erase k j m)

  distinct-overwrite :
      (k : K) (v : V) (m : Map K V) → distinct m ≡ true → distinct (overwrite k v m) ≡ true
  unfolding overwrite distinct
  distinct-overwrite k v [] h = refl
  distinct-overwrite k v ((i, w) ∷ m) h =
      ground (arith, key.beq_iff i k, has_key-overwrite k i v m, distinct-overwrite k v m)

  distinct-place :
      (k : K) (v : V) (m : Map K V)
      → has_key k m ≡ false
      → distinct m ≡ true
      → distinct (place k v m) ≡ true
  unfolding place distinct has_key
  distinct-place k v [] n h = ground arith
  distinct-place k v ((i, w) ∷ m) n h =
      ground (arith, key.beq_iff i k, key.beq_iff k i, has_key-place k i v m, distinct-place k v m)

  pub distinct-insert :
      (k : K) (v : V) (m : Map K V) → distinct m ≡ true → distinct (insert k v m) ≡ true
  unfolding insert
  distinct-insert k v m h = elim (Bool-cases (has_key k m)) [
    | inl e ↦ rw e (distinct-overwrite k v m h)
    | inr e ↦ rw e (distinct-place k v m e h)
  ]

  pub distinct-erase : (k : K) (m : Map K V) → distinct m ≡ true → distinct (erase k m) ≡ true
  unfolding erase distinct
  distinct-erase k [] h = refl
  distinct-erase k ((i, w) ∷ m) h = ground (arith, has_key-erase k i m, distinct-erase k m)

  pub find-erase :
      (k j : K) (m : Map K V) → find j (erase k m) ≡ (if k == j then none else find j m)
  unfolding find erase
  find-erase k j [] = ground arith
  find-erase k j ((i, w) ∷ m) =
      ground (arith, key.beq_iff k j, key.beq_iff i k, key.beq_iff i j, find-erase k j m)

  pub find-insert_self : (k : K) (v : V) (m : Map K V) → find k (insert k v m) ≡ some v
  find-insert_self k v m = ground (arith, find-insert k k v m, key.beq_iff k k)

  pub find-erase_self : (k : K) (m : Map K V) → find k (erase k m) ≡ none
  find-erase_self k m = ground (arith, find-erase k k m, key.beq_iff k k)

  -- Erasing what is not there changes nothing.
  pub erase-none : (k : K) (m : Map K V) → find k m ≡ none → erase k m ≡ m
  unfolding find erase
  erase-none k [] e = refl
  erase-none k ((i, w) ∷ m) e = ground (arith, erase-none k m)
