-- ===== src/Api/Responses/Numbering.antt =====
-- The IDs of responses.
use rstudio_launcher_plugin.Base.{
  ℕ, zero, suc, ◌+◌, ◌%◌, ◌^◌, ◌≡◌, refl, arith, Bool, true, false, List, [], ◌∷◌, if◌then◌else◌,
  Bool-cases, nat_beq, ◌<◌, inl, inr,
}
use rstudio_launcher_plugin.Api.Responses.{Body, Response, new_response, is_numbered, type_of}

-- The responses that are made one after the other, for the given requests.
pub new_responses : List (Body × ℕ) → ℕ → List Response
new_responses [] next = []
new_responses ((body, request) ∷ rest) next =
    let (r, next') = new_response body request next in r ∷ new_responses rest next'

-- The IDs of the responses that are numbered.
abbrev pub own_ids : List Response → List ℕ
own_ids [] = []
own_ids (r ∷ rest) =
    let ids = own_ids rest in if is_numbered (type_of r.body) then r.response_id ∷ ids else ids

abbrev pub count_from : ℕ → ℕ → List ℕ
count_from n zero = []
count_from n (suc k) = n ∷ count_from (n + 1) k

abbrev pub all_zero : List Response → Bool
all_zero [] = true
all_zero (r ∷ rest) =
    let others = all_zero rest in
    if is_numbered (type_of r.body)
    then others
    else (if nat_beq r.response_id 0 then others else false)

-- How many responses are numbered.
abbrev pub counted : List (Body × ℕ) → ℕ
counted [] = 0
counted ((body, request) ∷ made) =
    let others = counted made in if is_numbered (type_of body) then suc others else others

-- The responses that are made one after the other have IDs that follow one another, as long as a
-- `uint64_t` can count them; errors and heartbeats, which are not numbered, all have the ID 0.
pub new_responses-count_from :
    (made : List (Body × ℕ)) (next : ℕ)
    → next + counted made < 2 ^ 64
    → (own_ids (new_responses made next) ≡ count_from next (counted made))
      × (all_zero (new_responses made next) ≡ true)
unfolding new_responses new_response
new_responses-count_from [] next h = (refl, refl)
new_responses-count_from ((body, request) ∷ made) next h =
    elim (Bool-cases (is_numbered (type_of body))) [
      | inl e ↦
          let h' : next + suc (counted made) < 2 ^ 64 = rw e at h in
          let q : (next + 1) % 2 ^ 64 ≡ next + 1 = omega arith in
          let (ids, zeros) = new_responses-count_from made (next + 1) (omega arith) in
          rw (new_response, e, q) (rw e (rw ids refl, zeros))
      | inr e ↦
          let (ids, zeros) = new_responses-count_from made next (rw e at h) in
          rw (new_response, e) (rw e (ids, zeros))
    ]
