-- ===== src/Api/Stream/Sequences.antt =====
-- sdk/src/api/stream/AbstractMultiStream.cpp: one stream for several requests, each of which has its
-- own sequence of response numbers. A `std::set` of request IDs is the list of its elements.
pub mod Entries
pub mod Numbers
use rstudio_launcher_plugin.Base.{
  ℕ, ◌+◌, ◌%◌, ◌^◌, Option, none, some, List, [], ◌∷◌, ◌++◌, Bool, true, false, nat_key, ◌==◌, Map,
  find, insert, erase, if◌then◌else◌,
}

abbrev pub StreamSequences : Type 0
StreamSequences = List (ℕ × ℕ)

-- `Impl::Sequences`, and the responses that the stream has sent, each with its data of type `A`.
pub record MultiStream (A : Type 0) : Type 0 where
  pub sequences : Map ℕ ℕ
  pub sent : List (StreamSequences × A)

-- `Impl::addRequest`.
unfoldable pub add_sequence : ℕ → Map ℕ ℕ → Map ℕ ℕ
add_sequence id m = elim (find id m) [ none ↦ insert id 1 m | some k ↦ m ]

-- `++` on a `uint64_t`.
unfoldable pub increment : ℕ → ℕ
increment k = (k + 1) % 2 ^ 64

-- `Impl::getSequences()`: what it returns, and the sequences afterwards.
unfoldable pub all_sequences : Map ℕ ℕ → StreamSequences × Map ℕ ℕ
unfolding increment
all_sequences [] = ([], [])
all_sequences ((id, k) ∷ m) =
    let (sequences, m') = all_sequences m in ((id, k) ∷ sequences, (id, increment k) ∷ m')

-- `Impl::getSequences(in_requestIds)`.
unfoldable pub some_sequences : List ℕ → Map ℕ ℕ → StreamSequences × Map ℕ ℕ
unfolding increment
some_sequences [] m = ([], m)
some_sequences (id ∷ ids) m = elim (find id m) [
  | none ↦ some_sequences ids m
  | some k ↦
      let (sequences, m') = some_sequences ids (insert id (increment k) m) in
      ((id, k) ∷ sequences, m')
]

-- `Impl::removeRequest`.
unfoldable pub remove_sequence : ℕ → Map ℕ ℕ → Map ℕ ℕ
remove_sequence id m = elim (find id m) [ none ↦ m | some k ↦ erase id m ]

-- `onAddRequest`.
unfoldable pub on_add_request : {A : Type 0} → ℕ → MultiStream A → MultiStream A
unfolding add_sequence
on_add_request id s = record s { sequences = add_sequence id s.sequences }

-- `onRemoveRequest`.
unfoldable pub on_remove_request : {A : Type 0} → ℕ → MultiStream A → MultiStream A
unfolding remove_sequence
on_remove_request id s = record s { sequences = remove_sequence id s.sequences }

-- A response goes out unless no request would get it.
unfoldable pub send_to :
    {A : Type 0} → StreamSequences × Map ℕ ℕ → A → MultiStream A → MultiStream A
send_to ([], m) a s = record s { sequences = m }
send_to (q ∷ qs, m) a s = record { sequences = m; sent = s.sent ++ (q ∷ qs, a) ∷ [] }

-- `sendResponse(in_responseArgs)`.
unfoldable pub send_response_all : {A : Type 0} → A → MultiStream A → MultiStream A
unfolding all_sequences send_to
send_response_all a s = send_to (all_sequences s.sequences) a s

-- `sendResponse(in_requestIds, in_responseArgs)`.
unfoldable pub send_response : {A : Type 0} → List ℕ → A → MultiStream A → MultiStream A
unfolding some_sequences send_to
send_response ids a s = send_to (some_sequences ids s.sequences) a s

-- `isEmpty`.
unfoldable pub is_empty_stream : {A : Type 0} → MultiStream A → Bool
is_empty_stream s = elim s.sequences [ [] ↦ true | q ∷ qs ↦ false ]
