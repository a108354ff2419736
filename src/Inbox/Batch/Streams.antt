-- ===== src/Inbox/Batch/Streams.antt =====
-- The stream rows that BatchInsert makes, locks and writes back.
use maim.Common.{
  ℕ, ◌≡◌, refl, inl, inr, true, List, [], ◌∷◌, Memᴰ, arith, Bool-cases, All, exists, exists-append,
  exists-update, exists-mem, UniqueKeys, UniqueKeys-update, UniqueKeys-append, update_same,
}
use maim.Inbox.Model.{InboxStream, stream_key}
use maim.Inbox.Batch.{create_stream, create_streams, save_stream, save_streams}

-- The user has a row.
abbrev pub HasStream : List InboxStream → ℕ → Type 0
HasStream table u = exists (stream_key u) table ≡ true

create_stream-keeps :
    (v u : ℕ) (table : List InboxStream) → HasStream table u → HasStream (create_stream v table) u
unfolding create_stream
create_stream-keeps v u table h = ground (
  arith,
  exists-append (stream_key u) table
      (record { user_id = v; position = 0; retained_position = 0 } ∷ []),
)

create_stream_self : (u : ℕ) (table : List InboxStream) → HasStream (create_stream u table) u
unfolding create_stream
create_stream_self u table = ground (
  arith,
  exists-append (stream_key u) table
      (record { user_id = u; position = 0; retained_position = 0 } ∷ []),
)

create_streams-keeps :
    (us : List ℕ) (table : List InboxStream) (u : ℕ)
    → HasStream table u
    → HasStream (create_streams us table) u
unfolding create_streams
create_streams-keeps [] table u h = h
create_streams-keeps (v ∷ us) table u h =
    create_streams-keeps us (create_stream v table) u (create_stream-keeps v u table h)

-- Every user of the list has a row afterwards.
pub create_streams-All :
    (us : List ℕ) (table : List InboxStream) → All (HasStream (create_streams us table)) us
unfolding create_streams
create_streams-All [] table = tt
create_streams-All (v ∷ us) table = (
  create_streams-keeps us (create_stream v table) v (create_stream_self v table),
  create_streams-All us (create_stream v table),
)

-- Where every user has a row, none is made.
pub create_streams_again :
    (us : List ℕ) (table : List InboxStream)
    → All (HasStream table) us
    → create_streams us table ≡ table
unfolding create_streams create_stream
create_streams_again [] table h = refl
create_streams_again (u ∷ us) table h = rw h.0 (create_streams_again us table h.1)

create_stream-UniqueKeys :
    (u : ℕ) (table : List InboxStream)
    → UniqueKeys (λ s. s.user_id) table
    → UniqueKeys (λ s. s.user_id) (create_stream u table)
unfolding create_stream
create_stream-UniqueKeys u table h = elim (Bool-cases (exists (stream_key u) table)) [
  | inl t ↦ rw t h
  | inr f ↦ rw f (UniqueKeys-append (λ s. s.user_id) table _ f h)
]

pub create_streams-UniqueKeys :
    (us : List ℕ) (table : List InboxStream)
    → UniqueKeys (λ s. s.user_id) table
    → UniqueKeys (λ s. s.user_id) (create_streams us table)
unfolding create_streams
create_streams-UniqueKeys [] table h = h
create_streams-UniqueKeys (u ∷ us) table h =
    create_streams-UniqueKeys us (create_stream u table) (create_stream-UniqueKeys u table h)

save_stream-keeps :
    (s : InboxStream) (table : List InboxStream) (u : ℕ)
    → HasStream table u
    → HasStream (save_stream s table) u
unfolding save_stream
save_stream-keeps s table u h = ground (
  arith,
  exists-append (stream_key u) table (s ∷ []),
  exists-update (stream_key u) (stream_key s.user_id) (λ r. record r { position = s.position })
      table (λ a. refl),
)

pub save_streams-keeps :
    (ss table : List InboxStream) (u : ℕ) → HasStream table u → HasStream (save_streams ss table) u
unfolding save_streams
save_streams-keeps [] table u h = h
save_streams-keeps (s ∷ ss) table u h =
    save_streams-keeps ss (save_stream s table) u (save_stream-keeps s table u h)

save_stream-UniqueKeys :
    (s : InboxStream) (table : List InboxStream)
    → UniqueKeys (λ s. s.user_id) table
    → UniqueKeys (λ s. s.user_id) (save_stream s table)
unfolding save_stream
save_stream-UniqueKeys s table h = elim (Bool-cases (exists (stream_key s.user_id) table)) [
  | inl t ↦ rw t (
      UniqueKeys-update (λ s. s.user_id) (stream_key s.user_id)
        (λ r. record r { position = s.position }) table (λ a. refl) h)
  | inr f ↦ rw f (UniqueKeys-append (λ s. s.user_id) table s f h)
]

pub save_streams-UniqueKeys :
    (ss table : List InboxStream)
    → UniqueKeys (λ s. s.user_id) table
    → UniqueKeys (λ s. s.user_id) (save_streams ss table)
unfolding save_streams
save_streams-UniqueKeys [] table h = h
save_streams-UniqueKeys (s ∷ ss) table h =
    save_streams-UniqueKeys ss (save_stream s table) (save_stream-UniqueKeys s table h)

-- Rows of the table written back change nothing.
pub save_streams_same :
    (ss table : List InboxStream)
    → UniqueKeys (λ s. s.user_id) table
    → All (λ s. Memᴰ s table) ss
    → save_streams ss table ≡ table
unfolding save_streams save_stream
save_streams_same [] table u h = refl
save_streams_same (s ∷ ss) table u h = rw (exists-mem (λ r. r.user_id) s.user_id table s h.0 refl) (
    rw (update_same (λ r. r.user_id) (λ r. record r { position = s.position }) table s u h.0 refl)
      (save_streams_same ss table u h.1))
