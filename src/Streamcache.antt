-- ===== src/Streamcache.antt =====
-- The cache of the chunks of a streamed answer, realtime-service's streamcache.go, with its Redis
-- script: a list of chunks for each recipient and stream, which is gone from its expiry on,
-- a millisecond sooner than in Redis. `valid` is
-- identity.Validate and `decode` what json.Unmarshal finds in a chunk's object. A key is the pair of
-- recipient and stream, since the text that cacheKey writes of them determines both. A failure of
-- Redis is not modelled.
pub mod Window
pub mod Scoped
use maim.Common.{
  ℕ, ◌+◌, Bool, true, false, ◌&&◌, not, Option, none, some, List, [], ◌∷◌, ◌++◌, Result, ok, err,
  ◌>>=◌, ◌>>◌, guard, or_fail, if◌then◌else◌, ◌==◌, ltb, find, delete, select, length, ℤ, negsuc,
  ltb_ℤ,
}
use maim.Sequence
use maim.Sequence.Json

-- A message of the wire, in bytes.
abbrev pub Raw : Type 0
Raw = List ℕ

-- The raw fields of the object. An absent position has no bytes.
pub record Payload : Type 0 where
  pub kind : List ℕ
  pub stream_id : ℕ
  pub seq : List ℕ

pub record ChunkMsg : Type 0 where
  pub kind : List ℕ
  pub stream_id : ℕ
  pub seq : ℤ

pub record Config : Type 0 where
  pub enabled : Bool
  pub ttl : ℕ
  pub max_chunks_per_stream : ℕ

-- A key of Redis with its list and its expiry.
pub record StreamRow : Type 0 where
  pub user : ℕ
  pub stream : ℕ
  pub chunks : List Raw
  pub expires : ℕ

pub data CacheError : Type 0 where
  invalid_identity invalid_chunk invalid_position : CacheError

abbrev pub of_stream : ℕ → ℕ → StreamRow → Bool
of_stream user stream row = row.user == user && row.stream == stream

abbrev pub listed : Option StreamRow → List Raw
listed none = []
listed (some row) = row.chunks

-- LRANGE over the whole list.
unfoldable pub chunks_at : ℕ → ℕ → ℕ → List StreamRow → List Raw
chunks_at now user stream rows =
    listed (find (λ row. of_stream user stream row && ltb now row.expires) rows)

-- RPUSH, if the list is shorter than its bound.
abbrev pub push : ℕ → Raw → List Raw → List Raw
push bound raw chunks = if ltb (length chunks) bound then chunks ++ raw ∷ [] else chunks

-- The key's list and its expiry. Redis has no key with an empty list.
unfoldable pub set_stream : ℕ → ℕ → ℕ → List Raw → List StreamRow → List StreamRow
set_stream user stream at [] rows = delete (of_stream user stream) rows
set_stream user stream at (c ∷ cs) rows =
    record { user = user; stream = stream; chunks = c ∷ cs; expires = at }
    ∷ delete (of_stream user stream) rows

-- storeScript: LLEN, RPUSH and PEXPIRE.
unfoldable pub store_script : ℕ → ℕ → ℕ → ℕ → ℕ → Raw → List StreamRow → List StreamRow
unfolding chunks_at set_stream
store_script now ttl bound user stream raw rows =
    set_stream user stream (now + ttl) (push bound raw (chunks_at now user stream rows)) rows

-- fromSeq of a request without a replay position.
abbrev pub is_omitted : ℤ → Bool
is_omitted from = not (ltb_ℤ from (negsuc 0)) && not (ltb_ℤ (negsuc 0) from)

-- What sequence.Validate accepts.
abbrev pub in_range : ℤ → Bool
in_range seq = elim (Sequence.validate seq) [ ok u ↦ true | err e ↦ false ]

-- strings.HasPrefix, on bytes.
abbrev pub has_prefix : List ℕ → List ℕ → Bool
has_prefix text [] = true
has_prefix [] (p ∷ ps) = false
has_prefix (t ∷ ts) (p ∷ ps) = t == p && has_prefix ts ps

-- "bot.streaming."
abbrev pub streaming_prefix : List ℕ
streaming_prefix =
    98 ∷ 111 ∷ 116 ∷ 46 ∷ 115 ∷ 116 ∷ 114 ∷ 101 ∷ 97 ∷ 109 ∷ 105 ∷ 110 ∷ 103 ∷ 46 ∷ []

-- "bot.streaming.done"
abbrev pub streaming_done : List ℕ
streaming_done = streaming_prefix ++ 100 ∷ 111 ∷ 110 ∷ 101 ∷ []

module _ (decode : Raw → Option Payload) where
  -- chunkMsg.UnmarshalJSON.
  unfoldable pub unmarshal : Raw → Result CacheError ChunkMsg
  unmarshal raw = do
    next ← or_fail (decode raw) invalid_chunk
    elim (Json.parse_json (next.seq)) [
      | ok value ↦ ok (record { kind = next.kind; stream_id = next.stream_id; seq = value })
      | err e ↦ err invalid_chunk
    ]

  -- The stream of a message that is to be cached, and whether it is the stream's last.
  unfoldable pub should_cache : Raw → Option (ℕ × Bool)
  unfolding unmarshal
  should_cache raw = elim (unmarshal raw) [
    | err e ↦ none
    | ok m ↦
        if in_range m.seq && not (m.stream_id == 0) && has_prefix m.kind streaming_prefix
        then some
            (m.stream_id, has_prefix m.kind streaming_done && has_prefix streaming_done m.kind)
        else none
  ]

  -- The chunks that a replay shows.
  unfoldable pub is_after : ℤ → Raw → Bool
  unfolding unmarshal
  is_after from raw = elim (unmarshal raw) [
    | err e ↦ false
    | ok m ↦ in_range m.seq && ltb_ℤ from m.seq
  ]

  module _ (valid : ℕ → Bool) (cfg : Config) where
    unfoldable pub store :
        ℕ → ℕ → ℕ → Raw → Bool → List StreamRow → Result CacheError (List StreamRow)
    unfolding unmarshal store_script
    store now user stream raw done rows = do
      guard (valid user) invalid_identity
      chunk ← unmarshal raw
      guard (in_range chunk.seq) invalid_position
      if cfg.enabled
          then ok (store_script now cfg.ttl cfg.max_chunks_per_stream user stream raw rows)
          else ok rows

    unfoldable pub replay : ℕ → ℕ → ℕ → ℤ → List StreamRow → Result CacheError (List Raw)
    unfolding chunks_at is_after
    replay now user stream from rows = do
      guard (valid user) invalid_identity
      guard (if is_omitted from then true else in_range from) invalid_position
      if cfg.enabled then ok (select (is_after from) (chunks_at now user stream rows)) else ok []
