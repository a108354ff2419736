-- ===== src/Examples/Chunks.antt =====
-- The cache of streamed chunks: two recipients of one stream, and a stream with room for two chunks.
use maim.Common.{
  ℕ, ◌≤◌, ◌≡◌, refl, Bool, true, false, not, Option, none, some, List, [], ◌∷◌, ok, ◌==◌, All,
  length, pos, arith,
}
use maim.Sequence
use maim.Sequence.Json
use maim.Streamcache.{Raw, Payload, Config, replay, is_after, streaming_prefix}
use maim.Streamcache.Window.{Call, serves, replay-serves}
use maim.Streamcache.Scoped.{IsSentTo, replay-IsScoped}

-- The stream, and then the digits of the position.
abbrev decode_test : Raw → Option Payload
decode_test [] = none
decode_test (stream ∷ seq) =
    some (record { kind = streaming_prefix; stream_id = stream; seq = seq })

abbrev known : ℕ → Bool
known user = not (user == 0)

abbrev small : Config
small = record { enabled = true; ttl = 60; max_chunks_per_stream = 2 }

abbrev chunk : ℕ → ℕ → Raw → Call
chunk now user raw = record { now = now; user = user; stream = 7; raw = raw; done = false }

-- Positions 1, 2 and 3; one message has no position, and one is for another recipient.
abbrev sent : List Call
sent =
    chunk 100 1 (7 ∷ 49 ∷ [])
    ∷ chunk 110 1 (7 ∷ [])
    ∷ chunk 120 2 (7 ∷ 53 ∷ [])
    ∷ chunk 130 1 (7 ∷ 50 ∷ [])
    ∷ chunk 140 1 (7 ∷ 51 ∷ [])
    ∷ []

abbrev shown : List Raw
shown = (7 ∷ 50 ∷ []) ∷ []

replay-serves_example :
    replay decode_test known small 155 1 7 (pos 1) (serves decode_test known small sent [])
    ≡ ok shown
unfolding is_after Sequence.validate Json.parse_json
replay-serves_example =
    replay-serves decode_test known small 100 1 7 sent 155 (pos 1) refl refl
      (
        (omega arith, omega arith),
        (
          (omega arith, omega arith),
          (
            (omega arith, omega arith),
            ((omega arith, omega arith), ((omega arith, omega arith), tt)),
          ),
        ),
      )
      (omega arith) refl

replay-IsScoped_example :
    (length shown ≤ 2)
    × All (λ raw. IsSentTo sent 1 7 raw × (is_after decode_test (pos 1) raw ≡ true)) shown
replay-IsScoped_example =
    replay-IsScoped decode_test known small sent 155 1 7 (pos 1) shown replay-serves_example
