-- ===== src/Conversations/Reads.antt =====
-- markasreadlogic.go with UpsertReadSeq: the read positions of the members of a conversation.
pub mod Forward
use maim.Common.{
  ℕ, min, max, Bool, true, false, Option, none, some, List, [], ◌∷◌, ◌++◌, Result, ok, err, ◌>>=◌,
  ◌>>◌, guard, or_fail, if◌then◌else◌, ◌==◌, ltb, find, exists, update, ℤ, pos_part, is_some,
}
use maim.Sequence
use maim.Conversations.Model.{
  Member, Room, ConvError, invalid_param, not_a_member, identity_error, by_user, read_updated,
}
use maim.Conversations.Channel.{publish_inbox_change}
use maim.Conversations.Permission.{validate_request}

pub record ReadSeq : Type 0 where
  pub id : ℕ
  pub user_id : ℕ
  pub last_read_seq : ℕ

abbrev pub reads_of : ℕ → ReadSeq → Bool
reads_of user s = s.user_id == user

-- INSERT ... ON CONFLICT DO UPDATE WHERE last_read_seq < EXCLUDED.last_read_seq. The position that is
-- stored then, and whether it is an advance.
unfoldable pub store_read_seq : ℕ → ℕ → ℕ → List ReadSeq → List ReadSeq × ℕ × Bool
store_read_seq id user seq reads = elim (find (reads_of user) reads) [
  | none ↦ (reads ++ record { id = id; user_id = user; last_read_seq = seq } ∷ [], seq, ltb 0 seq)
  | some old ↦
      if ltb old.last_read_seq seq
      then (update (reads_of user) (λ s. record s { last_read_seq = seq }) reads, seq, ltb 0 seq)
      else (reads, old.last_read_seq, false)
]

-- UpsertReadSeq: the position is cut to the conversation's last sequence. Without the conversation or
-- the membership there is no row to lock, which the handler reports as no membership.
unfoldable pub upsert_read_seq :
    ℕ → ℕ → ℤ → Room → List ReadSeq → Result ConvError (List ReadSeq × ℕ × Bool)
unfolding store_read_seq
upsert_read_seq id user seq r reads = do
  guard (is_some r.conv) not_a_member
  guard (exists (by_user user) r.members) not_a_member
  ok (store_read_seq id user (min (max (pos_part seq) 0) r.channel.max_seq) reads)

abbrev pub is_valid_sequence : ℤ → Result ConvError (Unit {0})
is_valid_sequence seq = elim (Sequence.validate seq) [ ok u ↦ ok tt | err e ↦ err invalid_param ]

-- `new_id` is what identity.New returns for the row, and `event_id` for the event.
unfoldable pub mark_as_read :
    (ℕ → Bool)
    → Option ℕ
    → (ℕ → Option ℕ)
    → ℕ
    → ℕ
    → ℕ
    → ℤ
    → Room
    → List ReadSeq
    → Result ConvError (Room × List ReadSeq)
unfolding upsert_read_seq
mark_as_read valid new_id event_id caller user conv_id seq r reads = do
  validate_request valid caller user (conv_id ∷ [])
  is_valid_sequence seq
  id ← or_fail new_id identity_error
  (reads', last, advanced) ← upsert_read_seq id caller seq r reads
  ch ←
      if advanced
      then publish_inbox_change event_id (read_updated caller last) r.channel
      else ok r.channel
  ok (record r { channel = ch }, reads')
