-- ===== src/Conversations/Channel.antt =====
-- publishConversationChange and publishBotActivity of helper.go, with PublishInboxChange of
-- internal/svc/inbox_change.go and NextSeq of internal/repo/sequence_repo.go. `new_id` is what
-- identity.New returns for the event of a publication sequence, none for its error.
use maim.Common.{
  ℕ, ◌+◌, Bool, true, false, Option, none, some, List, [], ◌∷◌, ◌++◌, Result, ok, err, ◌>>=◌,
  or_fail, if◌then◌else◌, ltb, pos, pos_part, sort_by, map,
}
use maim.Sequence
use maim.Sequence.{max_sequence}
use maim.Conversations.Model.{
  Member, Change, upserted, removed, Channel, ConvError, sequence_exhausted, identity_error,
}

-- INSERT ... ON CONFLICT DO UPDATE SET current_seq + 1 WHERE current_seq < Max RETURNING.
unfoldable pub next_seq : Option ℕ → Result ConvError ℕ
next_seq none = ok 1
next_seq (some n) = if ltb n max_sequence then ok (n + 1) else err sequence_exhausted

abbrev pub next_publication : Channel → Result ConvError ℕ
next_publication ch = elim (Sequence.next (pos ch.publication_sequence)) [
  | ok p ↦ ok (pos_part p)
  | err e ↦ err sequence_exhausted
]

unfoldable pub publish_inbox_change : (ℕ → Option ℕ) → Change → Channel → Result ConvError Channel
publish_inbox_change new_id change ch = do
  next ← next_publication ch
  id ← or_fail (new_id next) identity_error
  ok (record ch {
    publication_sequence = next;
    outbox = ch.outbox ++ record { id = id; publication_sequence = next; change = change } ∷ [];
  })

-- The activity of a user, by its sequence in the conversation.
unfoldable pub publish_bot_activity :
    (ℕ → Option ℕ) → (ℕ → Change) → Channel → Result ConvError Channel
unfolding next_seq
publish_bot_activity new_id activity ch = do
  seq ← next_seq ch.current_seq
  next ← next_publication ch
  id ← or_fail (new_id next) identity_error
  ok (record {
    current_seq = some seq;
    max_seq = seq;
    publication_sequence = next;
    outbox =
        ch.outbox ++ record { id = id; publication_sequence = next; change = activity seq } ∷ [];
  })

abbrev pub is_nil : List ℕ → Bool
is_nil [] = true
is_nil (u ∷ us) = false

-- SELECT user_id ... ORDER BY user_id.
abbrev pub recipients_of : List Member → List ℕ
recipients_of ms = map (λ (m : Member). m.user_id) (sort_by (λ (m : Member). m.user_id) ms)

unfoldable pub publish_conversation_change :
    (ℕ → Option ℕ) → List ℕ → List ℕ → Channel → Result ConvError Channel
unfolding publish_inbox_change
publish_conversation_change new_id recipients gone ch = do
  ch' ← if is_nil recipients then ok ch else publish_inbox_change new_id (upserted recipients) ch
  if is_nil gone then ok ch' else publish_inbox_change new_id (removed gone) ch'
