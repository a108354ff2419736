-- ===== src/Fanout/Event.antt =====
-- InboxChangeEvent of pkg/event/event.go: what the consumer reads of a payload, the texts aside.
use maim.Common.{ℕ, Bool, Option, none, some, List, [], ◌∷◌, Result, ok, err, ◌>>◌, guard, ℤ, pos}
use maim.Sequence
use maim.Inbox.Model.{InboxKind, conversation_upsert, conversation_removed, read_updated}
use maim.Conversations.Model
use maim.Conversations.Model.{Event, Change, MessageChange}
use maim.Conversations.Permission.{all_valid}

pub record InboxChangeEvent : Type 0 where
  pub change_id : ℕ
  pub kind : InboxKind
  pub recipient_ids : List ℕ
  pub user_id : Option ℕ
  pub last_read_seq : ℤ
  pub message_id : Option ℕ
  pub conv_id : ℕ
  pub sender_id : Option ℕ
  pub seq : ℤ
  pub publication_sequence : ℤ
  pub reply_to_msg_id : Option ℕ

pub data EventError : Type 0 where
  invalid_identity invalid_sequence : EventError
  no_publication_sequence no_user unknown_kind_error no_message batch_insert_failed : EventError
  send_failed : EventError

abbrev pub given : Option ℕ → List ℕ
given none = []
given (some i) = i ∷ []

abbrev pub check_sequence : ℤ → Result EventError (Unit {0})
check_sequence s = elim (Sequence.validate s) [ ok u ↦ ok tt | err e ↦ err invalid_sequence ]

-- Validate. `valid` is identity.Validate.
unfoldable pub validate : (ℕ → Bool) → InboxChangeEvent → Result EventError (Unit {0})
validate valid evt = do
  guard (all_valid valid (evt.change_id ∷ evt.conv_id ∷ [])) invalid_identity
  guard (all_valid valid evt.recipient_ids) invalid_identity
  guard (all_valid valid (given evt.user_id)) invalid_identity
  guard (all_valid valid (given evt.message_id)) invalid_identity
  guard (all_valid valid (given evt.sender_id)) invalid_identity
  guard (all_valid valid (given evt.reply_to_msg_id)) invalid_identity
  check_sequence evt.seq
  check_sequence evt.last_read_seq
  check_sequence evt.publication_sequence

-- A payload with the fields that every change has.
abbrev pub plain_event : ℕ → Event → InboxKind → List ℕ → InboxChangeEvent
plain_event conv_id e kind recipients = record {
  change_id = e.id;
  kind = kind;
  recipient_ids = recipients;
  user_id = none;
  last_read_seq = pos 0;
  message_id = none;
  conv_id = conv_id;
  sender_id = none;
  seq = pos 0;
  publication_sequence = pos e.publication_sequence;
  reply_to_msg_id = none;
}

abbrev pub message_event : ℕ → Event → MessageChange → InboxChangeEvent
message_event conv_id e c = record (plain_event conv_id e c.kind c.recipient_ids) {
  user_id = c.user_id;
  message_id = some c.message_id;
  sender_id = c.sender_id;
  seq = pos c.seq;
  reply_to_msg_id = c.reply_to_msg_id;
}

-- The payload that PublishInboxChange made for a row of the outbox. The activities of bots have other
-- topics, and no payload of this kind.
unfoldable pub payload_of : ℕ → Event → Option InboxChangeEvent
payload_of conv_id e = elim e.change [
  | Model.upserted us ↦ some (plain_event conv_id e conversation_upsert us)
  | Model.removed us ↦ some (plain_event conv_id e conversation_removed us)
  | Model.read_updated user p ↦ some (record (plain_event conv_id e read_updated []) {
    user_id = some user;
    last_read_seq = pos p;
  })
  | Model.message_changed c ↦ some (message_event conv_id e c)
  | Model.member_joined user p ↦ none
  | Model.member_left user p ↦ none
]
