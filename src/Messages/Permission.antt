-- ===== src/Messages/Permission.antt =====
-- CheckSendPermission of conversation_repo.go, lockMutableMessage and publishMessageChange of
-- message_changes.go, callerUserID and requireCaller of caller.go, TouchLastMessage, and PublishInboxChange
-- with its snapshot of the recipients. `valid` is identity.Validate.
use maim.Common.{
  ℕ, Bool, true, false, not, Option, none, some, List, [], ◌∷◌, Result, ok, ◌>>=◌, ◌>>◌, guard,
  or_fail, if◌then◌else◌, ◌==◌, eq_opt, find, select, ℤ, pos, is_some, leb,
}
use maim.Inbox.Model.{InboxKind, message_new, message_recalled, message_deleted}
use maim.Conversations.Model.{ConvType, type_private, Member, message_changed, MessageChange, Room}
use maim.Conversations.Channel.{publish_inbox_change, recipients_of}
use maim.Conversations.Permission.{get_member}
use maim.Messages.Model.{
  Message, is_recalled, Preview, no_preview, recalled_preview, Thread, MessageError,
  user_id_missing, send_as_other_user, not_member, only_sender, record_not_found, internal,
  message_preview, by_id, internally,
}

pub record SendPermission : Type 0 where
  pub is_member : Bool
  pub is_muted : Bool
  pub is_muted_all : Bool
  pub mute_until : ℤ
  pub conversation_type : ConvType
  pub other_member_ids : List ℕ

abbrev pub is_private : ConvType → Bool
is_private type_private = true
is_private _ = false

-- WHERE user_id <> ? ORDER BY user_id.
abbrev pub others_of : ℕ → List Member → List ℕ
others_of actor ms = recipients_of (select (λ (m : Member). not (m.user_id == actor)) ms)

unfoldable pub check_send_permission : (ℕ → Bool) → ℕ → Room → Result MessageError SendPermission
check_send_permission valid actor r = do
  guard (valid actor) internal
  c ← or_fail r.conv record_not_found
  elim (get_member actor r.members) [
    | none ↦ ok (record {
      is_member = false;
      is_muted = false;
      is_muted_all = c.is_muted_all;
      mute_until = pos 0;
      conversation_type = c.type;
      other_member_ids = [];
    })
    | some m ↦ ok (record {
      is_member = true;
      is_muted = m.is_muted;
      is_muted_all = c.is_muted_all;
      mute_until = m.mute_until;
      conversation_type = c.type;
      other_member_ids = if is_private c.type then others_of actor r.members else [];
    })
  ]

-- The caller's identity, none without exactly one valid one.
unfoldable pub require_caller : Option ℕ → ℕ → Result MessageError (Unit {0})
require_caller caller user = do
  c ← or_fail caller user_id_missing
  guard (c == user) send_as_other_user

-- The row is read and locked after the conversation's and the membership.
unfoldable pub lock_mutable_message : (ℕ → Bool) → ℕ → ℕ → Thread → Result MessageError Message
unfolding check_send_permission
lock_mutable_message valid message_id user t = do
  permission ← check_send_permission valid user t.room
  guard permission.is_member not_member
  m ← or_fail (find (by_id message_id) t.messages) record_not_found
  guard (eq_opt m.sender_id user) only_sender
  ok m

-- publishMessageChange adds the sender as user_id to the payload of buildMessageCreatedPayload.
abbrev pub payload_user : InboxKind → Message → Option ℕ
payload_user message_new m = none
payload_user _ m = m.sender_id

-- The payload of the change, and the one of the deletion by a user for that user alone. The recipients
-- of the first are the members of now.
abbrev pub message_change : InboxKind → Message → Option ℕ → List Member → MessageChange
message_change kind m (some user) ms = record {
  kind = kind;
  message_id = m.id;
  user_id = some user;
  sender_id = none;
  seq = 0;
  reply_to_msg_id = none;
  recipient_ids = user ∷ [];
}
message_change kind m none ms = record {
  kind = kind;
  message_id = m.id;
  user_id = payload_user kind m;
  sender_id = m.sender_id;
  seq = m.seq;
  reply_to_msg_id = m.reply_to_msg_id;
  recipient_ids = recipients_of ms;
}

-- PublishInboxChange for the change of a message.
unfoldable pub publish_message :
    (ℕ → Option ℕ) → InboxKind → Message → Option ℕ → Thread → Result MessageError Thread
unfolding publish_inbox_change
publish_message new_id kind m scoped t = do
  guard (is_some t.room.conv) record_not_found
  ch ← internally (
      publish_inbox_change new_id (message_changed (message_change kind m scoped t.room.members))
        t.room.channel)
  ok (record t { room = record t.room { channel = ch } })

-- ORDER BY seq DESC LIMIT 1.
unfoldable pub latest_of : List Message → Option Message
latest_of [] = none
latest_of (m ∷ ms) = elim (latest_of ms) [
  | none ↦ some m
  | some l ↦ if leb m.seq l.seq then some l else some m
]

-- What the conversation's row shows of a message, and without one.
unfoldable pub shown : (ℕ → ℕ) → Option Message → Option ℕ × Preview
unfolding message_preview
shown cut none = (none, no_preview)
shown cut (some m) = (
  some m.id,
  if is_recalled m.status then recalled_preview else message_preview cut m.msg_type m.content,
)

-- The tail that a change of the message `m` leaves, if `m` was the tail.
unfoldable pub tail_after : (ℕ → ℕ) → InboxKind → Message → List Message → Option ℕ × Preview
unfolding latest_of message_preview shown
tail_after cut message_recalled m ms = (some m.id, recalled_preview)
tail_after cut message_deleted m ms = shown cut (latest_of ms)
tail_after cut _ m ms = (some m.id, message_preview cut m.msg_type m.content)

unfoldable pub publish_message_change :
    (ℕ → Option ℕ) → (ℕ → ℕ) → InboxKind → Message → Thread → Result MessageError Thread
unfolding publish_message tail_after
publish_message_change new_id cut kind m t = do
  guard (is_some t.room.conv) record_not_found
  let tail = tail_after cut kind m t.messages
  let t' =
      if eq_opt t.last_message_id m.id
      then record t { last_message_id = tail.0; last_message_preview = tail.1 }
      else t
  publish_message new_id kind m none t'
