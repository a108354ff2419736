-- ===== src/Messages/Send.antt =====
-- sendMessageLogic.go: SendMessage, validateSendContent, validateReplyTarget and persistMessage.
use maim.Common.{
  ℕ, ◌/◌, ◌^◌, Bool, true, false, ◌&&◌, ◌||◌, not, Option, none, some, List, [], ◌∷◌, ◌++◌, Result,
  ok, err, ◌>>=◌, ◌>>◌, guard, or_fail, if◌then◌else◌, ◌==◌, leb, eq_opt, find, exists, pos, ltb_ℤ,
}
use maim.Friends.Model.{UserBlock, block_key}
use maim.Inbox.Model.{message_new}
use maim.Conversations.Channel.{next_seq}
use maim.Conversations.Permission.{all_valid}
use maim.Messages.Json.{Json, Rat, same_submission, jsonb}
use maim.Messages.Model.{
  Message, normal, PersonalMessageDeletion, Thread, MessageError, user_id_missing, invalid_param,
  send_as_other_user, not_member, sender_muted, blocked_by_member, content_conflict, invalid_reply,
  conversation_not_found, record_not_found, internal, message_preview, by_id, internally,
}
use maim.Messages.Permission.{SendPermission, is_private, check_send_permission, publish_message}

-- The alternative of the request's content.
pub data ContentKind : Type 0 where
  text image file video audio attachment location custom : ContentKind

-- MESSAGE_TYPE_TEXT and the others.
abbrev pub type_of : ContentKind → ℕ
type_of text = 1
type_of image = 2
type_of file = 3
type_of video = 4
type_of audio = 5
type_of attachment = 0
type_of location = 6
type_of custom = 8

abbrev pub is_attachment : ContentKind → Bool
is_attachment attachment = true
is_attachment _ = false

-- A content with a payload: the identities it names, and what extractSendContent and
-- originalSubmission make of it.
pub record SendContent : Type 0 where
  pub kind : ContentKind
  pub ids : List ℕ
  pub content : Json
  pub submission : Json

pub record SendMessageReq : Type 0 where
  pub conversation_id : ℕ
  pub from_user_id : ℕ
  pub client_msg_id : ℕ
  pub reply_to_id : Option ℕ
  pub type : ℕ
  pub body : Option SendContent

unfoldable pub validate_send_content : (ℕ → Bool) → SendMessageReq → Result MessageError SendContent
validate_send_content valid q = do
  body ← or_fail q.body invalid_param
  guard (q.type == type_of body.kind && all_valid valid body.ids) invalid_param
  ok body

-- A mute without an end, or one that lasts.
abbrev pub is_silenced : ℕ → SendPermission → Bool
is_silenced now p =
    p.is_muted_all
    || (p.is_muted
        && (not (ltb_ℤ (pos 0) p.mute_until || ltb_ℤ p.mute_until (pos 0))
            || ltb_ℤ (pos (now / 10 ^ 9)) p.mute_until))

-- A block between the sender and another member, either way.
unfoldable pub is_blocked_by : ℕ → List ℕ → List UserBlock → Bool
is_blocked_by sender [] blocks = false
is_blocked_by sender (other ∷ others) blocks =
    (exists (block_key sender other) blocks || exists (block_key other sender) blocks)
    || is_blocked_by sender others blocks

-- What the sender may not do, in the order of the code.
unfoldable pub check_sender :
    ℕ → ℕ → List UserBlock → SendPermission → Result MessageError (Unit {0})
unfolding is_blocked_by
check_sender now sender blocks p = do
  guard p.is_member not_member
  guard (not (is_silenced now p)) sender_muted
  guard (not (is_private p.conversation_type && is_blocked_by sender p.other_member_ids blocks))
      blocked_by_member

-- WHERE sender_id = ? AND conv_id = ? AND client_msg_id = ?.
abbrev pub submitted_as : ℕ → ℕ → Message → Bool
submitted_as sender key m = eq_opt m.sender_id sender && eq_opt m.client_msg_id key

abbrev pub hidden_for : ℕ → ℕ → PersonalMessageDeletion → Bool
hidden_for user message_id d = d.user_id == user && d.message_id == message_id

-- The target is in the conversation, and the sender has not hidden it.
unfoldable pub validate_reply_target : ℕ → Option ℕ → Thread → Result MessageError (Unit {0})
validate_reply_target user none t = ok tt
validate_reply_target user (some reply) t =
    guard (exists (by_id reply) t.messages && not (exists (hidden_for user reply) t.deletions))
      invalid_reply

-- The row takes the next sequence number, is published to the members, and becomes the tail.
unfoldable pub persist_message :
    (ℕ → Option ℕ) → (ℕ → ℕ) → Message → Thread → Result MessageError (Message × Thread)
unfolding next_seq publish_message message_preview
persist_message event_id cut m t = do
  seq ← internally (next_seq t.room.channel.current_seq)
  let m' = record m { seq = seq }
  -- The primary key.
  guard (not (exists (by_id m.id) t.messages)) internal
  t' ← publish_message event_id message_new m' none (record t {
    room = record t.room { channel = record t.room.channel { current_seq = some seq } };
    messages = t.messages ++ m' ∷ [];
  })
  ok (
    m',
    record t' {
      room = record t'.room { channel = record t'.room.channel { max_seq = seq } };
      last_message_id = some m'.id;
      last_message_preview = message_preview cut m'.msg_type m'.content;
    },
  )

-- A missing conversation has its own error, outside the transaction.
abbrev pub reported : {A : Type 0} → Result MessageError A → Result MessageError A
reported (ok a) = ok a
reported (err record_not_found) = err conversation_not_found
reported (err e) = err e

-- The world of a call: identity.Validate and ValidateSubmissionKey, the clock, what identity.New returns
-- for the message and for the event of a publication sequence, the file service's answer with
-- hydrateAttachmentContent, and the stored blocks. `rewrite` is how the JSONB column prints a number.
-- `cut` cuts a text at twenty characters.
pub record SendContext : Type 0 where
  pub valid : ℕ → Bool
  pub valid_key : ℕ → Bool
  pub now : ℕ
  pub new_id : Option ℕ
  pub event_id : ℕ → Option ℕ
  pub marshal : Json → ℕ
  pub parse : ℕ → Option Rat
  pub rewrite : ℕ → ℕ
  pub download : SendContent → Result MessageError (ℕ × Json)
  pub blocks : List UserBlock

-- The type and the content to store. Only a new submission of a file asks the file service.
unfoldable pub stored_content :
    SendContext → SendMessageReq → SendContent → Result MessageError (ℕ × Json)
stored_content w q body =
    if is_attachment body.kind || (leb 2 q.type && leb q.type 5)
    then w.download body
    else ok (q.type, body.content)

-- The row before it has a number. The submission is given as the column gives it back, which is the form
-- that is compared.
abbrev pub new_message : SendContext → SendMessageReq → SendContent → ℕ → ℕ → Json → Message
new_message w q body id msg_type content = record {
  id = id;
  sender_id = some q.from_user_id;
  client_msg_id = some q.client_msg_id;
  seq = 0;
  msg_type = msg_type;
  content = content;
  submission_content = jsonb w.rewrite body.submission;
  reply_to_msg_id = q.reply_to_id;
  status = normal;
  edit_history = [];
  edit_count = 0;
  created_at = w.now;
}

-- A submission whose key is new.
unfoldable pub create_message :
    (ℕ → ℕ)
    → SendContext
    → SendMessageReq
    → SendContent
    → Thread
    → Result MessageError (Message × Thread)
unfolding stored_content validate_reply_target persist_message
create_message cut w q body t = do
  (msg_type, content) ← stored_content w q body
  validate_reply_target q.from_user_id q.reply_to_id t
  id ← or_fail w.new_id internal
  persist_message w.event_id cut (new_message w q body id msg_type content) t

-- The transaction: a key that is stored already returns its message, unless the content is another.
unfoldable pub submit_message :
    (ℕ → ℕ)
    → SendContext
    → SendMessageReq
    → SendContent
    → Thread
    → Result MessageError (Message × Thread)
unfolding check_sender create_message same_submission
submit_message cut w q body t = do
  permission ← check_send_permission w.valid q.from_user_id t.room
  check_sender w.now q.from_user_id w.blocks permission
  elim (find (submitted_as q.from_user_id q.client_msg_id) t.messages) [
    | some m ↦ do
      guard (same_submission w.parse w.marshal m.submission_content body.submission)
          content_conflict
      ok (m, t)
    | none ↦ create_message cut w q body t
  ]

abbrev pub valid_reply : (ℕ → Bool) → Option ℕ → Bool
valid_reply valid none = true
valid_reply valid (some reply) = valid reply

-- `caller` is callerUserID's. The message that is acknowledged, and the rows that are left.
unfoldable pub send_message :
    (ℕ → ℕ)
    → SendContext
    → Option ℕ
    → SendMessageReq
    → Thread
    → Result MessageError (Message × Thread)
unfolding validate_send_content submit_message
send_message cut w caller q t = do
  c ← or_fail caller user_id_missing
  guard (w.valid q.conversation_id && w.valid q.from_user_id) invalid_param
  guard (c == q.from_user_id) send_as_other_user
  guard (w.valid_key q.client_msg_id) invalid_param
  guard (valid_reply w.valid q.reply_to_id) invalid_param
  body ← validate_send_content w.valid q
  reported (submit_message cut w q body t)
