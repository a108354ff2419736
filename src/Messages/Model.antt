-- ===== src/Messages/Model.antt =====
-- The rows of the messages of one conversation, its tail in the conversation's own row, and the errors
-- of the handlers. A time is in nanoseconds.
use maim.Common.{
  ℕ, Bool, true, false, Option, none, some, List, Result, ok, err, ◌==◌, if◌then◌else◌,
}
use maim.Conversations.Model.{Room, ConvError}
use maim.Messages.Json.{Json, object, string, get_field}

pub data MessageStatus : Type 0 where
  normal recalled edited streaming : MessageStatus

abbrev pub is_recalled : MessageStatus → Bool
is_recalled recalled = true
is_recalled _ = false

pub record Message : Type 0 where
  pub id : ℕ
  pub sender_id : Option ℕ
  pub client_msg_id : Option ℕ
  pub seq : ℕ
  pub msg_type : ℕ
  pub content : Json
  pub submission_content : Json
  pub reply_to_msg_id : Option ℕ
  pub status : MessageStatus
  pub edit_history : List Json
  pub edit_count : ℕ
  pub created_at : ℕ

pub record PersonalMessageDeletion : Type 0 where
  pub user_id : ℕ
  pub message_id : ℕ

-- What last_message_preview shows: nothing, the fixed text of a recalled message, the fixed text of
-- the other kinds, or the first twenty characters of a text.
pub data Preview : Type 0 where
  no_preview recalled_preview plain_preview : Preview
  text_preview : ℕ → Preview

-- A conversation with its messages, oldest first.
pub record Thread : Type 0 where
  pub room : Room
  pub messages : List Message
  pub deletions : List PersonalMessageDeletion
  pub last_message_id : Option ℕ
  pub last_message_preview : Preview

pub data MessageError : Type 0 where
  user_id_missing invalid_param send_as_other_user not_member sender_muted : MessageError
  blocked_by_member content_conflict invalid_reply file_service : MessageError
  conversation_not_found message_not_found only_sender : MessageError
  not_sender window_expired not_text recalled_message : MessageError
  record_not_found internal : MessageError

abbrev pub text_type : ℕ
text_type = 1

-- The numbers of the keys and texts that the handlers name.
abbrev pub text_key : ℕ
text_key = 1

-- content["text"].(string) with a text that is not empty, which is 0.
abbrev pub text_of : Json → Option ℕ
text_of (object fs) = elim (get_field text_key fs) [
  | some (string t) ↦ if t == 0 then none else some t
  | _ ↦ none
]
text_of _ = none

-- MessagePreview, of a content that is there. `cut` is the text cut at twenty characters.
unfoldable pub message_preview : (ℕ → ℕ) → ℕ → Json → Preview
message_preview cut msg_type content =
    if msg_type == text_type
    then elim (text_of content) [ some t ↦ text_preview (cut t) | none ↦ plain_preview ]
    else plain_preview

-- WHERE id = ?.
abbrev pub by_id : ℕ → Message → Bool
by_id id m = m.id == id

-- An error of PublishInboxChange and NextSeq is no business error.
abbrev pub internally {ℓ} : {A : Type ℓ} → Result ConvError A → Result MessageError A
internally (ok a) = ok a
internally (err e) = err internal
